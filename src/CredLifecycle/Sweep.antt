-- ===== src/CredLifecycle/Sweep.antt =====
-- sweeper.go: which keys the sweep revokes, and what it counts.
use terraform_state_manager.Prelude.{
  ℕ, ◌+◌, List, [], ◌∷◌, Bool, true, false, Option, none, some, ◌≡◌, refl, ◌∙◌, Bytes, arith,
  if◌then◌else◌, ◌&&◌, ◌||◌, not, select, any, map, length, Bool-cases, inl, inr,
}
use terraform_state_manager.CredLifecycle.Sweeper.{
  ApiKey, KeyReply, revoked, not_found, failed, ApiKeys, Sweeper, Outcome, Write, revoke_key,
  no_outcome, authority_retained, count_reply, sweep_keys, sweep_listed, sweep_repository,
  retained_authority, revoke_over_asking_keys, revoke_user_tokens, revoke_user_keys,
  incomplete_outcome, count_bulk, bulk_revoke, revoke_tokens, user_deprovisioned,
}

abbrev pub is_revoked : KeyReply → Bool
is_revoked revoked = true
is_revoked _ = false

abbrev pub is_failed : KeyReply → Bool
is_failed failed = true
is_failed _ = false

count_one :
    (b : Bool) (n : ℕ) (k : ApiKey) (ks : List ApiKey)
    → n + (if b then 1 else 0) + length ks ≡ n + length (if b then k ∷ ks else ks)
count_one b n k ks = ground arith

or_assoc : (a b c : Bool) → ((a || b) || c) ≡ (a || (b || c))
or_assoc a b c = ground arith

module _ (has_scope : List Bytes → Bytes → Bool) (revoke : Bytes → KeyReply)
    (retained : List Bytes) where
  -- The key asks for more than the user retains.
  abbrev pub over_asks : ApiKey → Bool
  over_asks k = not (authority_retained has_scope k.scopes retained)

  abbrev pub over_asking : List ApiKey → List ApiKey
  over_asking ks = select over_asks ks

  -- What a sweep that begins with `out` has counted and written.
  record Swept (ks : List ApiKey) (out : Outcome) (res : Outcome × List Write) : Type 0 where
    writes : res.1 ≡ map (λ k. revoke_key k.id) (over_asking ks)
    kept : res.0.keys_retained + length (over_asking ks) ≡ out.keys_retained + length ks
    gone :
        res.0.keys_revoked
        ≡ out.keys_revoked + length (select (λ k. is_revoked (revoke k.id)) (over_asking ks))
    unfinished :
        res.0.incomplete ≡ (out.incomplete || any (λ k. is_failed (revoke k.id)) (over_asking ks))

  sweep_kept :
      (k : ApiKey) (ks : List ApiKey) (out : Outcome)
      → authority_retained has_scope k.scopes retained ≡ true
      → sweep_keys has_scope revoke retained (k ∷ ks) out
        ≡ sweep_keys has_scope revoke retained ks
            (record out { keys_retained = out.keys_retained + 1 })
  unfolding sweep_keys
  sweep_kept k ks out h = rw h refl

  sweep_over :
      (k : ApiKey) (ks : List ApiKey) (out : Outcome)
      → authority_retained has_scope k.scopes retained ≡ false
      → let rest = sweep_keys has_scope revoke retained ks (count_reply (revoke k.id) out) in
        sweep_keys has_scope revoke retained (k ∷ ks) out ≡ (rest.0, revoke_key k.id ∷ rest.1)
  unfolding sweep_keys
  sweep_over k ks out h = rw h refl

  count_reply_lem :
      (r : KeyReply) (out : Outcome)
      → ((count_reply r out).keys_retained ≡ out.keys_retained)
        × ((count_reply r out).keys_revoked ≡ out.keys_revoked + (if is_revoked r then 1 else 0))
        × ((count_reply r out).incomplete ≡ (out.incomplete || is_failed r))
  unfolding count_reply
  count_reply_lem revoked out = ground arith
  count_reply_lem not_found out = ground arith
  count_reply_lem failed out = ground arith

  sweep_keys-Swept :
      (ks : List ApiKey) (out : Outcome)
      → Swept ks out (sweep_keys has_scope revoke retained ks out)
  sweep_keys-Swept [] out = record {
    writes = unfold sweep_keys in refl;
    kept = unfold sweep_keys in omega arith;
    gone = unfold sweep_keys in omega arith;
    unfinished = unfold sweep_keys in ground arith;
  }
  sweep_keys-Swept (k ∷ ks) out =
      elim (Bool-cases (authority_retained has_scope k.scopes retained)) [
        | inl e ↦
            let ih = sweep_keys-Swept ks (record out { keys_retained = out.keys_retained + 1 }) in
            record {
              writes = rw (sweep_kept k ks out e, e) ih.writes;
              kept = rw (sweep_kept k ks out e, e) (ih.kept ∙ omega arith);
              gone = rw (sweep_kept k ks out e, e) ih.gone;
              unfinished = rw (sweep_kept k ks out e, e) ih.unfinished;
            }
        | inr e ↦
            let ih = sweep_keys-Swept ks (count_reply (revoke k.id) out) in
            let (r, v, i) = count_reply_lem (revoke k.id) out in
            record {
              writes = rw (sweep_over k ks out e, e) (rw ih.writes refl);
              kept = rw (sweep_over k ks out e, e) (omega (arith, ih.kept, r));
              gone =
                  rw (sweep_over k ks out e, e)
                    (ih.gone
                      ∙ rw v (
                          count_one (is_revoked (revoke k.id)) out.keys_revoked k
                            (select (λ j. is_revoked (revoke j.id)) (over_asking ks))));
              unfinished =
                  rw (sweep_over k ks out e, e)
                    (ih.unfinished
                      ∙ rw i (
                          or_assoc out.incomplete (is_failed (revoke k.id))
                            (any (λ j. is_failed (revoke j.id)) (over_asking ks))));
            }
      ]

  sweep_listed-exact :
      (ks : List ApiKey)
      → let (out, writes) = sweep_listed has_scope revoke (some retained) (some ks) in
        (writes ≡ map (λ k. revoke_key k.id) (over_asking ks))
        × (out.keys_retained + length (over_asking ks) ≡ length ks)
        × (out.keys_revoked ≡ length (select (λ k. is_revoked (revoke k.id)) (over_asking ks)))
        × (out.incomplete ≡ any (λ k. is_failed (revoke k.id)) (over_asking ks))
  unfolding sweep_listed
  sweep_listed-exact ks =
      let swept = sweep_keys-Swept ks no_outcome in
      (swept.writes, swept.kept ∙ omega arith, swept.gone ∙ omega arith, swept.unfinished)

module _ (has_scope : List Bytes → Bytes → Bool) where
  -- When the retained authority is known and the keys are listed, the sweep asks for the revocation
  -- of exactly the keys that hold a scope the user no longer has, in their order. It counts the other
  -- keys as retained and the confirmed revocations as revoked, a key already gone as neither, and is
  -- incomplete exactly when a revocation fails.
  pub revoke_over_asking_keys-exact :
      (s : Sweeper) (user : Bytes) (keys : ApiKeys) (retained : List Bytes) (ks : List ApiKey)
      → s.api_keys ≡ some keys
      → retained_authority s user ≡ some retained
      → keys.list_by_user user ≡ some ks
      → let over = over_asking has_scope keys.revoke retained ks in
        let (out, writes) = revoke_over_asking_keys has_scope s user in
        (writes ≡ map (λ k. revoke_key k.id) over)
        × (out.keys_retained + length over ≡ length ks)
        × (out.keys_revoked ≡ length (select (λ k. is_revoked (keys.revoke k.id)) over))
        × (out.incomplete ≡ any (λ k. is_failed (keys.revoke k.id)) over)
  revoke_over_asking_keys-exact s user keys retained ks hk hr hl =
      unfold revoke_over_asking_keys in
      rw (hk, hr)
        (unfold sweep_repository in rw hl (sweep_listed-exact has_scope keys.revoke retained ks))

abbrev pub has_count : Option ℕ → Bool
has_count none = false
has_count (some n) = true

bulk_lem :
    (done : Bool) (reply : Option ℕ)
    → (count_bulk reply (
        if done
        then record no_outcome { tokens_revoked = true }
        else incomplete_outcome)).incomplete
      ≡ not (done && has_count reply)
unfolding count_bulk
bulk_lem true none = refl
bulk_lem true (some n) = refl
bulk_lem false none = refl
bulk_lem false (some n) = refl

-- With both stores, offboarding a user asks for the revocation of all sessions and then of all keys,
-- the second also when the first fails. The sweep is incomplete unless both succeed.
pub user_deprovisioned-both :
    (s : Sweeper) (user : Bytes) (revoke_all : Bytes → Bool) (keys : ApiKeys)
    → s.user_revocations ≡ some revoke_all
    → s.api_keys ≡ some keys
    → let (out, writes) = user_deprovisioned (some s) user in
      (writes ≡ revoke_user_tokens user ∷ revoke_user_keys user ∷ [])
      × (out.incomplete ≡ not (revoke_all user && has_count (keys.revoke_for_user user)))
unfolding user_deprovisioned bulk_revoke revoke_tokens
user_deprovisioned-both s user revoke_all keys hr hk =
    (rw (hr, hk) refl, rw (hr, hk) (bulk_lem (revoke_all user) (keys.revoke_for_user user)))
