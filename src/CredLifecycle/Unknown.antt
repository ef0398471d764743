-- ===== src/CredLifecycle/Unknown.antt =====
-- sweeper.go: what a sweep does not do. It deletes no key on an authority it could not determine and
-- none of a platform admin's, and a login sweep leaves the sessions alone.
use terraform_state_manager.Prelude.{
  List, [], ◌∷◌, ◌++◌, Bool, true, false, Option, none, some, ◌≡◌, refl, Bytes, arith, ◌||◌, any,
  Bool-cases, inl, inr,
}
use mathlib.Core.Logic.{◌⊎◌}
use terraform_state_manager.CredLifecycle.Sweeper.{
  ApiKey, KeyReply, is_admin, unknown, ApiKeys, Sweeper, Outcome, Write, revoke_user_tokens,
  revoke_key, revoke_user_keys, no_outcome, scope_admin, authority_retained, with_carrier,
  sweep_keys, sweep_listed, sweep_repository, retained_authority, combined_scopes, carried,
  revoke_over_asking_keys, revoke_tokens, authority_reduced, keys_only,
}

-- The write deletes an API key, or moves the watermark of the sessions.
abbrev pub deletes_keys : Write → Bool
deletes_keys (revoke_user_tokens user) = false
deletes_keys (revoke_key id) = true
deletes_keys (revoke_user_keys user) = true

abbrev pub ends_sessions : Write → Bool
ends_sessions (revoke_user_tokens user) = true
ends_sessions _ = false

-- No store of the memberships, an error of it, or an error of the carrier.
unfoldable pub IsUndetermined : Sweeper → Bytes → Type 0
IsUndetermined s user =
    (s.orgs ≡ none)
    ⊎ (((scopes : Bytes → Option (List Bytes)) × (s.orgs ≡ some scopes) × (scopes user ≡ none))
        ⊎ (s.platform_admins user ≡ unknown))

carrier_fails : (scopes : Option (List Bytes)) → carried unknown scopes ≡ none
unfolding carried with_carrier
carrier_fails none = refl
carrier_fails (some scopes) = refl

undetermined :
    (s : Sweeper) (user : Bytes) → IsUndetermined s user → retained_authority s user ≡ none
unfolding IsUndetermined retained_authority combined_scopes carried
undetermined s user (inl no_orgs) = rw no_orgs refl
undetermined s user (inr (inl (scopes, ho, hs))) = rw (ho, hs) refl
undetermined s user (inr (inr h)) = rw h (carrier_fails (combined_scopes s.orgs user))

module _ (has_scope : List Bytes → Bytes → Bool) where
  repository_unknown :
      (keys : Option ApiKeys) (user : Bytes) → (sweep_repository has_scope keys none user).1 ≡ []
  unfolding sweep_repository sweep_listed
  repository_unknown none user = refl
  repository_unknown (some keys) user = refl

  tokens_keep_keys :
      (revocations : Option (Bytes → Bool)) (user : Bytes)
      → any deletes_keys ((revoke_tokens revocations user).1 ++ []) ≡ false
  unfolding revoke_tokens
  tokens_keep_keys none user = refl
  tokens_keep_keys (some f) user = refl

  reduced_parts :
      (s : Sweeper) (user : Bytes)
      → let (out, writes) = authority_reduced has_scope (some s) user in
        let (token_out, tokens) = revoke_tokens s.user_revocations user in
        let (key_out, keys) =
          sweep_repository has_scope s.api_keys (retained_authority s user) user in
        (writes ≡ tokens ++ keys) × (out.incomplete ≡ (token_out.incomplete || key_out.incomplete))
  unfolding authority_reduced revoke_over_asking_keys
  reduced_parts s user = (refl, refl)

  or_true : (b : Bool) → (b || true) ≡ true
  or_true b = ground arith

  unknown_incomplete :
      (keys : Option ApiKeys) (user : Bytes)
      → (keys ≡ none) ⊎ ((sweep_repository has_scope keys none user).0.incomplete ≡ true)
  unfolding sweep_repository sweep_listed
  unknown_incomplete none user = inl refl
  unknown_incomplete (some keys) user = inr refl

  -- When the authority that a user retains cannot be determined, AuthorityReduced deletes no API key,
  -- and reports the sweep as incomplete if there is a store of keys.
  pub authority_reduced-unknown :
      (s : Sweeper) (user : Bytes)
      → IsUndetermined s user
      → let (out, writes) = authority_reduced has_scope (some s) user in
        (any deletes_keys writes ≡ false) × ((s.api_keys ≡ none) ⊎ (out.incomplete ≡ true))
  authority_reduced-unknown s user h =
      let none_known = undetermined s user h in
      let (hw, hi) = reduced_parts s user in
      let out = (revoke_tokens s.user_revocations user).0.incomplete in
      (
        rw (hw, none_known, repository_unknown s.api_keys user)
            (tokens_keep_keys s.user_revocations user),
        elim (unknown_incomplete s.api_keys user) [
          | inl no_keys ↦ inl no_keys
          | inr e ↦ inr (rw (hi, none_known, e) (or_true out))
        ],
      )

  sweep-sessions :
      (revoke : Bytes → KeyReply) (retained : List Bytes) (ks : List ApiKey) (out : Outcome)
      → any ends_sessions (sweep_keys has_scope revoke retained ks out).1 ≡ false
  unfolding sweep_keys
  sweep-sessions revoke retained [] out = refl
  sweep-sessions revoke retained (k ∷ ks) out =
      elim (Bool-cases (authority_retained has_scope k.scopes retained)) [
        | inl e ↦ rw e (sweep-sessions revoke retained ks _)
        | inr e ↦ rw e (sweep-sessions revoke retained ks _)
      ]

  listed-sessions :
      (revoke : Bytes → KeyReply) (retained : Option (List Bytes)) (ks : Option (List ApiKey))
      → any ends_sessions (sweep_listed has_scope revoke retained ks).1 ≡ false
  unfolding sweep_listed
  listed-sessions revoke none ks = refl
  listed-sessions revoke (some retained) none = refl
  listed-sessions revoke (some retained) (some ks) = sweep-sessions revoke retained ks no_outcome

  repository-sessions :
      (keys : Option ApiKeys) (retained : Option (List Bytes)) (user : Bytes)
      → any ends_sessions (sweep_repository has_scope keys retained user).1 ≡ false
  unfolding sweep_repository
  repository-sessions none retained user = refl
  repository-sessions (some keys) retained user =
      listed-sessions keys.revoke retained (keys.list_by_user user)

  -- The sweep at a login never moves the watermark of the sessions.
  pub keys_only-sessions :
      (s : Option Sweeper) (user : Bytes) → any ends_sessions (keys_only has_scope s user).1 ≡ false
  unfolding keys_only revoke_over_asking_keys
  keys_only-sessions none user = refl
  keys_only-sessions (some s) user = repository-sessions s.api_keys (retained_authority s user) user

  -- The wildcard grants every scope.
  unfoldable pub AdminGrantsAll : Type 0
  AdminGrantsAll =
      (granted : List Bytes) (s : Bytes) → has_scope (granted ++ scope_admin ∷ []) s ≡ true

  wildcard_retains :
      AdminGrantsAll
      → (have granted : List Bytes)
      → authority_retained has_scope have (granted ++ scope_admin ∷ []) ≡ true
  unfolding authority_retained AdminGrantsAll
  wildcard_retains wildcard [] granted = refl
  wildcard_retains wildcard (s ∷ have) granted =
      rw (wildcard granted s) (wildcard_retains wildcard have granted)

  wildcard_sweep :
      AdminGrantsAll
      → (revoke : Bytes → KeyReply) (granted : List Bytes) (ks : List ApiKey) (out : Outcome)
      → (sweep_keys has_scope revoke (granted ++ scope_admin ∷ []) ks out).1 ≡ []
  unfolding sweep_keys
  wildcard_sweep wildcard revoke granted [] out = refl
  wildcard_sweep wildcard revoke granted (k ∷ ks) out =
      rw (wildcard_retains wildcard k.scopes granted) (wildcard_sweep wildcard revoke granted ks _)

  wildcard_listed :
      AdminGrantsAll
      → (revoke : Bytes → KeyReply) (granted : Option (List Bytes)) (ks : Option (List ApiKey))
      → (sweep_listed has_scope revoke (carried (is_admin true) granted) ks).1 ≡ []
  unfolding sweep_listed carried with_carrier
  wildcard_listed wildcard revoke none ks = refl
  wildcard_listed wildcard revoke (some granted) none = refl
  wildcard_listed wildcard revoke (some granted) (some ks) =
      wildcard_sweep wildcard revoke granted ks no_outcome

  wildcard_repository :
      AdminGrantsAll
      → (keys : Option ApiKeys) (granted : Option (List Bytes)) (user : Bytes)
      → (sweep_repository has_scope keys (carried (is_admin true) granted) user).1 ≡ []
  unfolding sweep_repository
  wildcard_repository wildcard none granted user = refl
  wildcard_repository wildcard (some keys) granted user =
      wildcard_listed wildcard keys.revoke granted (keys.list_by_user user)

  -- If the wildcard grants every scope, AuthorityReduced deletes no key of a platform admin, a member of
  -- an organization or not.
  pub authority_reduced-platform_admin :
      AdminGrantsAll
      → (s : Sweeper) (user : Bytes) → s.platform_admins user ≡ is_admin true
      → any deletes_keys (authority_reduced has_scope (some s) user).1 ≡ false
  authority_reduced-platform_admin wildcard s user admin =
      let (hw, _) = reduced_parts s user in
      rw hw (
        unfold retained_authority in
        rw (admin, wildcard_repository wildcard s.api_keys (combined_scopes s.orgs user) user)
          (tokens_keep_keys s.user_revocations user))
