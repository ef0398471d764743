-- ===== src/CredLifecycle/Sweeper.antt =====
-- sweeper.go: the sweeper, its outcomes and its operations. The repositories, the carrier of the
-- platform admins and the scope checker of the identity module are parameters. An operation returns
-- its outcome and the writes it asks the repositories for, in order.
use terraform_state_manager.Prelude.{
  ℕ, ◌+◌, List, [], ◌∷◌, ◌++◌, Bool, true, false, Option, none, some, Bytes, codes, if◌then◌else◌,
  ◌&&◌, ◌||◌,
}

-- idstore.APIKey, as far as the sweep reads it.
pub record ApiKey : Type 0 where
  pub id : Bytes
  pub scopes : List Bytes

-- What RevokeAPIKey answers: nil, ErrNotFound or another error.
pub data KeyReply : Type 0 where
  revoked : KeyReply
  not_found : KeyReply
  failed : KeyReply

-- What IsPlatformAdmin answers: a Boolean, ErrNotConfigured or another error.
pub data AdminReply : Type 0 where
  is_admin : Bool → AdminReply
  not_configured : AdminReply
  unknown : AdminReply

-- idstore.APIKeyRepository; `none` is an error.
pub record ApiKeys : Type 0 where
  pub list_by_user : Bytes → Option (List ApiKey)
  pub revoke : Bytes → KeyReply
  pub revoke_for_user : Bytes → Option ℕ

-- The sweeper; `none` in a field is a nil pointer. The field user_revocations says whether
-- RevokeAllUserTokens succeeds, and orgs what GetUserCombinedScopes returns, `none` for an error.
pub record Sweeper : Type 0 where
  pub user_revocations : Option (Bytes → Bool)
  pub api_keys : Option ApiKeys
  pub orgs : Option (Bytes → Option (List Bytes))
  pub platform_admins : Bytes → AdminReply

pub record Outcome : Type 0 where
  pub tokens_revoked : Bool
  pub keys_revoked : ℕ
  pub keys_retained : ℕ
  pub incomplete : Bool

-- A call that changes a repository.
pub data Write : Type 0 where
  revoke_user_tokens : Bytes → Write
  revoke_key : Bytes → Write
  revoke_user_keys : Bytes → Write

abbrev pub no_outcome : Outcome
no_outcome = record {
  tokens_revoked = false;
  keys_revoked = 0;
  keys_retained = 0;
  incomplete = false;
}

abbrev pub incomplete_outcome : Outcome
incomplete_outcome = record {
  tokens_revoked = false;
  keys_revoked = 0;
  keys_retained = 0;
  incomplete = true;
}

abbrev pub scope_admin : Bytes
scope_admin = codes "admin"

abbrev is_nil {ℓ} : {A : Type ℓ} → Option A → Bool
is_nil none = true
is_nil (some a) = false

-- NewSweeper; `none` is nil.
unfoldable pub new_sweeper :
    Option (Bytes → Bool)
    → Option ApiKeys
    → Option (Bytes → Option (List Bytes))
    → (Bytes → AdminReply)
    → Option Sweeper
new_sweeper revocations keys orgs admins =
    if is_nil revocations && is_nil keys
    then none
    else some (record {
      user_revocations = revocations;
      api_keys = keys;
      orgs = orgs;
      platform_admins = admins;
    })

-- NoPlatformAdminCarrier.IsPlatformAdmin
unfoldable pub no_platform_admin_carrier : Bytes → AdminReply
no_platform_admin_carrier user = not_configured

-- What the loop does when a key's revocation was answered.
unfoldable pub count_reply : KeyReply → Outcome → Outcome
count_reply revoked out = record out { keys_revoked = out.keys_revoked + 1 }
count_reply not_found out = out
count_reply failed out = record out { incomplete = true }

-- The scopes retained with the carrier's; `none` when the carrier fails.
unfoldable pub with_carrier : AdminReply → List Bytes → Option (List Bytes)
with_carrier (is_admin b) retained = some (if b then retained ++ scope_admin ∷ [] else retained)
with_carrier not_configured retained = some retained
with_carrier unknown retained = none

unfoldable pub combined_scopes : Option (Bytes → Option (List Bytes)) → Bytes → Option (List Bytes)
combined_scopes none user = none
combined_scopes (some scopes) user = scopes user

unfoldable pub carried : AdminReply → Option (List Bytes) → Option (List Bytes)
unfolding with_carrier
carried reply none = none
carried reply (some retained) = with_carrier reply retained

-- The authority a user retains; `none` when it cannot be determined.
unfoldable pub retained_authority : Sweeper → Bytes → Option (List Bytes)
unfolding combined_scopes carried
retained_authority s user = carried (s.platform_admins user) (combined_scopes s.orgs user)

unfoldable pub revoke_tokens : Option (Bytes → Bool) → Bytes → Outcome × List Write
revoke_tokens none user = (no_outcome, [])
revoke_tokens (some revoke_all) user = (
  if revoke_all user then record no_outcome { tokens_revoked = true } else incomplete_outcome,
  revoke_user_tokens user ∷ [],
)

unfoldable pub count_bulk : Option ℕ → Outcome → Outcome
count_bulk none out = record out { incomplete = true }
count_bulk (some n) out = record out { keys_revoked = n }

unfoldable pub bulk_revoke : Option ApiKeys → Bytes → Outcome × List Write → Outcome × List Write
unfolding count_bulk
bulk_revoke none user done = done
bulk_revoke (some keys) user (out, writes) =
    (count_bulk (keys.revoke_for_user user) out, writes ++ revoke_user_keys user ∷ [])

-- UserDeprovisioned
unfoldable pub user_deprovisioned : Option Sweeper → Bytes → Outcome × List Write
unfolding revoke_tokens bulk_revoke
user_deprovisioned none user = (no_outcome, [])
user_deprovisioned (some s) user =
    bulk_revoke s.api_keys user (revoke_tokens s.user_revocations user)

module _ (has_scope : List Bytes → Bytes → Bool) where
  unfoldable pub authority_retained : List Bytes → List Bytes → Bool
  authority_retained [] retained = true
  authority_retained (s ∷ have) retained =
      let rest = authority_retained have retained in if has_scope retained s then rest else false

  -- The loop of revokeOverAskingKeys over the listed keys.
  unfoldable pub sweep_keys :
      (Bytes → KeyReply) → List Bytes → List ApiKey → Outcome → Outcome × List Write
  unfolding authority_retained count_reply
  sweep_keys revoke retained [] out = (out, [])
  sweep_keys revoke retained (k ∷ ks) out =
      let kept =
        sweep_keys revoke retained ks (record out { keys_retained = out.keys_retained + 1 }) in
      let (swept, writes) = sweep_keys revoke retained ks (count_reply (revoke k.id) out) in
      if authority_retained k.scopes retained then kept else (swept, revoke_key k.id ∷ writes)

  -- The end of revokeOverAskingKeys, from the retained authority and the listed keys.
  unfoldable pub sweep_listed :
      (Bytes → KeyReply) → Option (List Bytes) → Option (List ApiKey) → Outcome × List Write
  unfolding sweep_keys
  sweep_listed revoke (some retained) (some keys) = sweep_keys revoke retained keys no_outcome
  sweep_listed revoke _ _ = (incomplete_outcome, [])

  unfoldable pub sweep_repository :
      Option ApiKeys → Option (List Bytes) → Bytes → Outcome × List Write
  unfolding sweep_listed
  sweep_repository none retained user = (no_outcome, [])
  sweep_repository (some keys) retained user =
      sweep_listed keys.revoke retained (keys.list_by_user user)

  unfoldable pub revoke_over_asking_keys : Sweeper → Bytes → Outcome × List Write
  unfolding retained_authority sweep_repository
  revoke_over_asking_keys s user = sweep_repository s.api_keys (retained_authority s user) user

  -- AuthorityReduced
  unfoldable pub authority_reduced : Option Sweeper → Bytes → Outcome × List Write
  unfolding revoke_tokens revoke_over_asking_keys
  authority_reduced none user = (no_outcome, [])
  authority_reduced (some s) user =
      let (out, tokens) = revoke_tokens s.user_revocations user in
      let (key_out, keys) = revoke_over_asking_keys s user in
      (
        record out {
          keys_revoked = key_out.keys_revoked;
          keys_retained = key_out.keys_retained;
          incomplete = out.incomplete || key_out.incomplete;
        },
        tokens ++ keys,
      )

  unfoldable pub keys_only : Option Sweeper → Bytes → Outcome × List Write
  unfolding revoke_over_asking_keys
  keys_only none user = (no_outcome, [])
  keys_only (some s) user = revoke_over_asking_keys s user
