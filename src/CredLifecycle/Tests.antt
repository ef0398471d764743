-- ===== src/CredLifecycle/Tests.antt =====
-- sweeper.go on a concrete user: the theorems at inputs that meet their hypotheses, and runs.
use terraform_state_manager.Prelude.{
  ◌+◌, List, [], ◌∷◌, ◌++◌, Bool, true, false, Option, none, some, ◌≡◌, refl, Bytes, codes, not,
  any, map, select, length, arith, str_eq, inr, ◌&&◌, ◌||◌, if◌then◌else◌,
}
use mathlib.Core.Logic.{◌⊎◌}
use terraform_state_manager.CredLifecycle.Sweeper.{
  ApiKey, KeyReply, revoked, not_found, AdminReply, is_admin, not_configured, unknown, ApiKeys,
  Sweeper, revoke_key, revoke_user_tokens, revoke_user_keys, scope_admin, retained_authority,
  revoke_over_asking_keys, authority_reduced, user_deprovisioned, keys_only, new_sweeper,
  no_platform_admin_carrier,
}
use terraform_state_manager.CredLifecycle.Sweep.{
  over_asking, is_revoked, is_failed, has_count, revoke_over_asking_keys-exact,
  user_deprovisioned-both,
}
use terraform_state_manager.CredLifecycle.Unknown.{
  deletes_keys, ends_sessions, IsUndetermined, AdminGrantsAll, authority_reduced-unknown,
  keys_only-sessions, authority_reduced-platform_admin,
}

-- A checker that grants a scope that is held, or any under the wildcard.
abbrev grants : List Bytes → Bytes → Bool
grants [] s = false
grants (g ∷ gs) s = (str_eq g scope_admin || str_eq g s) || grants gs s

abbrev user : Bytes
user = codes "u1"

abbrev reader : ApiKey
reader = record { id = codes "k1"; scopes = codes "state:read" ∷ [] }

abbrev writer : ApiKey
writer = record { id = codes "k2"; scopes = codes "state:read" ∷ codes "state:write" ∷ [] }

abbrev stale : ApiKey
stale = record { id = codes "k3"; scopes = codes "admin" ∷ [] }

abbrev three_keys : List ApiKey
three_keys = reader ∷ writer ∷ stale ∷ []

abbrev answers : Bytes → KeyReply
answers id = if str_eq id (codes "k3") then not_found else revoked

abbrev store : ApiKeys
store = record {
  list_by_user = λ u. some three_keys;
  revoke = answers;
  revoke_for_user = λ u. some 3;
}

abbrev sweeper : Option (Bytes → Option (List Bytes)) → AdminReply → Sweeper
sweeper orgs reply = record {
  user_revocations = some (λ u. true);
  api_keys = some store;
  orgs = orgs;
  platform_admins = λ u. reply;
}

abbrev reads : Option (Bytes → Option (List Bytes))
reads = some (λ u. some (codes "state:read" ∷ []))

abbrev member : Sweeper
member = sweeper reads not_configured

member_authority : retained_authority member user ≡ some (codes "state:read" ∷ [])
unfolding retained_authority
member_authority = refl

revoke_over_asking_keys-exact_example :
    let over = over_asking grants answers (codes "state:read" ∷ []) three_keys in
    let (out, writes) = revoke_over_asking_keys grants member user in
    (writes ≡ map (λ k. revoke_key k.id) over)
    × (out.keys_retained + length over ≡ 3)
    × (out.keys_revoked ≡ length (select (λ k. is_revoked (answers k.id)) over))
    × (out.incomplete ≡ any (λ k. is_failed (answers k.id)) over)
revoke_over_asking_keys-exact_example =
    revoke_over_asking_keys-exact grants member user store (codes "state:read" ∷ []) three_keys refl
      member_authority refl

sweep_test :
    (revoke_over_asking_keys grants member user).1
    ≡ revoke_key (codes "k2") ∷ revoke_key (codes "k3") ∷ []
unfolding revoke_over_asking_keys str_eq
sweep_test = refl

user_deprovisioned-both_test :
    let (out, writes) = user_deprovisioned (some member) user in
    (writes ≡ revoke_user_tokens user ∷ revoke_user_keys user ∷ [])
    × (out.incomplete ≡ not (true && has_count (some 3)))
user_deprovisioned-both_test = user_deprovisioned-both member user (λ u. true) store refl refl

carrier_down-IsUndetermined : IsUndetermined (sweeper reads unknown) user
unfolding IsUndetermined
carrier_down-IsUndetermined = inr (inr refl)

authority_reduced-unknown_example :
    let (out, writes) = authority_reduced grants (some (sweeper reads unknown)) user in
    (any deletes_keys writes ≡ false) × ((some store ≡ none) ⊎ (out.incomplete ≡ true))
authority_reduced-unknown_example =
    authority_reduced-unknown grants (sweeper reads unknown) user carrier_down-IsUndetermined

keys_only-sessions_test : any ends_sessions (keys_only grants (some member) user).1 ≡ false
keys_only-sessions_test = keys_only-sessions grants (some member) user

wildcard_granted :
    (granted : List Bytes) (s : Bytes) → grants (granted ++ scope_admin ∷ []) s ≡ true
unfolding str_eq
wildcard_granted [] s = refl
wildcard_granted (g ∷ granted) s = ground (arith, wildcard_granted granted s)

wildcard : AdminGrantsAll grants
unfolding AdminGrantsAll
wildcard = wildcard_granted

authority_reduced-platform_admin_example :
    any deletes_keys
      (authority_reduced grants (some (sweeper (some (λ u. some [])) (is_admin true))) user).1
    ≡ false
authority_reduced-platform_admin_example =
    authority_reduced-platform_admin grants wildcard (sweeper (some (λ u. some [])) (is_admin true))
      user refl

new_sweeper_test : new_sweeper none none reads no_platform_admin_carrier ≡ none
unfolding new_sweeper
new_sweeper_test = refl
