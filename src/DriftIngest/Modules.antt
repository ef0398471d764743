-- ===== src/DriftIngest/Modules.antt =====
-- plan.go: ParseModuleLocks, ModuleRefs and registryModuleAddress. The canonical form of a host is
-- that of another module of the suite, a parameter; "" from it means that the host is refused.
use terraform_state_manager.Prelude.{
  List, [], ◌∷◌, ◌++◌, Bool, true, false, Option, none, some, ◌≡◌, refl, Bytes, codes,
  if◌then◌else◌, ◌==◌, ◌||◌, any, has_prefix, cut, split, join, Map, lookup, insert,
}

pub record ModuleRef : Type 0 where
  pub module_source : Bytes
  pub registry_host : Bytes
  pub module_version : Option Bytes

pub record ModuleEntry : Type 0 where
  pub source : Bytes
  pub version : Bytes

unfoldable pub lock_key : Bytes → Bytes → Bytes
lock_key host source = host ++ b'|' ∷ source

abbrev is_some {ℓ} : {A : Type ℓ} → Option A → Bool
is_some none = false
is_some (some a) = true

abbrev pub is_blank : Bytes → Bool
is_blank [] = true
is_blank (c ∷ s) = false

-- A local path, a VCS address or a query.
unfoldable pub is_unregistered : Bytes → Bool
unfolding has_prefix cut
is_unregistered src =
    is_blank src
    || has_prefix src (codes "./")
    || has_prefix src (codes "../")
    || has_prefix src (codes "/")
    || is_some (cut src (codes "::"))
    || is_some (cut src (codes "?"))
    || has_prefix src (codes "git@")

abbrev before_subdir : Bytes → Option (Bytes × Bytes) → Bytes
before_subdir src none = src
before_subdir src (some (before, behind)) = before

-- strings.ContainsAny(s, ".:")
unfoldable pub looks_like_host : Bytes → Bool
looks_like_host s = any (λ c. c == b'.' || c == b':') s

abbrev pub public_registry_host : Bytes
public_registry_host = codes "registry.terraform.io"

module _ (canonical_host : Bytes → Bytes) where
  abbrev with_host : Bytes → Bytes → Option (Bytes × Bytes)
  with_host [] source = none
  with_host (c ∷ host) source = some (c ∷ host, source)

  -- The `switch` on the number of parts.
  unfoldable pub address_of_parts : Bytes → List Bytes → Option (Bytes × Bytes)
  unfolding looks_like_host
  address_of_parts src (a ∷ b ∷ c ∷ []) =
      if looks_like_host a then none else some (canonical_host public_registry_host, src)
  address_of_parts src (a ∷ b ∷ c ∷ d ∷ []) =
      if looks_like_host a then with_host (canonical_host a) (join b'/' (b ∷ c ∷ d ∷ [])) else none
  address_of_parts src _ = none

  unfoldable pub registry_module_address : Bytes → Option (Bytes × Bytes)
  unfolding is_unregistered cut split address_of_parts join
  registry_module_address src =
      let parent = before_subdir src (cut src (codes "//")) in
      if is_unregistered src then none else address_of_parts parent (split b'/' parent)

  -- The loop of ParseModuleLocks.
  unfoldable pub lock_one : ModuleEntry → Map Bytes → Map Bytes
  unfolding registry_module_address lock_key insert
  lock_one m locks = if is_blank m.version then locks else elim (registry_module_address m.source) [
    | none ↦ locks
    | some (host, source) ↦ insert (lock_key host source) m.version locks
  ]

  unfoldable pub lock_all : List ModuleEntry → Map Bytes → Map Bytes
  unfolding lock_one
  lock_all [] locks = locks
  lock_all (m ∷ ms) locks = lock_all ms (lock_one m locks)

  abbrev nil_if_empty : Map Bytes → Option (Map Bytes)
  nil_if_empty [] = none
  nil_if_empty (e ∷ m) = some (e ∷ m)

  -- ParseModuleLocks of a manifest with these entries; `none` for empty or invalid JSON.
  unfoldable pub parse_module_locks : Option (List ModuleEntry) → Option (Map Bytes)
  unfolding lock_all
  parse_module_locks none = none
  parse_module_locks (some ms) = nil_if_empty (lock_all ms [])

  abbrev version_if_set : Option Bytes → Option Bytes
  version_if_set (some (c ∷ v)) = some (c ∷ v)
  version_if_set _ = none

  unfoldable pub locked_version : Option (Map Bytes) → Bytes → Option Bytes
  unfolding lookup
  locked_version none k = none
  locked_version (some locks) k = version_if_set (lookup k locks)

  unfoldable pub module_ref : Option (Map Bytes) → Bytes → Option ModuleRef
  unfolding registry_module_address locked_version lock_key
  module_ref locks src = elim (registry_module_address src) [
    | none ↦ none
    | some (host, source) ↦ some (record {
      module_source = source;
      registry_host = host;
      module_version = locked_version locks (lock_key host source);
    })
  ]

  unfoldable pub refs_loop : List Bytes → Option (Map Bytes) → List ModuleRef
  unfolding module_ref
  refs_loop [] locks = []
  refs_loop (src ∷ srcs) locks = elim (module_ref locks src) [
    | none ↦ refs_loop srcs locks
    | some r ↦ r ∷ refs_loop srcs locks
  ]

  -- ModuleRefs over the sources of the plan's module calls, in the order in which the map is read;
  -- `none` is a nil plan.
  unfoldable pub module_refs : Option (List Bytes) → Option (Map Bytes) → List ModuleRef
  unfolding refs_loop
  module_refs none locks = []
  module_refs (some srcs) locks = refs_loop srcs locks

address_test :
    registry_module_address (λ h. h) (codes "hashicorp/consul/aws//modules/a")
    ≡ some (codes "registry.terraform.io", codes "hashicorp/consul/aws")
unfolding registry_module_address
address_test = refl
