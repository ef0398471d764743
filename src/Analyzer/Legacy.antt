-- ===== src/Analyzer/Legacy.antt =====
-- analyzer.go: the state, and the fold of a state from before format 4 into the shape of format 4.
use terraform_state_manager.Prelude.{
  List, [], ◌∷◌, ◌++◌, Bool, true, false, not, ◌||◌, Option, none, some, Bytes, codes, map,
  if◌then◌else◌, has_prefix, trim_prefix, cut, join, Map, lookup, keys, sort_strings,
}
use terraform_state_manager.Prelude.Int.{ℤ}
use terraform_state_manager.Json.{Json, null}
use terraform_state_manager.Analyzer.Labels.{is_blank}

-- resource; an instance is the JSON value that it was read from.
pub record Resource : Type 0 where
  pub mod_path : Bytes
  pub mode : Bytes
  pub typ : Bytes
  pub name : Bytes
  pub provider : Bytes
  pub instances : List Json

pub record V3Resource : Type 0 where
  pub typ : Bytes
  pub provider : Bytes
  pub primary : Option Json
  pub deposed : List Json

pub record V3Module : Type 0 where
  pub path : List Bytes
  pub resources : Map V3Resource

-- state
pub record State : Type 0 where
  pub version : ℤ
  pub terraform_version : Bytes
  pub serial : ℤ
  pub lineage : Bytes
  pub resources : List Resource
  pub modules : List V3Module

abbrev pub is_empty {ℓ} : {A : Type ℓ} → List A → Bool
is_empty [] = true
is_empty (x ∷ xs) = false

-- legacyModuleField
unfoldable pub legacy_module_field : List Bytes → Bytes
unfolding join
legacy_module_field [] = []
legacy_module_field (root ∷ path) = join b'.' (map (λ p. codes "module." ++ p) path)

abbrev first_part : Bytes → Option (Bytes × Bytes) → Bytes
first_part k (some (c ∷ before, behind)) = c ∷ before
first_part k _ = k

-- legacyTypeFromKey
unfoldable pub legacy_type_from_key : Bytes → Bytes
unfolding trim_prefix cut
legacy_type_from_key k =
    let bare = trim_prefix k (codes "data.") in first_part bare (cut bare (codes "."))

-- legacyResourceName
unfoldable pub legacy_resource_name : Bytes → Bytes → Bytes
unfolding trim_prefix
legacy_resource_name k rtype = trim_prefix (trim_prefix k (codes "data.")) (rtype ++ codes ".")

-- The primary instance, unless it is absent or null, before the deposed ones.
unfoldable pub v3_instances : Option Json → List Json → List Json
v3_instances none deposed = deposed
v3_instances (some null) deposed = deposed
v3_instances (some v) deposed = v ∷ deposed

unfoldable pub convert : Bytes → Bytes → V3Resource → Resource
unfolding legacy_type_from_key legacy_resource_name v3_instances has_prefix
convert mod_path k rv =
    let rtype = if is_blank rv.typ then legacy_type_from_key k else rv.typ in
    record {
      mod_path = mod_path;
      mode = if has_prefix k (codes "data.") then codes "data" else codes "managed";
      typ = rtype;
      name = legacy_resource_name k rtype;
      provider = rv.provider;
      instances = v3_instances rv.primary rv.deposed;
    }

abbrev convert_found : Bytes → Bytes → Option V3Resource → List Resource
convert_found mod_path k none = []
convert_found mod_path k (some rv) = convert mod_path k rv ∷ []

-- The loop over the sorted keys of a module.
unfoldable pub convert_keys : Bytes → Map V3Resource → List Bytes → List Resource
unfolding convert lookup
convert_keys mod_path rs [] = []
convert_keys mod_path rs (k ∷ ks) =
    convert_found mod_path k (lookup k rs) ++ convert_keys mod_path rs ks

unfoldable pub convert_modules : List V3Module → List Resource
unfolding convert_keys legacy_module_field keys sort_strings
convert_modules [] = []
convert_modules (m ∷ ms) =
    convert_keys (legacy_module_field m.path) m.resources (sort_strings (keys m.resources))
    ++ convert_modules ms

-- normalizeLegacy
unfoldable pub normalize_legacy : State → State
unfolding convert_modules
normalize_legacy s =
    if not (is_empty s.resources) || is_empty s.modules
    then s
    else record s { resources = convert_modules s.modules }
