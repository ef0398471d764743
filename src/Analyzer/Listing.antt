-- ===== src/Analyzer/Listing.antt =====
-- resources.go and outputs.go: the resources and the outputs of a decoded state.
use terraform_state_manager.Prelude.{
  ℕ, List, [], ◌∷◌, ◌++◌, Bool, false, Option, none, some, Bytes, codes, map, if◌then◌else◌, ◌&&◌,
  not, str_eq, str_lt, length, Map, Result, ok, err,
}
use terraform_state_manager.Prelude.Int.{ℤ}
use terraform_state_manager.Json.{Json, arr, cons, unmarshal_string}
use terraform_state_manager.Analyzer.Labels.{is_blank, normalize_provider, module_label}
use terraform_state_manager.Analyzer.Legacy.{Resource, State, is_empty, normalize_legacy}
use terraform_state_manager.Analyzer.Analyze.{Err, invalid_json, not_a_state, is_zero_int}

pub record ResourceSummary : Type 0 where
  pub mod_path : Bytes
  pub mode : Bytes
  pub typ : Bytes
  pub name : Bytes
  pub provider : Bytes
  pub instances : ℕ
  pub instance_keys : List Json

abbrev given : Option Json → List Json
given none = []
given (some v) = v ∷ []

-- instanceKeys; the empty list stands for nil. The parameter decodes the member index_key of an
-- instance; `none` is an error, a null or an absent member.
unfoldable pub instance_keys : (Json → Option Json) → List Json → List Json
instance_keys index_key [] = []
instance_keys index_key (v ∷ vs) = given (index_key v) ++ instance_keys index_key vs

unfoldable pub summary_of : (Json → Option Json) → Resource → ResourceSummary
unfolding instance_keys normalize_provider module_label
summary_of index_key r = record {
  mod_path = module_label r.mod_path;
  mode = r.mode;
  typ = r.typ;
  name = r.name;
  provider = normalize_provider r.provider r.typ;
  instances = length r.instances;
  instance_keys = instance_keys index_key r.instances;
}

-- The order by module, type and name.
unfoldable pub summary_before : ResourceSummary → ResourceSummary → Bool
unfolding str_eq str_lt
summary_before a b =
    if not (str_eq a.mod_path b.mod_path)
    then str_lt a.mod_path b.mod_path
    else if not (str_eq a.typ b.typ)
    then str_lt a.typ b.typ
    else str_lt a.name b.name

module _ {ℓ} {A : Type ℓ} (before : A → A → Bool) where
  unfoldable pub insert_by : A → List A → List A
  insert_by a [] = a ∷ []
  insert_by a (b ∷ bs) = let rest = insert_by a bs in if before b a then b ∷ rest else a ∷ b ∷ bs

  -- sort.Slice, up to the order of elements that compare equal.
  unfoldable pub sort_by : List A → List A
  unfolding insert_by
  sort_by [] = []
  sort_by (a ∷ as') = insert_by a (sort_by as')

-- ListResources
unfoldable pub list_resources :
    (Json → Option Json) → Option State → Result Err (List ResourceSummary)
unfolding normalize_legacy summary_of sort_by summary_before
list_resources index_key none = err invalid_json
list_resources index_key (some s) =
    ok (sort_by summary_before (map (summary_of index_key) (normalize_legacy s).resources))

pub record StateOutput : Type 0 where
  pub value : Option Json
  pub typ : Option Json
  pub sensitive : Bool

pub record LegacyOutputModule : Type 0 where
  pub path : List Bytes
  pub outputs : Map StateOutput

pub record StateOutputs : Type 0 where
  pub version : ℤ
  pub lineage : Bytes
  pub outputs : Map StateOutput
  pub resources : List Json
  pub modules : List LegacyOutputModule

pub record OutputSummary : Type 0 where
  pub name : Bytes
  pub typ : Bytes
  pub sensitive : Bool
  pub value : Option Json

abbrev or_complex : Option Bytes → Bytes
or_complex none = codes "complex"
or_complex (some s) = s

abbrev first_label : Json → Bytes
first_label (arr (cons x xs)) = or_complex (unmarshal_string x)
first_label _ = codes "complex"

abbrev or_first : Json → Option Bytes → Bytes
or_first v none = first_label v
or_first v (some s) = s

-- ctyTypeLabel; `none` is a message of length 0.
unfoldable pub cty_type_label : Option Json → Bytes
unfolding unmarshal_string
cty_type_label none = []
cty_type_label (some v) = or_first v (unmarshal_string v)

is_root : List Bytes → Bool
is_root (p ∷ []) = str_eq p (codes "root")
is_root _ = false

-- rootModuleOutputs
unfoldable pub root_module_outputs : List LegacyOutputModule → Map StateOutput
unfolding is_root
root_module_outputs [] = []
root_module_outputs (m ∷ ms) =
    let rest = root_module_outputs ms in if is_root m.path then m.outputs else rest

unfoldable pub fold_legacy : StateOutputs → Map StateOutput
unfolding root_module_outputs
fold_legacy s = if is_empty s.outputs then root_module_outputs s.modules else s.outputs

unfoldable pub output_of : Bytes × StateOutput → OutputSummary
unfolding cty_type_label
output_of (name, o) = record {
  name = name;
  typ = cty_type_label o.typ;
  sensitive = o.sensitive;
  value = if o.sensitive then none else o.value;
}

unfoldable pub output_before : OutputSummary → OutputSummary → Bool
unfolding str_lt
output_before a b = str_lt a.name b.name

-- ListOutputs of a decoded state; `none` when the JSON was refused.
unfoldable pub list_outputs : Option StateOutputs → Result Err (List OutputSummary)
unfolding is_zero_int fold_legacy output_of sort_by output_before
list_outputs none = err invalid_json
list_outputs (some s) =
    let outputs = fold_legacy s in
    if is_zero_int s.version && (is_blank s.lineage && (is_empty s.resources && is_empty outputs))
    then err not_a_state
    else ok (sort_by output_before (map output_of outputs))
