-- ===== src/Analyzer/Analyze.antt =====
-- analyzer.go: Analyze and sortedCounts, from the decoded state on.
use terraform_state_manager.Prelude.{
  ℕ, ◌+◌, ◌-◌, List, [], ◌∷◌, Bool, false, Option, none, some, Bytes, codes, if◌then◌else◌, ltb,
  ◌==◌, ◌&&◌, ◌||◌, str_eq, str_lt, length, Map, lookup, insert, Result, ok, err,
}
use terraform_state_manager.Prelude.Int.{ℤ, pos, negsuc}
use terraform_state_manager.Analyzer.Labels.{is_blank, normalize_provider, module_label}
use terraform_state_manager.Analyzer.Legacy.{Resource, State, is_empty, normalize_legacy}

pub record Count : Type 0 where
  pub name : Bytes
  pub count : ℕ

pub record Analysis : Type 0 where
  pub terraform_version : Bytes
  pub format_version : ℤ
  pub serial : ℤ
  pub lineage : Bytes
  pub total_resources : ℕ
  pub managed_resources : ℕ
  pub data_sources : ℕ
  pub null_resources : ℕ
  pub rum : ℕ
  pub resource_types : List Count
  pub providers : List Count
  pub modules : List Count

pub data Err : Type 0 where
  invalid_json : Err
  not_a_state : Err

-- The counters of the loop.
pub record Tally : Type 0 where
  pub data_sources : ℕ
  pub managed : ℕ
  pub nulls : ℕ
  pub types : Map ℕ
  pub providers : Map ℕ
  pub modules : Map ℕ

abbrev pub no_tally : Tally
no_tally = record {
  data_sources = 0;
  managed = 0;
  nulls = 0;
  types = [];
  providers = [];
  modules = [];
}

abbrev pub or_zero : Option ℕ → ℕ
or_zero none = 0
or_zero (some n) = n

-- `m[k] += n`
unfoldable pub add_count : Bytes → ℕ → Map ℕ → Map ℕ
unfolding lookup insert
add_count k n m = insert k (or_zero (lookup k m) + n) m

unfoldable pub is_data : Resource → Bool
is_data r = str_eq r.mode (codes "data")

unfoldable pub is_null_type : Resource → Bool
is_null_type r = str_eq r.typ (codes "null_resource") || str_eq r.typ (codes "terraform_data")

-- One round, for a block with instances that is not a data source.
unfoldable pub count_managed : Resource → ℕ → Tally → Tally
unfolding add_count normalize_provider module_label is_null_type
count_managed r n t = record t {
  managed = t.managed + n;
  types = add_count r.typ n t.types;
  providers = add_count (normalize_provider r.provider r.typ) n t.providers;
  modules = add_count (module_label r.mod_path) n t.modules;
  nulls = if is_null_type r then t.nulls + n else t.nulls;
}

unfoldable pub count_one : Resource → Tally → Tally
unfolding is_data count_managed
count_one r t =
    let n = length r.instances in
    if n == 0
    then t
    else if is_data r
    then record t { data_sources = t.data_sources + n }
    else count_managed r n t

unfoldable pub count_all : List Resource → Tally → Tally
unfolding count_one
count_all [] t = t
count_all (r ∷ rs) t = count_all rs (count_one r t)

-- The order of sortedCounts.
unfoldable pub comes_before : Count → Count → Bool
unfolding str_lt
comes_before a b = if a.count == b.count then str_lt a.name b.name else ltb b.count a.count

unfoldable pub insert_count : Count → List Count → List Count
unfolding comes_before
insert_count c [] = c ∷ []
insert_count c (d ∷ ds) =
    let rest = insert_count c ds in if comes_before d c then d ∷ rest else c ∷ d ∷ ds

unfoldable pub sorted_counts : Map ℕ → List Count
unfolding insert_count
sorted_counts [] = []
sorted_counts ((k, n) ∷ m) = insert_count (record { name = k; count = n }) (sorted_counts m)

unfoldable pub is_zero_int : ℤ → Bool
is_zero_int (pos n) = n == 0
is_zero_int (negsuc n) = false

unfoldable pub is_no_state : State → Bool
unfolding is_zero_int
is_no_state s = is_zero_int s.version && (is_blank s.lineage && is_empty s.resources)

unfoldable pub analysis_of : State → Tally → Analysis
unfolding sorted_counts
analysis_of s t = record {
  terraform_version = s.terraform_version;
  format_version = s.version;
  serial = s.serial;
  lineage = s.lineage;
  total_resources = t.managed + t.data_sources;
  managed_resources = t.managed;
  data_sources = t.data_sources;
  null_resources = t.nulls;
  rum = t.managed - t.nulls;
  resource_types = sorted_counts t.types;
  providers = sorted_counts t.providers;
  modules = sorted_counts t.modules;
}

-- Analyze after normalizeLegacy.
unfoldable pub analyze_state : State → Result Err Analysis
unfolding is_no_state count_all analysis_of
analyze_state s =
    if is_no_state s then err not_a_state else ok (analysis_of s (count_all s.resources no_tally))

-- Analyze of a decoded state; `none` when the JSON was refused.
unfoldable pub analyze : Option State → Result Err Analysis
unfolding normalize_legacy analyze_state
analyze none = err invalid_json
analyze (some s) = analyze_state (normalize_legacy s)
