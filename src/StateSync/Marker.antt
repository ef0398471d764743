-- ===== src/StateSync/Marker.antt =====
-- syncer.go: marker, analysisMarker and analysisRow.
use terraform_state_manager.Prelude.{
  ℕ, List, [], ◌++◌, Option, none, some, Bytes, codes, if◌then◌else◌, ◌&&◌, not,
}
use terraform_state_manager.Prelude.Int.{ℤ, print_int, print_nat}
use terraform_state_manager.Analyzer.Labels.{is_blank}
use terraform_state_manager.Analyzer.Analyze.{Analysis, Count, is_zero_int}

-- StateRef; the time of the last change as it is printed.
pub record StateRef : Type 0 where
  pub key : Bytes
  pub size : ℤ
  pub last_modified : Option Bytes
  pub version : Bytes

abbrev pub or_blank : Option Bytes → Bytes
or_blank none = []
or_blank (some s) = s

unfoldable pub marker : StateRef → Bytes
unfolding is_zero_int print_int
marker ref =
    let lm = or_blank ref.last_modified in
    let plain = print_int ref.size ++ codes "|" ++ lm in
    if is_zero_int ref.size && (is_blank lm && is_blank ref.version)
    then []
    else if not (is_blank ref.version)
    then plain ++ codes "|" ++ ref.version
    else plain

-- analyzer.AnalysisVersion
abbrev pub analysis_version : ℕ
analysis_version = 2

unfoldable pub analysis_marker : StateRef → Bytes
unfolding marker print_nat
analysis_marker ref =
    let m = marker ref in if is_blank m then [] else m ++ codes "|a" ++ print_nat analysis_version

-- A row of state_analyses of the source; the counts as lists in place of maps.
pub record Row : Type 0 where
  pub version_marker : Bytes
  pub size : ℕ
  pub terraform_version : Bytes
  pub serial : ℤ
  pub lineage : Bytes
  pub rum : ℕ
  pub managed_resources : ℕ
  pub data_sources : ℕ
  pub total_resources : ℕ
  pub providers : List Count
  pub resource_types : List Count

unfoldable pub analysis_row : StateRef → Analysis → ℕ → Row
unfolding analysis_marker
analysis_row ref a size = record {
  version_marker = analysis_marker ref;
  size = size;
  terraform_version = a.terraform_version;
  serial = a.serial;
  lineage = a.lineage;
  rum = a.rum;
  managed_resources = a.managed_resources;
  data_sources = a.data_sources;
  total_resources = a.total_resources;
  providers = a.providers;
  resource_types = a.resource_types;
}
