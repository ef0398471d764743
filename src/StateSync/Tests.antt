-- ===== src/StateSync/Tests.antt =====
-- Concrete cycles: the theorem at inputs that meet its hypotheses, and runs.
use terraform_state_manager.Prelude.{
  List, [], ◌∷◌, Bool, true, false, Option, none, some, ◌≡◌, refl, Bytes, codes, if◌then◌else◌,
  length, str_eq, Map, lookup, member,
}
use terraform_state_manager.Prelude.Int.{pos}
use terraform_state_manager.Analyzer.Analyze.{analyze}
use terraform_state_manager.StateSync.Marker.{StateRef, Row, analysis_marker}
use terraform_state_manager.StateSync.Syncer.{Pass, first, retry, Cycle, sync_source}
use terraform_state_manager.StateSync.Fleet.{
  Round, in_progress, sync_all, sync_sources, sync_key, drop_key,
}
use terraform_state_manager.StateSync.Passes.{find_ref, has_distinct_keys}
use terraform_state_manager.StateSync.Freshness.{expected, sync_source-rows}

abbrev ref : Bytes → Bytes → StateRef
ref key version = record { key = key; size = pos 7; last_modified = none; version = version }

abbrev refs : List StateRef
refs = ref (codes "a") (codes "1") ∷ ref (codes "b") (codes "2") ∷ ref (codes "c") (codes "3") ∷ []

abbrev second_only : Pass → Bytes → Option Bytes
second_only first key = none
second_only retry key = some (codes "again")

abbrev old : Bytes → Row
old m = record {
  version_marker = m;
  size = 0;
  terraform_version = [];
  serial = pos 0;
  lineage = [];
  rum = 0;
  managed_resources = 0;
  data_sources = 0;
  total_resources = 0;
  providers = [];
  resource_types = [];
}

-- The read of b fails in the first pass; those of c fail in both; z is no longer listed.
abbrev cycle : Cycle
cycle = record {
  connects = true;
  listing = some refs;
  markers_fail = false;
  expired = λ p key. false;
  read = λ p key.
      if str_eq key (codes "b")
      then second_only p key
      else if str_eq key (codes "c")
      then none
      else some (codes "now");
  upsert_fails = λ p key. false;
  prune_fails = false;
  state_of = λ d. some (record {
    version = pos 4;
    terraform_version = codes "1.9.0";
    serial = pos (length d);
    lineage = codes "l";
    resources = [];
    modules = [];
  });
}

abbrev rows : Map Row
rows =
    (codes "a", old (codes "7||1|a2"))
    ∷ (codes "b", old (codes "7||1|a2"))
    ∷ (codes "c", old (codes "7||1|a2"))
    ∷ (codes "z", old (codes "7||1|a2"))
    ∷ []

distinct : has_distinct_keys refs ≡ true
unfolding has_distinct_keys str_eq
distinct = refl

sync_source-rows_example :
    lookup (codes "b") (sync_source cycle rows).0
    ≡ expected cycle rows (codes "b") (find_ref (codes "b") refs)
sync_source-rows_example = sync_source-rows cycle refs rows (codes "b") refl refl refl refl distinct

marker_test : analysis_marker (ref (codes "a") (codes "1")) ≡ codes "7||1|a2"
unfolding analysis_marker
marker_test = refl

abbrev marker_in : Option Row → Bytes
marker_in none = []
marker_in (some row) = row.version_marker

kept_test :
    (marker_in (lookup (codes "b") (sync_source cycle rows).0) ≡ codes "7||2|a2")
    × (lookup (codes "a") (sync_source cycle rows).0 ≡ some (old (codes "7||1|a2")))
    × (lookup (codes "c") (sync_source cycle rows).0 ≡ some (old (codes "7||1|a2")))
    × (lookup (codes "z") (sync_source cycle rows).0 ≡ none)
unfolding sync_source str_eq analyze lookup analysis_marker
kept_test = (refl, refl, refl, refl)

status_test : (sync_source cycle rows).1.read_errors ≡ 1
unfolding sync_source str_eq analyze lookup analysis_marker
status_test = refl

abbrev round : Bool → Round
round busy = record {
  busy = busy;
  sources = some (codes "s" ∷ codes "t" ∷ []);
  cycle_of = λ id. cycle;
  is_cancelled = λ id. str_eq id (codes "t");
  ends_cancelled = false;
  status_fails = λ id. false;
}

busy_test :
    sync_all (round true) (record { rows = []; statuses = [] })
    ≡ (record { rows = []; statuses = [] }, in_progress)
unfolding sync_all
busy_test = refl

selected_test :
    (sync_sources (round false) (codes "t" ∷ []) (record { rows = []; statuses = [] })).0.rows ≡ []
unfolding sync_sources str_eq member
selected_test = refl

drop_test : drop_key false (codes "a") ((codes "a", old []) ∷ []) ≡ []
unfolding drop_key str_eq
drop_test = refl

-- A refresh of one key takes the marker of a fresh listing.
key_test : marker_in (lookup (codes "a") (sync_key cycle (codes "a") rows)) ≡ codes "7||1|a2"
unfolding sync_key str_eq analyze lookup analysis_marker
key_test = refl
