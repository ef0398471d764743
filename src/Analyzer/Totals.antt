-- ===== src/Analyzer/Totals.antt =====
-- analyzer.go: the totals and the breakdowns of Analyze against sums over the blocks of the state.
use terraform_state_manager.Prelude.{
  ℕ, ◌+◌, ◌-◌, ◌≤◌, List, Bool, true, false, some, ◌≡◌, sym, ◌∙◌, Bytes, arith, if◌then◌else◌, ◌&&◌,
  not, Result, ok, err, ok_inj,
}
use terraform_state_manager.Analyzer.Labels.{normalize_provider, module_label}
use terraform_state_manager.Analyzer.Legacy.{Resource, State, normalize_legacy}
use terraform_state_manager.Analyzer.Analyze.{
  Analysis, no_tally, is_data, is_null_type, count_all, is_no_state, analysis_of, analyze_state,
  analyze, not_a_state, Err,
}
use terraform_state_manager.Analyzer.Sums.{
  size, is_managed, counted, of_map, counted-sorted_counts, count_all-Grown, size-split,
}

abbrev decided : Bool → Analysis → Result Err Analysis
decided b x = if b then err not_a_state else ok x

accepted : (b : Bool) (x a : Analysis) → decided b x ≡ ok a → x ≡ a
accepted true x a h = ground (arith, h)
accepted false x a h = ok_inj h

pub state_analysis :
    (s : State) (a : Analysis)
    → analyze (some s) ≡ ok a
    → analysis_of (normalize_legacy s) (count_all (normalize_legacy s).resources no_tally) ≡ a
unfolding analyze analyze_state
state_analysis s a h =
    let s' = normalize_legacy s in
    accepted (is_no_state s') (analysis_of s' (count_all s'.resources no_tally)) a h

add_zero : (a x : ℕ) → a ≡ 0 + x → a ≡ x
add_zero a x h = omega (arith, h)

module _ (s : State) (rs : List Resource) where
  abbrev finished : Analysis
  finished = analysis_of s (count_all rs no_tally)

  rum_lem :
      (d m n all' none' rest : ℕ)
      → d ≡ 0 + none'
      → m ≡ 0 + all'
      → n ≡ 0 + (all' - rest)
      → rest ≤ all'
      → (m + d ≡ all' + none') × (m - n ≡ rest) × (m - n + n ≡ m)
  rum_lem d m n all' none' rest hd hm hn h =
      (omega (arith, hd, hm), omega (arith, hm, hn, h), omega (arith, hm, hn, h))

  finished_totals :
      (finished.data_sources ≡ size is_data rs)
      × (finished.managed_resources ≡ size is_managed rs)
      × (finished.total_resources ≡ size is_managed rs + size is_data rs)
      × (finished.rum ≡ size (λ r. is_managed r && not (is_null_type r)) rs)
      × (finished.rum + finished.null_resources ≡ finished.managed_resources)
  unfolding analysis_of
  finished_totals =
      let g = count_all-Grown rs no_tally in
      let split = size-split is_managed is_null_type rs in
      let t = count_all rs no_tally in
      let nulls = size (λ r. is_managed r && is_null_type r) rs in
      let rest = size (λ r. is_managed r && not (is_null_type r)) rs in
      let (total, rum, both) =
        rum_lem t.data_sources t.managed t.nulls (size is_managed rs) (size is_data rs) rest
          g.data_sources g.managed (g.nulls ∙ omega (arith, split)) (omega (arith, split)) in
      (add_zero _ _ g.data_sources, add_zero _ _ g.managed, total, rum, both)

  finished_breakdowns :
      (p : Bytes → Bool)
      → (counted p finished.resource_types ≡ size (λ r. is_managed r && p r.typ) rs)
        × (counted p finished.providers
            ≡ size (λ r. is_managed r && p (normalize_provider r.provider r.typ)) rs)
        × (counted p finished.modules ≡ size (λ r. is_managed r && p (module_label r.mod_path)) rs)
  unfolding analysis_of of_map
  finished_breakdowns p =
      let g = count_all-Grown rs no_tally in
      let t = count_all rs no_tally in
      (
        counted-sorted_counts p t.types ∙ add_zero _ _ (g.types p),
        counted-sorted_counts p t.providers ∙ add_zero _ _ (g.providers p),
        counted-sorted_counts p t.modules ∙ add_zero _ _ (g.modules p),
      )

-- Of the blocks that normalizeLegacy leaves, managed instances and data sources are summed apart, the
-- total is their sum, and RUM is the number of managed instances whose type is neither null_resource
-- nor terraform_data, so that the subtraction never goes below zero.
pub analyze-totals :
    (s : State) (a : Analysis)
    → analyze (some s) ≡ ok a
    → let rs = (normalize_legacy s).resources in
      (a.data_sources ≡ size is_data rs)
      × (a.managed_resources ≡ size is_managed rs)
      × (a.total_resources ≡ size is_managed rs + size is_data rs)
      × (a.rum ≡ size (λ r. is_managed r && not (is_null_type r)) rs)
      × (a.rum + a.null_resources ≡ a.managed_resources)
analyze-totals s a h =
    let s' = normalize_legacy s in rw (sym (state_analysis s a h)) (finished_totals s' s'.resources)

-- For any set of labels, the counts under them in each of the three breakdowns add up to the managed
-- instances of the blocks with such a type, provider or module.
pub analyze-breakdowns :
    (s : State) (a : Analysis) (p : Bytes → Bool)
    → analyze (some s) ≡ ok a
    → let rs = (normalize_legacy s).resources in
      (counted p a.resource_types ≡ size (λ r. is_managed r && p r.typ) rs)
      × (counted p a.providers
          ≡ size (λ r. is_managed r && p (normalize_provider r.provider r.typ)) rs)
      × (counted p a.modules ≡ size (λ r. is_managed r && p (module_label r.mod_path)) rs)
analyze-breakdowns s a p h =
    let s' = normalize_legacy s in
    rw (sym (state_analysis s a h)) (finished_breakdowns s' s'.resources p)
