-- ===== src/Analyzer/Ranking.antt =====
-- analyzer.go: the order of the breakdowns.
use terraform_state_manager.Prelude.{
  ℕ, ◌<◌, str_lt, ◌==◌, Bool-cases, inl, inr, ◌⊎◌, List, [], ◌∷◌, true, false, some, ◌≡◌, refl, sym,
  Bytes, arith, map, Map, ok,
}
use terraform_state_manager.Analyzer.Legacy.{State, normalize_legacy}
use terraform_state_manager.Analyzer.Analyze.{
  Count, Analysis, no_tally, count_all, comes_before, insert_count, sorted_counts, analysis_of,
  analyze,
}
use terraform_state_manager.Analyzer.Listing.{insert_by, sort_by}
use terraform_state_manager.Analyzer.Totals.{state_analysis}
use terraform_state_manager.Analyzer.Redaction.{IsOrdered, sort_by-IsOrdered, str_lt_asym}

comes_before_asym : (a b : Count) → comes_before a b ≡ true → comes_before b a ≡ false
unfolding comes_before
comes_before_asym a b h = ground (arith, h, str_lt_asym a.name b.name)

-- A label before its successor: a higher count, or the same count and no later label.
unfoldable pub IsRanked : List Count → Type 0
IsRanked [] = Unit
IsRanked (a ∷ []) = Unit
IsRanked (a ∷ b ∷ cs) =
    ((b.count < a.count) ⊎ ((a.count ≡ b.count) × (str_lt b.name a.name ≡ false)))
    × IsRanked (b ∷ cs)

not_before :
    (a b : Count)
    → comes_before b a ≡ false
    → (b.count < a.count) ⊎ ((a.count ≡ b.count) × (str_lt b.name a.name ≡ false))
unfolding comes_before
not_before a b h = elim (Bool-cases (b.count == a.count)) [
  | inl e ↦ inr (ground (arith, e), ground (arith, e, h))
  | inr e ↦ inl (ground (arith, e, h))
]

IsOrdered-IsRanked : (cs : List Count) → IsOrdered comes_before cs → IsRanked cs
unfolding IsOrdered IsRanked
IsOrdered-IsRanked [] h = tt
IsOrdered-IsRanked (a ∷ []) h = tt
IsOrdered-IsRanked (a ∷ b ∷ cs) (h, t) = (not_before a b h, IsOrdered-IsRanked (b ∷ cs) t)

entry_count : Bytes × ℕ → Count
entry_count (k, n) = record { name = k; count = n }

insert_count-insert_by :
    (c : Count) (cs : List Count) → insert_count c cs ≡ insert_by comes_before c cs
unfolding insert_count insert_by
insert_count-insert_by c [] = refl
insert_count-insert_by c (d ∷ ds) = rw (insert_count-insert_by c ds) refl

sorted_counts-sort_by : (m : Map ℕ) → sorted_counts m ≡ sort_by comes_before (map entry_count m)
unfolding sorted_counts sort_by entry_count
sorted_counts-sort_by [] = refl
sorted_counts-sort_by ((k, n) ∷ m) = rw (insert_count-insert_by, sorted_counts-sort_by m) refl

sorted_counts-IsRanked : (m : Map ℕ) → IsRanked (sorted_counts m)
sorted_counts-IsRanked m = IsOrdered-IsRanked (sorted_counts m) (
    rw (sorted_counts-sort_by m)
      (sort_by-IsOrdered comes_before comes_before_asym (map entry_count m)))

finished_ranks :
    (s : State)
    → let a = analysis_of s (count_all s.resources no_tally) in
      IsRanked a.resource_types × IsRanked a.providers × IsRanked a.modules
unfolding analysis_of
finished_ranks s =
    let t = count_all s.resources no_tally in
    (
      sorted_counts-IsRanked t.types,
      sorted_counts-IsRanked t.providers,
      sorted_counts-IsRanked t.modules,
    )

-- Each of the three breakdowns of an analysis is in descending order of the counts, and labels with
-- equal counts stand in ascending order.
pub analyze-IsRanked :
    (s : State) (a : Analysis)
    → analyze (some s) ≡ ok a
    → IsRanked a.resource_types × IsRanked a.providers × IsRanked a.modules
analyze-IsRanked s a h = rw (sym (state_analysis s a h)) (finished_ranks (normalize_legacy s))
