-- ===== src/Analyzer/Redaction.antt =====
-- outputs.go and resources.go: what the listings show and in which order.
use terraform_state_manager.Prelude.{
  List, [], ◌∷◌, Bool, true, false, none, some, ◌≡◌, refl, sym, Bytes, map, arith, if◌then◌else◌,
  ◌&&◌, str_lt, Result, ok, err, ok_inj, Bool-cases, ap, Map, inl, inr,
}
use mathlib.Core.List.{Perm}
use mathlib.Core.List.Perm
use terraform_state_manager.Analyzer.Labels.{is_blank}
use terraform_state_manager.Analyzer.Legacy.{is_empty}
use terraform_state_manager.Analyzer.Analyze.{Err, not_a_state, is_zero_int}
use terraform_state_manager.Analyzer.Listing.{
  insert_by, sort_by, StateOutput, StateOutputs, OutputSummary, fold_legacy, output_of,
  output_before, list_outputs,
}

module _ {ℓ} {A : Type ℓ} (before : A → A → Bool) where
  insert_by-perm : (a : A) (as' : List A) → Perm (insert_by before a as') (a ∷ as')
  unfolding insert_by
  insert_by-perm a [] = Perm.rfl
  insert_by-perm a (b ∷ bs) = elim (Bool-cases (before b a)) [
    | inl e ↦ rw e (Perm.trans (Perm.cons b (insert_by-perm a bs)) (Perm.swap a b bs))
    | inr e ↦ rw e Perm.rfl
  ]

  sort_by-perm : (as' : List A) → Perm (sort_by before as') as'
  unfolding sort_by
  sort_by-perm [] = Perm.rfl
  sort_by-perm (a ∷ as') =
      Perm.trans (insert_by-perm a (sort_by before as')) (Perm.cons a (sort_by-perm as'))

module _ {ℓ} {A : Type ℓ} (before : A → A → Bool) where
  -- Each element is not after its successor.
  unfoldable pub IsOrdered : List A → Type 0
  IsOrdered [] = Unit
  IsOrdered (a ∷ []) = Unit
  IsOrdered (a ∷ b ∷ as') = (before b a ≡ false) × IsOrdered (b ∷ as')

  module _ (asym : (a b : A) → before a b ≡ true → before b a ≡ false) where
    insert_behind :
        (b a : A) (cs : List A)
        → before a b ≡ false
        → IsOrdered (b ∷ cs)
        → IsOrdered (b ∷ insert_by before a cs)
    unfolding IsOrdered insert_by
    insert_behind b a [] hab h = (hab, tt)
    insert_behind b a (c ∷ cs) hab (hcb, h) = elim (Bool-cases (before c a)) [
      | inl e ↦ rw e (hcb, insert_behind c a cs (asym c a e) h)
      | inr e ↦ rw e (hab, (e, h))
    ]

    insert_by-IsOrdered : (a : A) (bs : List A) → IsOrdered bs → IsOrdered (insert_by before a bs)
    unfolding IsOrdered insert_by
    insert_by-IsOrdered a [] h = tt
    insert_by-IsOrdered a (b ∷ bs) h = elim (Bool-cases (before b a)) [
      | inl e ↦ rw e (insert_behind b a bs (asym b a e) h)
      | inr e ↦ rw e (e, h)
    ]

    pub sort_by-IsOrdered : (as' : List A) → IsOrdered (sort_by before as')
    unfolding IsOrdered sort_by
    sort_by-IsOrdered [] = tt
    sort_by-IsOrdered (a ∷ as') = insert_by-IsOrdered a (sort_by before as') (sort_by-IsOrdered as')

pub str_lt_asym : (s t : Bytes) → str_lt s t ≡ true → str_lt t s ≡ false
unfolding str_lt
str_lt_asym [] [] h = refl
str_lt_asym [] (b ∷ t) h = refl
str_lt_asym (a ∷ s) [] h = ground (arith, h)
str_lt_asym (a ∷ s) (b ∷ t) h = ground (arith, h, str_lt_asym s t)

-- The order of the names, on the summaries and on the outputs of the state.
abbrev pub is_lower : OutputSummary → OutputSummary → Bool
is_lower a b = str_lt a.name b.name

abbrev is_lower_entry : Bytes × StateOutput → Bytes × StateOutput → Bool
is_lower_entry a b = str_lt a.0 b.0

is_lower_asym : (a b : OutputSummary) → is_lower a b ≡ true → is_lower b a ≡ false
is_lower_asym a b h = str_lt_asym a.name b.name h

-- The summary has the name and the flag of the output, no value if the output is sensitive, and the
-- output's value if it is not.
unfoldable pub IsShown : Bytes × StateOutput → OutputSummary → Type 0
IsShown (name, o) x =
    (x.name ≡ name)
    × (x.sensitive ≡ o.sensitive)
    × (o.sensitive ≡ true → x.value ≡ none)
    × (o.sensitive ≡ false → x.value ≡ o.value)

unfoldable pub AllShown : Map StateOutput → List OutputSummary → Type 0
AllShown [] [] = Unit
AllShown (e ∷ es) (x ∷ xs) = IsShown e x × AllShown es xs
AllShown _ _ = ⊥

output_of-IsShown : (e : Bytes × StateOutput) → IsShown e (output_of e)
unfolding IsShown output_of
output_of-IsShown (name, o) = (refl, refl, (λ h. rw h refl), (λ h. rw h refl))

map-AllShown : (es : Map StateOutput) → AllShown es (map output_of es)
unfolding AllShown
map-AllShown [] = tt
map-AllShown (e ∷ es) = (output_of-IsShown e, map-AllShown es)

insert_by-output_of :
    (e : Bytes × StateOutput) (es : Map StateOutput)
    → insert_by output_before (output_of e) (map output_of es)
      ≡ map output_of (insert_by is_lower_entry e es)
unfolding insert_by output_before output_of
insert_by-output_of e [] = refl
insert_by-output_of e (d ∷ es) = elim (Bool-cases (str_lt d.0 e.0)) [
  | inl h ↦ rw h (ap (λ l. output_of d ∷ l) (insert_by-output_of e es))
  | inr h ↦ rw h refl
]

sort_by-output_of :
    (es : Map StateOutput)
    → sort_by output_before (map output_of es) ≡ map output_of (sort_by is_lower_entry es)
unfolding sort_by
sort_by-output_of [] = refl
sort_by-output_of (e ∷ es) =
    rw (sort_by-output_of es) (insert_by-output_of e (sort_by is_lower_entry es))

IsOrdered-names : (xs : List OutputSummary) → IsOrdered is_lower (sort_by output_before xs)
unfolding output_before
IsOrdered-names xs = sort_by-IsOrdered is_lower is_lower_asym xs

abbrev decided : Bool → List OutputSummary → Result Err (List OutputSummary)
decided b xs = if b then err not_a_state else ok xs

accepted : (b : Bool) (xs ys : List OutputSummary) → decided b xs ≡ ok ys → xs ≡ ys
accepted true xs ys h = ground (arith, h)
accepted false xs ys h = ok_inj h

-- The listed outputs stand in the order of their names, and they are those that foldLegacy finds in
-- the state, each once: an output that the state marks as sensitive without its value, any other with
-- it.
pub list_outputs-IsRedacted :
    (s : StateOutputs) (outs : List OutputSummary)
    → list_outputs (some s) ≡ ok outs
    → IsOrdered is_lower outs
      × ((listed : Map StateOutput) × Perm listed (fold_legacy s) × AllShown listed outs)
unfolding list_outputs
list_outputs-IsRedacted s outs h =
    let entries = fold_legacy s in
    let none_found =
      is_zero_int s.version && (is_blank s.lineage && (is_empty s.resources && is_empty entries)) in
    let same = accepted none_found (sort_by output_before (map output_of entries)) outs h in
    rw (sym same) (
      IsOrdered-names (map output_of entries),
      (
        sort_by is_lower_entry entries,
        sort_by-perm is_lower_entry entries,
        rw (sort_by-output_of entries) (map-AllShown (sort_by is_lower_entry entries)),
      ),
    )
