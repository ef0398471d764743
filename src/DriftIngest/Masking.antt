-- ===== src/DriftIngest/Masking.antt =====
-- plan.go: changedAttrs and isSens against a description by keys, in which no cap and no order of the
-- loop occurs.
use terraform_state_manager.Prelude.{
  ℕ, ◌+◌, ◌-◌, ◌≤◌, List, [], ◌∷◌, ◌++◌, append_assoc, Bool, true, false, Option, none, some, ◌≡◌,
  refl, sym, ◌∙◌, Bytes, codes, arith, leb, ◌||◌, not, length, length-append, take, take_all, tests,
  take_full, length-take, select, Bool-cases, inl, inr, min, map, Map, lookup, All, All-take,
  All-map,
}
use terraform_state_manager.Json.{Json}
use mathlib.Core.Logic.{◌⊎◌}
use terraform_state_manager.DriftIngest.Canon.{json_equal}
use terraform_state_manager.DriftIngest.Attrs.{
  Floats, Change, AttrChange, as_object, sorted_union, decodes, mask_or_fmt, attr_change, attr_loop,
  attrs_between, changed_attrs,
}
use terraform_state_manager.DriftIngest.Marks.{IsMarked, IsMarked-is_sens}

module _ (floats : Floats) (ch : Change) (b a : Map Json) where
  -- The two sides differ at a key.
  abbrev pub differs : Bytes → Bool
  differs k = not (json_equal floats.number (lookup k b) (lookup k a))

  -- Every attribute that differs, in the order of the keys.
  unfoldable pub all_attrs : List Bytes → List AttrChange
  all_attrs ks = map (attr_change floats ch b a) (select differs ks)

module _ (floats : Floats) (ch : Change) (max_attrs : ℕ) (b a : Map Json) where
  abbrev listing : List Bytes → List AttrChange
  listing ks = all_attrs floats ch b a ks

  abbrev run : List Bytes → List AttrChange → ℕ → List AttrChange × ℕ
  run ks attrs omitted = attr_loop floats ch max_attrs b a ks attrs omitted

  run_same :
      (k : Bytes) (ks : List Bytes) (attrs : List AttrChange) (omitted : ℕ)
      → json_equal floats.number (lookup k b) (lookup k a) ≡ true
      → (run (k ∷ ks) attrs omitted ≡ run ks attrs omitted) × (listing (k ∷ ks) ≡ listing ks)
  unfolding attr_loop all_attrs
  run_same k ks attrs omitted h = (rw h refl, rw h refl)

  run_full :
      (k : Bytes) (ks : List Bytes) (attrs : List AttrChange) (omitted : ℕ)
      → json_equal floats.number (lookup k b) (lookup k a) ≡ false
      → leb max_attrs (length attrs) ≡ true
      → run (k ∷ ks) attrs omitted ≡ run ks attrs (omitted + 1)
  unfolding attr_loop
  run_full k ks attrs omitted h full = rw (h, full) refl

  run_room :
      (k : Bytes) (ks : List Bytes) (attrs : List AttrChange) (omitted : ℕ)
      → json_equal floats.number (lookup k b) (lookup k a) ≡ false
      → leb max_attrs (length attrs) ≡ false
      → run (k ∷ ks) attrs omitted ≡ run ks (attrs ++ attr_change floats ch b a k ∷ []) omitted
  unfolding attr_loop
  run_room k ks attrs omitted h room = rw (h, room) refl

  differ :
      (k : Bytes) (ks : List Bytes)
      → json_equal floats.number (lookup k b) (lookup k a) ≡ false
      → listing (k ∷ ks) ≡ attr_change floats ch b a k ∷ listing ks
  unfolding all_attrs
  differ k ks h = rw h refl

  -- What the loop has done: the attributes it returns, and how many it returns or leaves out.
  record Listed (ks : List Bytes) (attrs : List AttrChange) (omitted : ℕ) : Type 0 where
    kept : (run ks attrs omitted).0 ≡ take max_attrs (attrs ++ listing ks)
    size :
        length (run ks attrs omitted).0 + (run ks attrs omitted).1
        ≡ length attrs + omitted + length (listing ks)

  run-Listed :
      (ks : List Bytes) (attrs : List AttrChange) (omitted : ℕ)
      → length attrs ≤ max_attrs
      → Listed ks attrs omitted
  run-Listed [] attrs omitted h = record {
    kept = unfold attr_loop all_attrs in sym (take_all max_attrs attrs h);
    size = unfold attr_loop all_attrs in omega arith;
  }
  run-Listed (k ∷ ks) attrs omitted h =
      let row = attr_change floats ch b a k in
      elim (Bool-cases (json_equal floats.number (lookup k b) (lookup k a))) [
        | inl e ↦
            let ih = run-Listed ks attrs omitted h in
            let (step, all') = run_same k ks attrs omitted e in
            record { kept = rw (step, all') ih.kept; size = rw (step, all') ih.size }
        | inr e ↦
            let all' = differ k ks e in
            elim (Bool-cases (leb max_attrs (length attrs))) [
              | inl full ↦
                  let ih = run-Listed ks attrs (omitted + 1) h in
                  let h' : max_attrs ≤ length attrs = omega (tests, full) in
                  record {
                    kept = rw (run_full k ks attrs omitted e full) (
                        ih.kept
                        ∙ take_full max_attrs attrs (listing ks) h'
                        ∙ sym (take_full max_attrs attrs (listing (k ∷ ks)) h'));
                    size = rw (run_full k ks attrs omitted e full, all') (ih.size ∙ omega arith);
                  }
              | inr room ↦
                  let longer = length-append attrs (row ∷ []) in
                  let ih =
                    run-Listed ks (attrs ++ row ∷ []) omitted
                      (rw longer (ground (arith, room, h))) in
                  record {
                    kept =
                        rw (run_room k ks attrs omitted e room, all')
                          (ih.kept ∙ rw append_assoc refl);
                    size =
                        rw (run_room k ks attrs omitted e room, all')
                          (ih.size ∙ rw longer (omega arith));
                  }
            ]
      ]

cap_arith : (m t o n : ℕ) → t ≡ min m n → t + o ≡ n → o ≡ n - m
cap_arith m t o n h k = ground (arith, h, k)

module _ (floats : Floats) (ch : Change) (max_attrs : ℕ) where
  -- When both sides are objects the change is in place: its attributes are the first `max_attrs` of
  -- the keys of either side, in the order of sorted_union, at which the two sides differ, and the
  -- number left out is what that cuts off.
  pub changed_attrs-in_place :
      (b a : Map Json)
      → as_object ch.before ≡ some b
      → as_object ch.after ≡ some a
      → let every = all_attrs floats ch b a (sorted_union b a) in
        changed_attrs floats ch max_attrs ≡ (take max_attrs every, length every - max_attrs, true)
  changed_attrs-in_place b a hb ha =
      let every = all_attrs floats ch b a (sorted_union b a) in
      let listed = run-Listed floats ch max_attrs b a (sorted_union b a) [] 0 (omega arith) in
      let omitted =
        cap_arith max_attrs (length (take max_attrs every))
          (attr_loop floats ch max_attrs b a (sorted_union b a) [] 0).1 (length every)
          (length-take max_attrs every) (rw (sym listed.kept) (listed.size ∙ omega arith)) in
      unfold changed_attrs in rw (hb, ha) (unfold attrs_between in rw (listed.kept, omitted) refl)

  neither : (b : Option (Map Json)) → attrs_between floats ch max_attrs b none ≡ ([], 0, false)
  unfolding attrs_between
  neither none = refl
  neither (some b) = refl

  -- Neither side being an object, or only one of them, gives no attributes.
  not_in_place :
      (as_object ch.before ≡ none) ⊎ (as_object ch.after ≡ none)
      → changed_attrs floats ch max_attrs ≡ ([], 0, false)
  not_in_place (inl hb) = unfold changed_attrs attrs_between in rw hb refl
  not_in_place (inr ha) = unfold changed_attrs in rw ha (neither (as_object ch.before))

-- The attribute shows nothing of a value that a mirror marks which can be decoded.
unfoldable pub IsMasked : Floats → Change → AttrChange → Type 0
IsMasked floats ch attr =
    (v : Json)
    → (ch.before_sensitive ≡ some v) ⊎ (ch.after_sensitive ≡ some v)
    → decodes floats.in_range v ≡ true
    → IsMarked floats v attr.name
    → (attr.before ≡ some (codes "(sensitive)")) × (attr.after ≡ some (codes "(sensitive)"))

attr_change-IsMasked :
    (floats : Floats) (ch : Change) (b a : Map Json) (k : Bytes)
    → IsMasked floats ch (attr_change floats ch b a k)
unfolding IsMasked attr_change mask_or_fmt
attr_change-IsMasked floats ch b a k v (inl e) fits h =
    let sens = IsMarked-is_sens floats v k fits h in (rw e (rw sens refl), rw e (rw sens refl))
attr_change-IsMasked floats ch b a k v (inr e) fits h =
    let sens = IsMarked-is_sens floats v k fits h in
    let either : (x : Bool) → (x || true) ≡ true = λ x. ground (arith, x) in
    (rw e (rw sens (rw either refl)), rw e (rw sens (rw either refl)))

All-all_attrs :
    (floats : Floats) (ch : Change) (b a : Map Json) (ks : List Bytes)
    → All (IsMasked floats ch) (all_attrs floats ch b a ks)
unfolding all_attrs
All-all_attrs floats ch b a ks =
    All-map (IsMasked floats ch) (attr_change floats ch b a) (select (differs floats ch b a) ks)
      (λ k. attr_change-IsMasked floats ch b a k)

objects-IsMasked :
    (floats : Floats) (ch : Change) (max_attrs : ℕ) (b a : Option (Map Json))
    → All (IsMasked floats ch) (attrs_between floats ch max_attrs b a).0
unfolding attrs_between
objects-IsMasked floats ch max_attrs none a = tt
objects-IsMasked floats ch max_attrs (some b) none = tt
objects-IsMasked floats ch max_attrs (some b) (some a) =
    let ks = sorted_union b a in
    let listed = run-Listed floats ch max_attrs b a ks [] 0 (omega arith) in
    rw listed.kept (
      All-take (IsMasked floats ch) max_attrs (all_attrs floats ch b a ks)
        (All-all_attrs floats ch b a ks))

-- No attribute of a change shows a value that either of the two sensitivity mirrors marks, if the
-- mirror has no number out of the range of a float64: by an entry at its name that is true or a
-- nonempty array or object, or, for a mirror that is no object, by being true, a number but zero, or a
-- nonempty text or array.
pub changed_attrs-IsMasked :
    (floats : Floats) (ch : Change) (max_attrs : ℕ)
    → All (IsMasked floats ch) (changed_attrs floats ch max_attrs).0
unfolding changed_attrs
changed_attrs-IsMasked floats ch max_attrs =
    objects-IsMasked floats ch max_attrs (as_object ch.before) (as_object ch.after)
