-- ===== src/DriftIngest/Marks.antt =====
-- plan.go: what a sensitivity mirror marks, described without isSens.
use terraform_state_manager.Prelude.{
  ℕ, ◌∷◌, true, false, some, ◌≡◌, refl, Bytes, lookup, inl, inr, ◌⊎◌,
}
use terraform_state_manager.Json.{
  Json, bool, num, str, arr, obj, Items, cons, Fields, field, entries,
}
use terraform_state_manager.DriftIngest.Attrs.{
  Floats, marks, py_truthy, decodes, mirror_marks, is_sens,
}

-- The entry of a key in a mirror: true, or an array or an object with something in it.
unfoldable pub IsMark : Json → Type 0
IsMark v =
    (v ≡ bool true)
    ⊎ ((x : Json) × (xs : Items) × (v ≡ arr (cons x xs)))
    ⊎ ((j : Bytes) × (x : Json) × (fs : Fields) × (v ≡ obj (field j x fs)))

-- A mirror that is no object and marks the whole value: true, a number but zero, or a text or an
-- array with something in it.
unfoldable pub IsFlag : Floats → Json → Type 0
IsFlag floats v =
    (v ≡ bool true)
    ⊎ ((s : Bytes) × (v ≡ num s) × (floats.is_zero s ≡ false))
    ⊎ ((c : ℕ) × (s : Bytes) × (v ≡ str (c ∷ s)))
    ⊎ ((x : Json) × (xs : Items) × (v ≡ arr (cons x xs)))

-- The mirror marks the attribute: as a whole, or by its entry at the attribute.
unfoldable pub IsMarked : Floats → Json → Bytes → Type 0
IsMarked floats mirror k =
    IsFlag floats mirror
    ⊎ ((fs : Fields) × (v : Json) × (mirror ≡ obj fs) × (lookup k (entries fs) ≡ some v) × IsMark v)

IsMark-marks : (v : Json) → IsMark v → marks (some v) ≡ true
unfolding marks IsMark
IsMark-marks v (inl e) = rw e refl
IsMark-marks v (inr (inl (x, xs, e))) = rw e refl
IsMark-marks v (inr (inr (j, x, fs, e))) = rw e refl

module _ (floats : Floats) where
  IsFlag-mirror_marks : (v : Json) (k : Bytes) → IsFlag floats v → mirror_marks floats v k ≡ true
  unfolding IsFlag mirror_marks py_truthy
  IsFlag-mirror_marks v k (inl e) = rw e refl
  IsFlag-mirror_marks v k (inr (inl (s, e, z))) = rw e (rw z refl)
  IsFlag-mirror_marks v k (inr (inr (inl (c, s, e)))) = rw e refl
  IsFlag-mirror_marks v k (inr (inr (inr (x, xs, e)))) = rw e refl

  IsMarked-mirror_marks :
      (v : Json) (k : Bytes) → IsMarked floats v k → mirror_marks floats v k ≡ true
  unfolding IsMarked
  IsMarked-mirror_marks v k (inl h) = IsFlag-mirror_marks v k h
  IsMarked-mirror_marks v k (inr (fs, x, e, there, h)) =
      unfold mirror_marks in rw e (rw there (IsMark-marks x h))

  pub IsMarked-is_sens :
      (v : Json) (k : Bytes)
      → decodes floats.in_range v ≡ true
      → IsMarked floats v k
      → is_sens floats (some v) k ≡ true
  unfolding is_sens
  IsMarked-is_sens v k fits h = rw fits (IsMarked-mirror_marks v k h)
