-- ===== src/StateSource/Containment.antt =====
-- roots.go: a permitted path lies under a root, on the boundaries of its segments, and the configured
-- roots are absolute.
use terraform_state_manager.Prelude.{
  List, [], ◌∷◌, ◌++◌, Bool, true, false, ◌≡◌, ◌≢◌, refl, sym, ◌∙◌, ap, subst, codes, Option, none,
  some, Bytes, arith, if◌then◌else◌, not, has_prefix, str_eq, str_eq→eq, str_eq_refl, trim_space,
  member, Result, ok, err, ok_inj, Bool-cases, inl, inr, All, All-append,
}
use mathlib.Core.Logic.{◌⊎◌, ◌↔◌}
use terraform_state_manager.StateSource.Roots.{
  Paths, Permitted, Err, outside_roots, relative_root, path_within, normalize_from, normalize_roots,
  real_form, root_forms, within_any, contained_in_roots, ensure_contained,
  ensure_local_base_path_permitted,
}

has_prefix_rest : (s p : Bytes) → has_prefix s p ≡ true → (rest : Bytes) × (s ≡ p ++ rest)
unfolding has_prefix
has_prefix_rest s [] h = (s, refl)
has_prefix_rest [] (c ∷ p) h = ground (arith, h)
has_prefix_rest (d ∷ s) (c ∷ p) h =
    let same : d ≡ c = ground (arith, h) in
    let tail : has_prefix s p ≡ true = ground (arith, h) in
    let (rest, e) = has_prefix_rest s p tail in (rest, rw (same, e) refl)

has_prefix-append : (p s : Bytes) → has_prefix (p ++ s) p ≡ true
unfolding has_prefix
has_prefix-append [] s = refl
has_prefix-append (c ∷ p) s = ground (arith, has_prefix-append p s)

-- The path is the root, or stands below it behind a separator.
unfoldable IsUnder : Bytes → Bytes → Type 0
IsUnder path root = (path ≡ root) ⊎ ((rest : Bytes) × (path ≡ root ++ b'/' ∷ rest))

separated : (root rest : Bytes) → (root ++ b'/' ∷ []) ++ rest ≡ root ++ b'/' ∷ rest
separated [] rest = refl
separated (c ∷ root) rest = ap (λ s. c ∷ s) (separated root rest)

path_within-IsUnder : (path root : Bytes) → path_within path root ≡ true → IsUnder path root
unfolding path_within IsUnder
path_within-IsUnder path root h = elim (Bool-cases (str_eq path root)) [
  | inl e ↦ inl (str_eq→eq path root e)
  | inr e ↦
      let below : has_prefix path (root ++ b'/' ∷ []) ≡ true = ground (arith, e, h) in
      let (rest, same) = has_prefix_rest path (root ++ b'/' ∷ []) below in
      inr (rest, same ∙ separated root rest)
]

below_prefix : (b c : Bool) → c ≡ true → (if b then true else c) ≡ true
below_prefix b c h = ground (arith, h)

IsUnder-path_within : (path root : Bytes) → IsUnder path root → path_within path root ≡ true
unfolding path_within IsUnder
IsUnder-path_within path root (inl same) = rw (same, str_eq_refl root) refl
IsUnder-path_within path root (inr (rest, same)) =
    below_prefix (str_eq path root) (has_prefix path (root ++ b'/' ∷ []))
      (rw (same, sym (separated root rest)) (has_prefix-append (root ++ b'/' ∷ []) rest))

false_ne_true : false ≡ true → ⊥
false_ne_true h = ground (arith, h)

either :
    (b c : Bool) {P Q : Type 0}
    → (b ≡ true) ↔ P
    → (c ≡ true) ↔ Q
    → ((if b then true else c) ≡ true) ↔ (P ⊎ Q)
either true c (p, _) _ = (λ _. inl (p refl), λ _. refl)
either false c (_, p') (q, q') =
    (λ h. inr (q h), λ h. elim h [ inl x ↦ absurd (false_ne_true (p' x)) | inr y ↦ q' y ])

-- Some of the forms has the path at it or under it.
unfoldable UnderSome : Bytes → List Bytes → Type 0
UnderSome path [] = ⊥
UnderSome path (form ∷ forms) = IsUnder path form ⊎ UnderSome path forms

-- The path lies at the root or beneath it; beneath the root directory lies every absolute path.
unfoldable pub IsBelow : Bytes → Bytes → Type 0
unfolding IsUnder
IsBelow path root = IsUnder path root ⊎ ((root ≡ codes "/") × (rest : Bytes) × (path ≡ b'/' ∷ rest))

unfoldable pub IsOneOf : Bytes → List Bytes → Type 0
IsOneOf root [] = ⊥
IsOneOf root (r ∷ rs) = (root ≡ r) ⊎ IsOneOf root rs

module _ (paths : Paths) where
  within_any-UnderSome :
      (path : Bytes) (forms : List Bytes)
      → (within_any paths path forms ≡ true) ↔ UnderSome path forms
  unfolding within_any UnderSome
  within_any-UnderSome path [] = (λ h. ground (arith, h), λ h. absurd h)
  within_any-UnderSome path (form ∷ forms) =
      either (path_within path form) (within_any paths path forms)
        (path_within-IsUnder path form, IsUnder-path_within path form)
        (within_any-UnderSome path forms)

  unfoldable WithinSome : Bytes → List Bytes → Type 0
  WithinSome path [] = ⊥
  WithinSome path (root ∷ roots) = UnderSome path (root_forms paths root) ⊎ WithinSome path roots

  contained_in_roots-WithinSome :
      (path : Bytes) (roots : List Bytes)
      → (contained_in_roots paths path roots ≡ true) ↔ WithinSome path roots
  unfolding contained_in_roots WithinSome
  contained_in_roots-WithinSome path [] = (λ h. ground (arith, h), λ h. absurd h)
  contained_in_roots-WithinSome path (root ∷ roots) =
      either (within_any paths path (root_forms paths root)) (contained_in_roots paths path roots)
        (within_any-UnderSome path (root_forms paths root))
        (contained_in_roots-WithinSome path roots)

  abbrev decided : Bytes → Bool → Result Err (Unit {0})
  decided path b = if not b then err (outside_roots path) else ok tt

  decided_lem : (path : Bytes) (b : Bool) → (decided path b ≡ ok tt) ↔ (b ≡ true)
  decided_lem path true = (λ _. refl, λ _. refl)
  decided_lem path false = (λ h. ground (arith, h), λ h. ground (arith, h))

  ensure_contained-exact :
      (path : Bytes) (roots : List Bytes)
      → (ensure_contained paths path roots ≡ ok tt) ↔ WithinSome path roots
  unfolding ensure_contained WithinSome
  ensure_contained-exact path [] = (λ h. ground (arith, h), λ h. absurd h)
  ensure_contained-exact path (root ∷ roots) =
      let (f, g) = decided_lem path (contained_in_roots paths path (root ∷ roots)) in
      let (f', g') = contained_in_roots-WithinSome path (root ∷ roots) in
      (λ h. f' (f h), λ h. g (g' h))

  -- A way to write a root: as it is configured, or with its symbolic links resolved.
  unfoldable pub IsForm : Bytes → Bytes → Type 0
  IsForm root form = (form ≡ root) ⊎ (paths.eval_symlinks root ≡ some form)

  -- The path is the one or below the other form of one of the roots.
  unfoldable pub IsContained : Bytes → List Bytes → Type 0
  unfolding IsForm
  IsContained path roots =
      (root : Bytes) × (form : Bytes) × IsOneOf root roots × IsForm root form × IsBelow path form

  -- Neither form of a root is the root directory.
  unfoldable pub IsNotSlash : Bytes → Type 0
  IsNotSlash root = (root ≢ codes "/") × (paths.eval_symlinks root ≢ some (codes "/"))

  both-IsUnder :
      (path root real : Bytes) (same : Bool)
      → paths.eval_symlinks root ≡ some real
      → UnderSome path (if same then root ∷ [] else root ∷ real ∷ [])
      → (form : Bytes) × IsForm root form × IsUnder path form
  unfolding UnderSome IsForm
  both-IsUnder path root real true e (inl under) = (root, inl refl, under)
  both-IsUnder path root real true e (inr h) = absurd h
  both-IsUnder path root real false e (inl under) = (root, inl refl, under)
  both-IsUnder path root real false e (inr (inl under)) = (real, inr e, under)
  both-IsUnder path root real false e (inr (inr h)) = absurd h

  forms-IsUnder :
      (path root : Bytes) (real : Option Bytes)
      → paths.eval_symlinks root ≡ real
      → UnderSome path (real_form paths root real)
      → (form : Bytes) × IsForm root form × IsUnder path form
  unfolding UnderSome IsForm
  forms-IsUnder path root none e (inl under) = (root, inl refl, under)
  forms-IsUnder path root none e (inr h) = absurd h
  forms-IsUnder path root (some real) e h = both-IsUnder path root real (str_eq real root) e h

  -- The configured form is always the first one.
  first-UnderSome :
      (path root : Bytes) (real : Option Bytes)
      → IsUnder path root
      → UnderSome path (real_form paths root real)
  unfolding UnderSome
  first-UnderSome path root none h = inl h
  first-UnderSome path root (some real) h = elim (Bool-cases (str_eq real root)) [
    | inl e ↦ rw e (inl h)
    | inr e ↦ rw e (inl h)
  ]

  form-UnderSome :
      (path root form : Bytes)
      → IsForm root form
      → IsUnder path form
      → UnderSome path (root_forms paths root)
  unfolding UnderSome IsForm root_forms
  form-UnderSome path root form (inl e) h =
      first-UnderSome path root (paths.eval_symlinks root) (subst (IsUnder path) e h)
  form-UnderSome path root form (inr e) h = elim (Bool-cases (str_eq form root)) [
    | inl same ↦
        first-UnderSome path root (paths.eval_symlinks root)
          (subst (IsUnder path) (str_eq→eq form root same) h)
    | inr other ↦ rw e (rw other (inr (inl h)))
  ]

  WithinSome-IsContained :
      (path : Bytes) (roots : List Bytes) → WithinSome path roots → IsContained path roots
  unfolding WithinSome IsContained IsOneOf IsBelow root_forms
  WithinSome-IsContained path [] h = absurd h
  WithinSome-IsContained path (root ∷ roots) (inl h) =
      let (form, is_form, under) = forms-IsUnder path root (paths.eval_symlinks root) refl h in
      (root, form, inl refl, is_form, inl under)
  WithinSome-IsContained path (root ∷ roots) (inr h) =
      let (root2, form, there, is_form, below) = WithinSome-IsContained path roots h in
      (root2, form, inr there, is_form, below)

  -- Below a form that is not the root directory is under it.
  below-IsUnder :
      (path root form : Bytes)
      → IsNotSlash root
      → IsForm root form
      → IsBelow path form
      → IsUnder path form
  unfolding IsNotSlash IsForm IsBelow
  below-IsUnder path root form (plain, resolved) is_form (inl under) = under
  below-IsUnder path root form (plain, resolved) (inl e) (inr (slash, rest, _)) =
      absurd (plain (sym e ∙ slash))
  below-IsUnder path root form (plain, resolved) (inr e) (inr (slash, rest, _)) =
      absurd (resolved (e ∙ ap (λ f. some f) slash))

  IsContained-WithinSome :
      (path root form : Bytes) (roots : List Bytes)
      → All IsNotSlash roots
      → IsOneOf root roots
      → IsForm root form
      → IsBelow path form
      → WithinSome path roots
  unfolding WithinSome IsOneOf
  IsContained-WithinSome path root form [] hs there is_form below = absurd there
  IsContained-WithinSome path root form (r ∷ rs) (h, hs) (inl e) is_form below =
      let is_form' : IsForm r form = subst (λ x. IsForm x form) e is_form in
      inl (form-UnderSome path r form is_form' (below-IsUnder path r form h is_form' below))
  IsContained-WithinSome path root form (r ∷ rs) (h, hs) (inr there) is_form below =
      inr (IsContained-WithinSome path root form rs hs there is_form below)

  -- If no permitted local root is the root directory, as it is written or with its symbolic links
  -- resolved, a source may name a local path exactly when it is one of the roots or lies beneath one,
  -- the root taken as written or with its symbolic links resolved. Without roots no path is permitted.
  pub ensure_local_base_path_permitted-exact :
      (permitted : Permitted) (path : Bytes)
      → All IsNotSlash permitted.local_roots
      → (ensure_local_base_path_permitted paths permitted path ≡ ok tt)
        ↔ IsContained path permitted.local_roots
  unfolding ensure_local_base_path_permitted IsContained
  ensure_local_base_path_permitted-exact permitted path h =
      let (f, g) = ensure_contained-exact path permitted.local_roots in
      (
        λ e. WithinSome-IsContained path permitted.local_roots (f e),
        λ (root, form, there, is_form, below).
            g (IsContained-WithinSome path root form permitted.local_roots h there is_form below),
      )

  -- Every root is absolute.
  abbrev AllAbs : List Bytes → Type 0
  AllAbs roots = All (λ r. paths.is_abs r ≡ true) roots

  abbrev branches :
      Bool
      → Bool
      → Bool
      → Err
      → Result Err (List Bytes)
      → Result Err (List Bytes)
      → Result Err (List Bytes)
  branches blank abs dup e skip added =
      if blank then skip else if not abs then err e else if dup then skip else added

  -- A round that does not fail skips the entry, or adds it when it is absolute.
  branch-eq-ok :
      (blank abs dup : Bool) (e : Err) (skip added : Result Err (List Bytes)) (roots : List Bytes)
      → branches blank abs dup e skip added ≡ ok roots
      → (skip ≡ ok roots) ⊎ ((abs ≡ true) × (added ≡ ok roots))
  branch-eq-ok true abs dup e skip added roots h = inl h
  branch-eq-ok false true true e skip added roots h = inl h
  branch-eq-ok false true false e skip added roots h = inr (refl, h)
  branch-eq-ok false false dup e skip added roots h = ground (arith, h)

  normalize_from-AllAbs :
      ((r : Bytes) → paths.is_abs r ≡ true → paths.is_abs (paths.clean r) ≡ true)
      → (rs out roots : List Bytes) → AllAbs out
      → normalize_from paths rs out ≡ ok roots
      → AllAbs roots
  unfolding normalize_from
  normalize_from-AllAbs clean_abs [] out roots h e = rw (sym (ok_inj e)) h
  normalize_from-AllAbs clean_abs (r ∷ rs) out roots h e =
      let root = trim_space r in
      elim (branch-eq-ok (str_eq root []) (paths.is_abs root) (member (paths.clean root) out)
        (relative_root root) (normalize_from paths rs out)
        (normalize_from paths rs (out ++ paths.clean root ∷ [])) roots e) [
          | inl skipped ↦ normalize_from-AllAbs clean_abs rs out roots h skipped
          | inr (abs, added) ↦
              normalize_from-AllAbs clean_abs rs (out ++ paths.clean root ∷ []) roots
                (All-append (λ r. paths.is_abs r ≡ true) out (paths.clean root ∷ []) h
                  (clean_abs root abs, tt))
                added
        ]

  -- If cleaning an absolute path gives an absolute path, every root that the configuration is
  -- normalized to is absolute.
  pub normalize_roots-absolute :
      ((r : Bytes) → paths.is_abs r ≡ true → paths.is_abs (paths.clean r) ≡ true)
      → (rs roots : List Bytes) → normalize_roots paths rs ≡ ok roots
      → All (λ r. paths.is_abs r ≡ true) roots
  unfolding normalize_roots
  normalize_roots-absolute clean_abs rs roots e = normalize_from-AllAbs clean_abs rs [] roots tt e
