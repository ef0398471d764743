-- ===== src/StateSource/Tests.antt =====
-- roots.go on concrete paths: the theorems at inputs that meet their hypotheses, and runs.
use terraform_state_manager.Prelude.{
  [], ◌∷◌, Bool, true, false, some, ◌≡◌, ◌≢◌, ap, arith, none, refl, Bytes, codes, ◌==◌, str_eq,
  trim_space, member, has_prefix, ok, err, All, if◌then◌else◌,
}
use mathlib.Core.Logic.{◌↔◌}
use terraform_state_manager.StateSource.Roots.{
  Paths, Permitted, outside_roots, path_within, normalize_roots, ensure_local_base_path_permitted,
}
use terraform_state_manager.StateSource.Containment.{
  IsContained, IsNotSlash, ensure_local_base_path_permitted-exact, normalize_roots-absolute,
}

abbrev starts_at_root : Bytes → Bool
starts_at_root [] = false
starts_at_root (c ∷ s) = c == b'/'

-- Paths that are clean already, and one symbolic link.
abbrev paths : Paths
paths = record {
  is_abs = starts_at_root;
  clean = λ p. p;
  eval_symlinks = λ p. if str_eq p (codes "/mnt") then some (codes "/data") else some p;
}

abbrev permitted : Permitted
permitted = record { local_roots = codes "/mnt" ∷ []; kubeconfig_roots = [] }

true_ne_false : true ≡ false → ⊥
true_ne_false h = ground (arith, h)

has_second : Bytes → Bool
has_second (c ∷ d ∷ s) = true
has_second _ = false

mnt_ne_slash : codes "/mnt" ≢ codes "/"
unfolding has_second
mnt_ne_slash h = true_ne_false (ap has_second h)

resolved_ne_slash : paths.eval_symlinks (codes "/mnt") ≢ some (codes "/")
unfolding has_second str_eq
resolved_ne_slash h = true_ne_false (ap (λ o. elim o [ none ↦ false | some p ↦ has_second p ]) h)

ensure_local_base_path_permitted-exact_example :
    (ensure_local_base_path_permitted paths permitted (codes "/data/states") ≡ ok tt)
    ↔ IsContained paths (codes "/data/states") (codes "/mnt" ∷ [])
ensure_local_base_path_permitted-exact_example =
    ensure_local_base_path_permitted-exact paths permitted (codes "/data/states")
      (unfold IsNotSlash in (mnt_ne_slash, resolved_ne_slash), tt)

inside_test : ensure_local_base_path_permitted paths permitted (codes "/data/states") ≡ ok tt
unfolding ensure_local_base_path_permitted str_eq has_prefix
inside_test = refl

sibling_test :
    ensure_local_base_path_permitted paths permitted (codes "/mnt-evil")
    ≡ err (outside_roots (codes "/mnt-evil"))
unfolding ensure_local_base_path_permitted str_eq has_prefix
sibling_test = refl

-- Nothing but the root directory itself is below the root directory.
slash_test : path_within (codes "/data") (codes "/") ≡ false
unfolding path_within
slash_test = refl

normalized :
    normalize_roots paths (codes " /mnt " ∷ codes "" ∷ codes "/mnt" ∷ []) ≡ ok (codes "/mnt" ∷ [])
unfolding normalize_roots trim_space str_eq member
normalized = refl

normalize_roots-absolute_test : All (λ r. starts_at_root r ≡ true) (codes "/mnt" ∷ [])
normalize_roots-absolute_test =
    normalize_roots-absolute paths (λ r h. h) (codes " /mnt " ∷ codes "" ∷ codes "/mnt" ∷ [])
      (codes "/mnt" ∷ []) normalized
