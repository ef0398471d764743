-- ===== src/StateSource/Roots.antt =====
-- roots.go: the permitted roots and the checks against them. Of path/filepath, IsAbs, Clean and
-- EvalSymlinks are parameters, the last with `none` for an error.
use terraform_state_manager.Prelude.{
  List, [], ◌∷◌, ◌++◌, Bool, true, false, Option, none, some, Bytes, if◌then◌else◌, not, has_prefix,
  str_eq, trim_space, member, Result, ok, err,
}

pub data Err : Type 0 where
  relative_root : Bytes → Err
  no_roots : Err
  outside_roots : Bytes → Err

-- filepath.IsAbs, filepath.Clean and filepath.EvalSymlinks.
pub record Paths : Type 0 where
  pub is_abs : Bytes → Bool
  pub clean : Bytes → Bytes
  pub eval_symlinks : Bytes → Option Bytes

-- The two process globals.
pub record Permitted : Type 0 where
  pub local_roots : List Bytes
  pub kubeconfig_roots : List Bytes

-- pathWithin
unfoldable pub path_within : Bytes → Bytes → Bool
unfolding str_eq has_prefix
path_within path root = if str_eq path root then true else has_prefix path (root ++ b'/' ∷ [])

module _ (paths : Paths) where
  -- The loop of normalizeRoots; the keys of `seen` are the roots in `out`.
  unfoldable pub normalize_from : List Bytes → List Bytes → Result Err (List Bytes)
  unfolding trim_space member
  normalize_from [] out = ok out
  normalize_from (r ∷ rs) out =
      let root = trim_space r in
      let skip = normalize_from rs out in
      let added = normalize_from rs (out ++ paths.clean root ∷ []) in
      if str_eq root []
      then skip
      else if not (paths.is_abs root)
      then err (relative_root root)
      else if member (paths.clean root) out
      then skip
      else added

  unfoldable pub normalize_roots : List Bytes → Result Err (List Bytes)
  unfolding normalize_from
  normalize_roots roots = normalize_from roots []

  abbrev pub real_form : Bytes → Option Bytes → List Bytes
  real_form root none = root ∷ []
  real_form root (some real) = if str_eq real root then root ∷ [] else root ∷ real ∷ []

  unfoldable pub root_forms : Bytes → List Bytes
  unfolding str_eq
  root_forms root = real_form root (paths.eval_symlinks root)

  unfoldable pub within_any : Bytes → List Bytes → Bool
  unfolding path_within
  within_any path [] = false
  within_any path (form ∷ forms) =
      let rest = within_any path forms in if path_within path form then true else rest

  unfoldable pub contained_in_roots : Bytes → List Bytes → Bool
  unfolding within_any root_forms
  contained_in_roots path [] = false
  contained_in_roots path (root ∷ roots) =
      let rest = contained_in_roots path roots in
      if within_any path (root_forms root) then true else rest

  unfoldable pub ensure_contained : Bytes → List Bytes → Result Err (Unit {0})
  unfolding contained_in_roots
  ensure_contained path [] = err no_roots
  ensure_contained path (root ∷ roots) =
      if not (contained_in_roots path (root ∷ roots)) then err (outside_roots path) else ok tt

  -- ensureLocalBasePathPermitted
  unfoldable pub ensure_local_base_path_permitted : Permitted → Bytes → Result Err (Unit {0})
  unfolding ensure_contained
  ensure_local_base_path_permitted permitted path = ensure_contained path permitted.local_roots

  -- ensureKubeconfigPermitted
  unfoldable pub ensure_kubeconfig_permitted : Permitted → Bytes → Result Err (Unit {0})
  unfolding ensure_contained
  ensure_kubeconfig_permitted permitted path = ensure_contained path permitted.kubeconfig_roots

  abbrev set_local : Permitted → Result Err (List Bytes) → Result Err Permitted
  set_local permitted (err e) = err e
  set_local permitted (ok roots) = ok (record permitted { local_roots = roots })

  abbrev set_kubeconfig : Permitted → Result Err (List Bytes) → Result Err Permitted
  set_kubeconfig permitted (err e) = err e
  set_kubeconfig permitted (ok roots) = ok (record permitted { kubeconfig_roots = roots })

  -- ConfigureLocalRoots and ConfigureKubeconfigRoots; an error leaves the globals as they are.
  unfoldable pub configure_local_roots : List Bytes → Permitted → Result Err Permitted
  unfolding normalize_roots
  configure_local_roots roots permitted = set_local permitted (normalize_roots roots)

  unfoldable pub configure_kubeconfig_roots : List Bytes → Permitted → Result Err Permitted
  unfolding normalize_roots
  configure_kubeconfig_roots roots permitted = set_kubeconfig permitted (normalize_roots roots)
