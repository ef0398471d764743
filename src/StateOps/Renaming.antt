-- ===== src/StateOps/Renaming.antt =====
-- stateops.go: what MoveResource makes of a state when neither address has an instance index.
use terraform_state_manager.Prelude.{
  ℕ, ◌+◌, List, [], ◌∷◌, ◌++◌, Bool, true, false, Option, none, some, ◌≡◌, ◌≢◌, refl, ap, Bytes,
  codes, arith, Map, lookup, lookup-insert, lookup-remove, All-split, All-append,
  append-cons-ne-nil, ok, err, any, set, get_elem?, length, str_eq, str_eq_iff, ◌&&◌, if◌then◌else◌,
}
use mathlib.Core.Option
use native.Mathlib.Nat.{zero-add}
use terraform_state_manager.Prelude.Int.{ℤ}
use terraform_state_manager.Json.{Json, str, GoMap, made, IsMap, Distinct}
use terraform_state_manager.StateOps.Address.{not_found, already_exists, Address, parse_address}
use terraform_state_manager.StateOps.Block.{
  decode, resource_matches, str_field, string_or_empty, set_module, rename,
}
use terraform_state_manager.StateOps.Edit.{matches, scan_move, move_block, move_resource}
use terraform_state_manager.StateOps.Saved.{IsSaved, decode-IsMap, Distinct-insert, Distinct-remove}
use terraform_state_manager.StateOps.Removal.{encode_decoded}

scan_move_exists :
    (to_text : Bytes) (from to : Address) (i : ℕ) (target : Option ℕ) (rs : List GoMap)
    → any (matches to) rs ≡ true
    → scan_move to_text from to i target rs ≡ err (already_exists to_text)
unfolding scan_move
scan_move_exists to_text from to i target [] h = cc
scan_move_exists to_text from to i target (r ∷ rs) h =
    ground (
      arith,
      scan_move_exists to_text from to (i + 1) (if matches from r then some i else target) rs,
    )

scan_move_none :
    (to_text : Bytes) (from to : Address) (i : ℕ) (target : Option ℕ) (rs : List GoMap)
    → any (matches to) rs ≡ false
    → any (matches from) rs ≡ false
    → scan_move to_text from to i target rs ≡ ok target
unfolding scan_move
scan_move_none to_text from to i target [] h g = refl
scan_move_none to_text from to i target (r ∷ rs) h g =
    ground (arith, scan_move_none to_text from to (i + 1) target rs)

scan_move_at :
    (to_text : Bytes) (from to : Address) (i : ℕ) (target : Option ℕ) (pre : List GoMap) (r : GoMap)
    (post : List GoMap)
    → any (matches to) (pre ++ r ∷ post) ≡ false
    → matches from r ≡ true
    → any (matches from) post ≡ false
    → scan_move to_text from to i target (pre ++ r ∷ post) ≡ ok (some (i + length pre))
unfolding scan_move
scan_move_at to_text from to i target [] r post h hr hp =
    ground (arith, scan_move_none to_text from to (i + 1) (some i) post)
scan_move_at to_text from to i target (q ∷ pre) r post h hr hp = ground (
  arith,
  scan_move_at to_text from to (i + 1) (if matches from q then some i else target) pre r post,
)

pub get_elem?_middle {ℓ} :
    {A : Type ℓ} (pre : List A) (x : A) (post : List A)
    → get_elem? (pre ++ x ∷ post) (length pre) ≡ some x
get_elem?_middle [] x post = refl
get_elem?_middle (y ∷ pre) x post = get_elem?_middle pre x post

pub set_middle {ℓ} :
    {A : Type ℓ} (pre : List A) (x y : A) (post : List A)
    → set (pre ++ x ∷ post) (length pre) y ≡ pre ++ y ∷ post
set_middle [] x y post = refl
set_middle (z ∷ pre) x y post = ap (λ l. z ∷ l) (set_middle pre x y post)

abbrev renamed : Address → Map Json → Map Json
renamed to m = rename to.module_path to.typ to.name m

module _ (from_text to_text : Bytes) (from to : Address) where
  move_block_lem :
      (pre : List GoMap) (m : Map Json) (post : List GoMap)
      → any (matches to) (pre ++ made m ∷ post) ≡ false
      → matches from (made m) ≡ true
      → any (matches from) post ≡ false
      → move_block from_text to_text from to (pre ++ made m ∷ post)
        ≡ ok (pre ++ made (renamed to m) ∷ post)
  unfolding move_block Option.bind
  move_block_lem pre m post h hm hp =
      rw (scan_move_at to_text from to 0 none pre (made m) post h hm hp, zero-add)
        (rw
          (get_elem?_middle pre (made m) post, set_middle pre (made m) (made (renamed to m)) post))

lookup-set_module_ne :
    (p : Bytes) (k : Bytes) (m : Map Json)
    → str_eq (codes "module") k ≡ false
    → lookup k (set_module p m) ≡ lookup k m
unfolding set_module
lookup-set_module_ne [] k m h = rw (lookup-remove (codes "module") k m) (rw h)
lookup-set_module_ne (c ∷ s) k m h = rw (lookup-insert (codes "module") k (str (c ∷ s)) m) (rw h)

module-set_module :
    (p : Bytes) (m : Map Json) → string_or_empty (lookup (codes "module") (set_module p m)) ≡ p
unfolding set_module string_or_empty str_eq
module-set_module [] m = rw (lookup-remove (codes "module") (codes "module") m)
module-set_module (c ∷ s) m = rw (lookup-insert (codes "module") (codes "module") (str (c ∷ s)) m)

module _ (module_path typ name : Bytes) (m : Map Json) where
  Distinct-rename : Distinct m → Distinct (rename module_path typ name m)
  unfolding rename
  Distinct-rename h =
      Distinct-insert (codes "name") (str name) _
        (Distinct-insert (codes "type") (str typ) _ (go h))
    where
      go : Distinct m → Distinct (set_module module_path m)
      go h = elim module_path as (λ p. Distinct (set_module p m)) [
        | [] ↦ Distinct-remove (codes "module") m h
        | c ∷ s ↦ Distinct-insert (codes "module") (str (c ∷ s)) m h
      ]

  lookup-rename :
      (k : Bytes)
      → lookup k (rename module_path typ name m) ≡ (
          if str_eq (codes "name") k
          then some (str name)
          else if str_eq (codes "type") k
          then some (str typ)
          else lookup k (set_module module_path m))
  unfolding rename
  lookup-rename k =
      rw (lookup-insert (codes "name") k (str name)) (rw (lookup-insert (codes "type") k (str typ)))

  lookup-rename_other :
      (k : Bytes)
      → k ≢ codes "module"
      → k ≢ codes "type"
      → k ≢ codes "name"
      → lookup k (rename module_path typ name m) ≡ lookup k m
  lookup-rename_other k h1 h2 h3 = ground (
    arith,
    lookup-rename k,
    lookup-set_module_ne module_path k m,
    str_eq_iff (codes "module") k,
    str_eq_iff (codes "type") k,
    str_eq_iff (codes "name") k,
  )

  module-rename : str_field (made (rename module_path typ name m)) (codes "module") ≡ module_path
  unfolding str_field str_eq
  module-rename = rw (lookup-rename (codes "module")) (module-set_module module_path m)

  typ-rename : str_field (made (rename module_path typ name m)) (codes "type") ≡ typ
  unfolding str_field str_eq
  typ-rename = rw (lookup-rename (codes "type"))

  name-rename : str_field (made (rename module_path typ name m)) (codes "name") ≡ name
  unfolding str_field str_eq
  name-rename = rw (lookup-rename (codes "name"))

  -- A renamed block matches an address exactly when the address is the new one.
  resource_matches-rename :
      (p t n : Bytes)
      → resource_matches (made (rename module_path typ name m)) p t n
        ≡ (str_eq module_path p && (str_eq typ t && str_eq name n))
  unfolding resource_matches
  resource_matches-rename p t n = rw (module-rename, typ-rename, name-rename)

-- The block under the new address, every other field as it was.
pub record IsRenamed (to : Address) (m m' : Map Json) : Type 0 where
  pub module_set : str_field (made m') (codes "module") ≡ to.module_path
  pub type_set : str_field (made m') (codes "type") ≡ to.typ
  pub name_set : str_field (made m') (codes "name") ≡ to.name
  pub kept :
      (k : Bytes)
      → k ≢ codes "module"
      → k ≢ codes "type"
      → k ≢ codes "name"
      → lookup k m' ≡ lookup k m

rename-IsRenamed : (to : Address) (m : Map Json) → IsRenamed to m (renamed to m)
rename-IsRenamed to m = record {
  module_set = module-rename to.module_path to.typ to.name m;
  type_set = typ-rename to.module_path to.typ to.name m;
  name_set = name-rename to.module_path to.typ to.name m;
  kept = lookup-rename_other to.module_path to.typ to.name m;
}

module _ (float_eq : Bytes → ℤ → Bool) (raw : Option Json) (from_text to_text : Bytes)
    (from to : Address) (parsed_from : parse_address from_text ≡ ok from)
    (parsed_to : parse_address to_text ≡ ok to) (from_whole : from.index ≡ none)
    (to_whole : to.index ≡ none) where
  -- If the state decodes, neither address has an instance index, no block matches the target and
  -- the last block that matches the source is a map, the result is the state with that block under
  -- the target's address and all its other fields as they were, every other block in its place and
  -- unchanged, under the next serial.
  pub move_resource-IsSaved :
      (state : GoMap) (pre : List GoMap) (m : Map Json) (post : List GoMap)
      → decode raw ≡ ok (state, pre ++ made m ∷ post)
      → any (matches to) (pre ++ made m ∷ post) ≡ false
      → matches from (made m) ≡ true
      → any (matches from) post ≡ false
      → (m' : Map Json) × (doc : Json) × IsRenamed to m m'
        × (move_resource float_eq raw from_text to_text ≡ ok doc)
        × IsSaved state (pre ++ made m' ∷ post) doc
  unfolding move_resource
  move_resource-IsSaved state pre m post hd ht hm hp =
      let (maps, dm, maps') = All-split IsMap pre (made m) post (decode-IsMap raw hd).1 in
      let dm' = Distinct-rename to.module_path to.typ to.name m dm in
      let kept = All-append IsMap pre (made (renamed to m) ∷ post) maps (dm', maps') in
      let ne = append-cons-ne-nil pre (made m) post in
      let (doc, e, saved) = encode_decoded raw state _ _ hd ne kept in
      let moved = move_block_lem from_text to_text from to pre m post ht hm hp in
      (
        renamed to m,
        doc,
        rename-IsRenamed to m,
        rw (hd, parsed_from, parsed_to, from_whole, to_whole) (rw (moved) e),
        saved,
      )

  -- If the state decodes, neither address has an instance index and some block matches the target,
  -- wherever it stands, the move is refused with the error that names the target.
  pub move_resource-already_exists :
      (state : GoMap) (rs : List GoMap)
      → decode raw ≡ ok (state, rs)
      → any (matches to) rs ≡ true
      → move_resource float_eq raw from_text to_text ≡ err (already_exists to_text)
  unfolding move_resource move_block
  move_resource-already_exists state rs hd ht =
      rw (hd, parsed_from, parsed_to, from_whole, to_whole)
        (rw (scan_move_exists to_text from to 0 none rs ht))

  -- If the state decodes, neither address has an instance index and no block matches either
  -- address, the move fails with the error that names the source.
  pub move_resource-not_found :
      (state : GoMap) (rs : List GoMap)
      → decode raw ≡ ok (state, rs)
      → any (matches to) rs ≡ false
      → any (matches from) rs ≡ false
      → move_resource float_eq raw from_text to_text ≡ err (not_found from_text)
  unfolding move_resource move_block Option.bind
  move_resource-not_found state rs hd ht hf =
      rw (hd, parsed_from, parsed_to, from_whole, to_whole)
        (rw (scan_move_none to_text from to 0 none rs ht hf))
