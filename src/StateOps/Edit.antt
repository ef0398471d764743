-- ===== src/StateOps/Edit.antt =====
-- stateops.go: RemoveResource, MoveResource and moveInstance.
use terraform_state_manager.Prelude.{
  ℕ, suc, ◌+◌, List, [], ◌∷◌, ◌++◌, Bool, true, false, Option, none, some, Bytes, codes,
  if◌then◌else◌, ◌==◌, ◌&&◌, not, any, set, erase_at, get_elem?, insert, Result, ok, err, ◌>>=◌,
  ◌>>◌, refuse_if, ok_or,
}
use terraform_state_manager.Prelude.Int.{ℤ}
use terraform_state_manager.Json.{Json, str, GoMap, nil_map, made, marshal_maps, num}
use terraform_state_manager.Prelude.Int.{print_int}
use terraform_state_manager.StateOps.Address.{
  Err, in_source, in_target, not_found, already_exists, need_both_indexes, Index, key, count,
  Address, parse_address,
}
use terraform_state_manager.StateOps.Block.{
  put, resource_matches, decode_instances, decode, encode, index_key_matches, Popped, pop_instance,
  clone_identity, rename,
}
use mathlib.Core.Option

abbrev pub matches : Address → GoMap → Bool
matches a r = resource_matches r a.module_path a.typ a.name

-- What the loop of RemoveResource does with the block that popInstance left.
unfoldable pub keep_popped : Popped → List GoMap × Bool → List GoMap × Bool
keep_popped p (kept, found) = elim (p.inst) [
  | none ↦ (p.block ∷ kept, found)
  | some x ↦ if p.remaining == 0 then (kept, true) else (p.block ∷ kept, true)
]

-- The loop of RemoveResource: the blocks kept, and whether a target was found.
unfoldable pub remove_loop :
    (Bytes → ℤ → Bool) → Address → Option Index → List GoMap → Result Err (List GoMap × Bool)
unfolding keep_popped pop_instance resource_matches
remove_loop float_eq a i [] = ok ([], false)
remove_loop float_eq a none (r ∷ rs) = do
  (kept, found) ← remove_loop float_eq a none rs
  ok (if matches a r then (kept, true) else (r ∷ kept, found))
remove_loop float_eq a (some i) (r ∷ rs) =
    let rest = remove_loop float_eq a (some i) rs in
    if matches a r
    then (pop_instance float_eq r i >>= λ p. rest >>= λ res. ok (keep_popped p res))
    else (rest >>= λ res. ok (r ∷ res.0, res.1))

unfoldable pub remove_resource : (Bytes → ℤ → Bool) → Option Json → Bytes → Result Err Json
unfolding decode parse_address remove_loop encode
remove_resource float_eq raw address = do
  (state, resources) ← decode raw
  a ← parse_address address
  (kept, found) ← remove_loop float_eq a a.index resources
  refuse_if (not found) (not_found address)
  encode state kept

abbrev pub in_context : (Err → Err) → Result Err Address → Result Err Address
in_context wrap (ok a) = ok a
in_context wrap (err e) = err (wrap e)

-- The loop of MoveResource: the position of the last block that matches the source, unless a block
-- matches the target.
unfoldable pub scan_move :
    Bytes → Address → Address → ℕ → Option ℕ → List GoMap → Result Err (Option ℕ)
unfolding resource_matches
scan_move to_text from to i target [] = ok target
scan_move to_text from to i target (r ∷ rs) =
    let rest = scan_move to_text from to (i + 1) (if matches from r then some i else target) rs in
    if matches to r then err (already_exists to_text) else rest

-- `if target == nil { … }`, then the assignments to its fields.
unfoldable pub rename_target : Bytes → Address → Option GoMap → Result Err GoMap
unfolding rename
rename_target from_text to none = err (not_found from_text)
rename_target from_text to (some nil_map) = err (not_found from_text)
rename_target from_text to (some (made m)) = ok (made (rename to.module_path to.typ to.name m))

unfoldable pub move_block : Bytes → Bytes → Address → Address → List GoMap → Result Err (List GoMap)
unfolding scan_move rename_target
move_block from_text to_text from to resources = do
  target ← scan_move to_text from to 0 none resources
  block ← rename_target from_text to (Option.bind target (get_elem? resources))
  ok (elim target [ none ↦ resources | some i ↦ set resources i block ])

-- The first position whose block matches.
unfoldable pub find_pos : (GoMap → Bool) → List GoMap → Option ℕ
find_pos p [] = none
find_pos p (r ∷ rs) = let rest = find_pos p rs in if p r then some 0 else Option.map suc rest

unfoldable pub block_at : List GoMap → ℕ → GoMap
block_at rs i = Option.get_or (get_elem? rs i) nil_map

unfoldable pub index_json : Index → Json
unfolding print_int
index_json (key k) = str k
index_json (count n) = num (print_int n)

-- The clash with an instance of the destination block.
unfoldable pub check_clash :
    (Bytes → ℤ → Bool) → Bytes → Option ℕ → Index → List GoMap → Result Err (Unit {0})
unfolding decode_instances block_at index_key_matches
check_clash float_eq to_text none i resources = ok tt
check_clash float_eq to_text (some d) i resources = do
  insts ← decode_instances (block_at resources d)
  refuse_if (any (index_key_matches float_eq i) insts) (already_exists to_text)

-- The popped instance, re-keyed, appended to the destination block or put in a new one.
unfoldable pub place : Address → Option ℕ → GoMap → GoMap → List GoMap → Result Err (List GoMap)
unfolding decode_instances block_at put marshal_maps clone_identity
place to (some d) src inst resources = do
  insts ← decode_instances (block_at resources d)
  block ← put (block_at resources d) (codes "instances") (marshal_maps (insts ++ inst ∷ []))
  ok (set resources d block)
place to none src inst resources = ok (
    resources
    ++ made (
        insert (codes "instances") (marshal_maps (inst ∷ []))
          (clone_identity src to.module_path to.typ to.name))
      ∷ [])

abbrev pub same_pos : Option ℕ → ℕ → Bool
same_pos none s = false
same_pos (some d) s = d == s

-- `if remaining == 0 && dstPos != srcPos { … }`
unfoldable pub drop_empty : ℕ → Option ℕ → ℕ → List GoMap → List GoMap
drop_empty remaining dst s resources =
    if (remaining == 0) && not (same_pos dst s) then erase_at resources s else resources

unfoldable pub move_instance :
    (Bytes → ℤ → Bool)
    → Bytes
    → Bytes
    → Address
    → Address
    → Index
    → Index
    → List GoMap
    → Result Err (List GoMap)
unfolding find_pos block_at check_clash pop_instance put index_json place drop_empty
    resource_matches
move_instance float_eq from_text to_text from to i j resources = do
  let dst = find_pos (matches to) resources
  s ← ok_or (not_found from_text) (find_pos (matches from) resources)
  check_clash float_eq to_text dst j resources
  popped ← pop_instance float_eq (block_at resources s) i
  inst ← ok_or (not_found from_text) popped.inst
  rekeyed ← put inst (codes "index_key") (index_json j)
  placed ← place to dst popped.block rekeyed (set resources s popped.block)
  ok (drop_empty popped.remaining dst s placed)

-- Which of the two moves the indexes of the addresses ask for.
unfoldable pub move_with :
    (Bytes → ℤ → Bool)
    → Bytes
    → Bytes
    → Address
    → Address
    → Option Index
    → Option Index
    → List GoMap
    → Result Err (List GoMap)
unfolding move_block move_instance
move_with float_eq from_text to_text from to none none resources =
    move_block from_text to_text from to resources
move_with float_eq from_text to_text from to (some i) none resources = err need_both_indexes
move_with float_eq from_text to_text from to none (some j) resources = err need_both_indexes
move_with float_eq from_text to_text from to (some i) (some j) resources =
    move_instance float_eq from_text to_text from to i j resources

unfoldable pub move_resource : (Bytes → ℤ → Bool) → Option Json → Bytes → Bytes → Result Err Json
unfolding decode parse_address move_with encode
move_resource float_eq raw from_text to_text = do
  (state, resources) ← decode raw
  from ← in_context in_source (parse_address from_text)
  to ← in_context in_target (parse_address to_text)
  moved ← move_with float_eq from_text to_text from to from.index to.index resources
  encode state moved
