-- ===== src/StateOps/Conservation.antt =====
-- stateops.go: a move of one instance neither loses nor duplicates an instance.
use terraform_state_manager.Prelude.{
  ℕ, zero, suc, ◌+◌, ◌<◌, List, [], ◌∷◌, ◌++◌, Bool, false, Option, none, some, ◌≡◌, ◌≢◌, refl, ap,
  sym, ◌∙◌, Bytes, codes, arith, Map, insert, All, All-append, Result, ok, err, set, erase_at,
  length, length-append, Option-cases, inl, inr, >>=-eq-ok, ok_or, ok_or-eq-ok, ok_inj, subst,
  some_inj, Bool-cases,
}
use terraform_state_manager.Prelude.Int.{ℤ}
use terraform_state_manager.Json.{Json, GoMap, nil_map, made, marshal_maps, IsMap}
use terraform_state_manager.StateOps.Address.{Err, not_found, Index, Address}
use terraform_state_manager.StateOps.Block.{
  put, decode_instances, index_key_matches, take_first, Popped, write_back, pop_instance,
  clone_identity,
}
use terraform_state_manager.StateOps.Edit.{
  matches, find_pos, block_at, index_json, check_clash, place, same_pos, drop_empty, move_instance,
}
use terraform_state_manager.StateOps.Saved.{Distinct-insert}
use terraform_state_manager.StateOps.Popping.{
  instances_key, decode_instances-IsMap, decode_instances-insert,
}

abbrev pub length_or_zero : Result Err (List GoMap) → ℕ
length_or_zero (ok insts) = length insts
length_or_zero (err e) = 0

-- The instances of a block; a list that does not decode counts for nothing.
pub instance_count : GoMap → ℕ
instance_count r = length_or_zero (decode_instances r)

pub total : List GoMap → ℕ
total [] = 0
total (r ∷ rs) = instance_count r + total rs

find_pos-lt : (p : GoMap → Bool) (rs : List GoMap) {i : ℕ} → find_pos p rs ≡ some i → i < length rs
unfolding find_pos
find_pos-lt p [] h = cc
find_pos-lt p (r ∷ rs) {i} h = elim (Bool-cases (p r)) [
  | inl e ↦ ground (arith, e)
  | inr e ↦ elim (Option-cases (find_pos p rs)) [
    | inl f ↦ cc (rw (e, f) at h)
    | inr (j, f) ↦ ground (arith, find_pos-lt p rs {i = j} f)
  ]
]

total-set :
    (rs : List GoMap) (i : ℕ) (b : GoMap)
    → i < length rs
    → total (set rs i b) + instance_count (block_at rs i) ≡ total rs + instance_count b
unfolding total block_at
total-set [] i b h = elim h [ ]
total-set (r ∷ rs) zero b h = omega arith
total-set (r ∷ rs) (suc i) b h = omega (arith, total-set rs i b)

total-erase_at :
    (rs : List GoMap) (i : ℕ)
    → i < length rs
    → total (erase_at rs i) + instance_count (block_at rs i) ≡ total rs
unfolding total block_at
total-erase_at [] i h = elim h [ ]
total-erase_at (r ∷ rs) zero h = omega arith
total-erase_at (r ∷ rs) (suc i) h = omega (arith, total-erase_at rs i)

total-append : (xs ys : List GoMap) → total (xs ++ ys) ≡ total xs + total ys
unfolding total
total-append [] ys = omega arith
total-append (x ∷ xs) ys = omega (arith, total-append xs ys)

block_at-set_self :
    (rs : List GoMap) (i : ℕ) (b : GoMap) → i < length rs → block_at (set rs i b) i ≡ b
unfolding block_at
block_at-set_self [] i b h = elim h [ ]
block_at-set_self (r ∷ rs) zero b h = refl
block_at-set_self (r ∷ rs) (suc i) b h = block_at-set_self rs i b (omega arith)

block_at-set_ne :
    (rs : List GoMap) (i j : ℕ) (b : GoMap) → i ≢ j → block_at (set rs i b) j ≡ block_at rs j
unfolding block_at
block_at-set_ne [] i j b h = refl
block_at-set_ne (r ∷ rs) zero zero b h = absurd (h refl)
block_at-set_ne (r ∷ rs) zero (suc j) b h = refl
block_at-set_ne (r ∷ rs) (suc i) zero b h = refl
block_at-set_ne (r ∷ rs) (suc i) (suc j) b h = block_at-set_ne rs i j b (omega arith)

block_at-append :
    (rs ts : List GoMap) (i : ℕ) → i < length rs → block_at (rs ++ ts) i ≡ block_at rs i
unfolding block_at
block_at-append [] ts i h = elim h [ ]
block_at-append (r ∷ rs) ts zero h = refl
block_at-append (r ∷ rs) ts (suc i) h = block_at-append rs ts i (omega arith)

length-set : (rs : List GoMap) (i : ℕ) (b : GoMap) → length (set rs i b) ≡ length rs
length-set [] i b = refl
length-set (r ∷ rs) zero b = refl
length-set (r ∷ rs) (suc i) b = omega (arith, length-set rs i b)

-- Taking the first match removes one element.
take_first-some {ℓ κ} :
    {A : Type ℓ} (P : A → Type κ) (p : A → Bool) (xs : List A) {x : A}
    → (take_first p xs).0 ≡ some x
    → All P xs
    → (length xs ≡ suc (length (take_first p xs).1)) × P x
unfolding take_first
take_first-some P p [] h a = cc
take_first-some P p (y ∷ ys) {x} h (ay, a) = elim (Bool-cases (p y)) [
  | inl e ↦ rw e (refl, subst P (some_inj (rw e at h)) ay)
  | inr e ↦ let (n, px) = take_first-some P p ys {x = x} (rw e at h) a in rw e (ap suc n, px)
]

All-take_first {ℓ κ} :
    {A : Type ℓ} (P : A → Type κ) (p : A → Bool) (xs : List A)
    → All P xs
    → All P (take_first p xs).1
unfolding take_first
All-take_first P p [] a = tt
All-take_first P p (y ∷ ys) (ay, a) = elim (Bool-cases (p y)) [
  | inl e ↦ rw e a
  | inr e ↦ rw e (ay, All-take_first P p ys a)
]

instance_count-insert :
    (insts : List GoMap) (m : Map Json)
    → All IsMap insts
    → instance_count (made (insert instances_key (marshal_maps insts) m)) ≡ length insts
unfolding instance_count
instance_count-insert insts m h = rw (decode_instances-insert insts m h)

write_back_inv :
    (r : GoMap) (found : Option GoMap) (kept : List GoMap) {p : Popped} {x : GoMap}
    → write_back r (found, kept) ≡ ok p
    → p.inst ≡ some x
    → All IsMap kept
    → (found ≡ some x) × (p.remaining ≡ length kept) × (instance_count p.block ≡ length kept)
unfolding write_back
write_back_inv r none kept h hx a = ground arith
write_back_inv nil_map (some y) kept h hx a = cc
write_back_inv (made m) (some y) kept h hx a = ground (arith, instance_count-insert kept m a)

-- The pop of an instance lowers the count of the block by one.
pop_instance-count :
    (float_eq : Bytes → ℤ → Bool) (r : GoMap) (i : Index) {p : Popped} {x : GoMap}
    → pop_instance float_eq r i ≡ ok p
    → p.inst ≡ some x
    → (instance_count r ≡ suc p.remaining) × (instance_count p.block ≡ p.remaining) × IsMap x
unfolding pop_instance
pop_instance-count float_eq r i {p} {x} h hx =
    let (insts, hd, h') = >>=-eq-ok (decode_instances r) _ h in
    let test = index_key_matches float_eq i in
    let maps = decode_instances-IsMap r hd in
    let all_kept = All-take_first IsMap test insts maps in
    let (found, n, c) =
      write_back_inv r (take_first test insts).0 (take_first test insts).1 {p = p} {x = x} h' hx
        all_kept in
    let (fewer, mx) = take_first-some IsMap test insts {x = x} found maps in
    (unfold instance_count in rw hd (fewer ∙ ap suc (sym n)), c ∙ sym n, mx)

instance_count_lem :
    (r : GoMap) (insts : List GoMap)
    → decode_instances r ≡ ok insts
    → instance_count r ≡ length insts
unfolding instance_count
instance_count_lem r insts h = rw h

total-single : (b : GoMap) → total (b ∷ []) ≡ instance_count b
unfolding total
total-single b = omega arith

put-IsMap : (m : GoMap) (k : Bytes) (v : Json) {m' : GoMap} → put m k v ≡ ok m' → IsMap m → IsMap m'
unfolding put
put-IsMap nil_map k v h a = cc
put-IsMap (made m) k v h a = subst IsMap (ok_inj h) (Distinct-insert k v m a)

put_instances-count :
    (r : GoMap) (insts : List GoMap) {r' : GoMap}
    → put r instances_key (marshal_maps insts) ≡ ok r'
    → All IsMap insts
    → instance_count r' ≡ length insts
unfolding put
put_instances-count nil_map insts h a = cc
put_instances-count (made m) insts h a =
    subst (λ r. instance_count r ≡ length insts) (ok_inj h) (instance_count-insert insts m a)

-- Where the destination is a position, the block there must be in range.
abbrev IsInRange : Option ℕ → List GoMap → Type 0
IsInRange none rs = Unit
IsInRange (some d) rs = d < length rs

place-total :
    (to : Address) (dst : Option ℕ) (src inst : GoMap) (rs : List GoMap) {rs' : List GoMap}
    → place to dst src inst rs ≡ ok rs'
    → IsInRange dst rs
    → IsMap inst
    → total rs' ≡ total rs + 1
unfolding place
place-total to (some d) src inst rs {rs'} h hd a =
    let (insts, e, h') = >>=-eq-ok (decode_instances (block_at rs d)) _ h in
    let (b, f, h'') = >>=-eq-ok (put (block_at rs d) instances_key _) _ h' in
    let maps = decode_instances-IsMap (block_at rs d) e in
    let count = put_instances-count _ _ f (All-append IsMap insts (inst ∷ []) maps (a, tt)) in
    subst (λ l. total l ≡ total rs + 1) (ok_inj h'')
      (omega (
        arith,
        total-set rs d b hd,
        count,
        length-append insts (inst ∷ []),
        instance_count_lem (block_at rs d) insts e,
      ))
place-total to none src inst rs {rs'} h hd a =
    let m = clone_identity src to.module_path to.typ to.name in
    let b = made (insert instances_key (marshal_maps (inst ∷ [])) m) in
    subst (λ l. total l ≡ total rs + 1) (ok_inj h)
      (omega (
        arith,
        total-append rs (b ∷ []),
        total-single b,
        instance_count-insert (inst ∷ []) m (a, tt),
      ))

IsInRange-find_pos :
    (p : GoMap → Bool) (rs ts : List GoMap) → length ts ≡ length rs → IsInRange (find_pos p rs) ts
IsInRange-find_pos p rs ts h = elim (Option-cases (find_pos p rs)) [
  | inl e ↦ rw e tt
  | inr (d, e) ↦ rw e (omega (arith, find_pos-lt p rs {i = d} e))
]

-- Where the block emptied by the move stands after the instance is placed.
block_at-place :
    (to : Address) (dst : Option ℕ) (src inst : GoMap) (rs : List GoMap) (s : ℕ) {rs' : List GoMap}
    → place to dst src inst rs ≡ ok rs'
    → s < length rs
    → same_pos dst s ≡ false
    → (block_at rs' s ≡ block_at rs s) × (s < length rs')
unfolding place
block_at-place to (some d) src inst rs s {rs'} h hs ne =
    let (insts, e, h') = >>=-eq-ok (decode_instances (block_at rs d)) _ h in
    let (b, f, h'') = >>=-eq-ok (put (block_at rs d) instances_key _) _ h' in
    subst (λ l. (block_at l s ≡ block_at rs s) × (s < length l)) (ok_inj h'')
      (block_at-set_ne rs d s b (ground (arith, ne)), omega (arith, length-set rs d b))
block_at-place to none src inst rs s {rs'} h hs ne =
    subst (λ l. (block_at l s ≡ block_at rs s) × (s < length l)) (ok_inj h)
      (block_at-append rs _ s hs, omega (arith, length-append rs (_ ∷ [])))

drop_empty-total :
    (remaining : ℕ) (dst : Option ℕ) (s : ℕ) (rs : List GoMap)
    → (same_pos dst s ≡ false → (instance_count (block_at rs s) ≡ remaining) × (s < length rs))
    → total (drop_empty remaining dst s rs) ≡ total rs
unfolding drop_empty
drop_empty-total remaining dst s rs h = elim (Bool-cases (same_pos dst s)) [
  | inl e ↦ ground (arith, e)
  | inr e ↦ ground (arith, e, h e, total-erase_at rs s (h e).1)
]

-- The count after the pop, the placement and the drop.
moved_total :
    (remaining : ℕ) (dst : Option ℕ) (s : ℕ) (block : GoMap) (rs placed : List GoMap)
    → s < length rs
    → instance_count (block_at rs s) ≡ suc remaining
    → instance_count block ≡ remaining
    → total placed ≡ total (set rs s block) + 1
    → (same_pos dst s ≡ false
        → (block_at placed s ≡ block_at (set rs s block) s) × (s < length placed))
    → total (drop_empty remaining dst s placed) ≡ total rs
moved_total remaining dst s block rs placed hs before after grown at =
    omega (arith, total-set rs s block hs, drop_empty-total remaining dst s placed emptied)
  where
    emptied :
        same_pos dst s ≡ false
        → (instance_count (block_at placed s) ≡ remaining) × (s < length placed)
    emptied ne = (rw ((at ne).0, block_at-set_self rs s block hs) after, (at ne).1)

-- The same for what the parts of moveInstance returned.
moved_placed :
    (to : Address) (p : (GoMap → Bool)) (s : ℕ) (popped : Popped) (y : GoMap) (rs : List GoMap)
    {placed : List GoMap}
    → s < length rs
    → instance_count (block_at rs s) ≡ suc popped.remaining
    → instance_count popped.block ≡ popped.remaining
    → IsMap y
    → place to (find_pos p rs) popped.block y (set rs s popped.block) ≡ ok placed
    → total (drop_empty popped.remaining (find_pos p rs) s placed) ≡ total rs
moved_placed to p s popped y rs {placed} hs before after my el =
    let here = set rs s popped.block in
    let size = length-set rs s popped.block in
    let range = IsInRange-find_pos p rs here size in
    moved_total popped.remaining (find_pos p rs) s popped.block rs placed hs before after
      (place-total to (find_pos p rs) popped.block y here el range my)
      (λ ne. block_at-place to (find_pos p rs) popped.block y here s el (omega arith) ne)

-- A move of one instance that succeeds leaves the total number of instances in the state as it was,
-- whether the instance goes to another block, to a new one, or is re-keyed in its own, and whether
-- or not its old block is dropped.
pub move_instance-total :
    (float_eq : Bytes → ℤ → Bool) (from_text to_text : Bytes) (from to : Address) (i j : Index)
    (rs : List GoMap) {rs' : List GoMap}
    → move_instance float_eq from_text to_text from to i j rs ≡ ok rs'
    → total rs' ≡ total rs
unfolding move_instance
move_instance-total float_eq from_text to_text from to i j rs {rs'} h =
    let dst = find_pos (matches to) rs in
    let (s, es, h1) = >>=-eq-ok (ok_or (not_found from_text) (find_pos (matches from) rs)) _ h in
    let (u, ec, h2) = >>=-eq-ok (check_clash float_eq to_text dst j rs) _ h1 in
    let (p, ep, h3) = >>=-eq-ok (pop_instance float_eq (block_at rs s) i) _ h2 in
    let (x, ex, h4) = >>=-eq-ok (ok_or (not_found from_text) p.inst) _ h3 in
    let (y, ey, h5) = >>=-eq-ok (put x (codes "index_key") (index_json j)) _ h4 in
    let (placed, el, h6) = >>=-eq-ok (place to dst p.block y (set rs s p.block)) _ h5 in
    let hs = find_pos-lt (matches from) rs {i = s} (ok_or-eq-ok _ _ es) in
    let (c, c', mx) =
      pop_instance-count float_eq (block_at rs s) i {p = p} {x = x} ep (ok_or-eq-ok _ _ ex) in
    let my = put-IsMap x (codes "index_key") (index_json j) ey mx in
    subst (λ l. total l ≡ total rs) (ok_inj h6)
      (moved_placed to (matches to) s p y rs hs c c' my el)
