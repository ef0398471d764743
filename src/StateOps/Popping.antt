-- ===== src/StateOps/Popping.antt =====
-- stateops.go: what popInstance takes out of a block and what it leaves.
use terraform_state_manager.Prelude.{
  List, [], ◌∷◌, ◌++◌, Bool, true, false, none, some, ◌≡◌, ◌≢◌, refl, Bytes, codes, arith, str_eq,
  str_eq_iff, Map, lookup, insert, lookup-insert, All, ok, any, length,
}
use terraform_state_manager.Prelude.Int.{ℤ}
use terraform_state_manager.Json.{
  Json, GoMap, made, get, marshal_maps, unmarshal-marshal_maps, Distinct, IsMap,
}
use terraform_state_manager.StateOps.Address.{Index, invalid_instances}
use terraform_state_manager.StateOps.Block.{
  maps_under, decode_instances, index_key_matches, take_first, pop_instance,
}
use terraform_state_manager.StateOps.Saved.{Distinct-insert, maps_under-IsMap}

abbrev pub instances_key : Bytes
instances_key = codes "instances"

pub take_first_split {ℓ} :
    {A : Type ℓ} (p : A → Bool) (before : List A) (x : A) (after : List A)
    → any p before ≡ false
    → p x ≡ true
    → take_first p (before ++ x ∷ after) ≡ (some x, before ++ after)
unfolding take_first
take_first_split p [] x after h hx = rw hx
take_first_split p (y ∷ ys) x after h hx = ground (arith, take_first_split p ys x after)

pub take_first-none {ℓ} :
    {A : Type ℓ} (p : A → Bool) (xs : List A) → any p xs ≡ false → take_first p xs ≡ (none, xs)
unfolding take_first
take_first-none p [] h = refl
take_first-none p (x ∷ xs) h = ground (arith, take_first-none p xs)

All-remove {ℓ κ} :
    {A : Type ℓ} (P : A → Type κ) (before : List A) (x : A) (after : List A)
    → All P (before ++ x ∷ after)
    → All P (before ++ after)
All-remove P [] x after (hx, h) = h
All-remove P (y ∷ ys) x after (hy, h) = (hy, All-remove P ys x after h)

pub decode_instances-IsMap :
    (r : GoMap) {insts : List GoMap} → decode_instances r ≡ ok insts → All IsMap insts
unfolding decode_instances
decode_instances-IsMap r h = maps_under-IsMap invalid_instances (get r instances_key) h

-- Instances that are written into a block are read back.
pub decode_instances-insert :
    (insts : List GoMap) (m : Map Json)
    → All IsMap insts
    → decode_instances (made (insert instances_key (marshal_maps insts) m)) ≡ ok insts
unfolding decode_instances str_eq
decode_instances-insert insts m h =
    rw (lookup-insert instances_key instances_key (marshal_maps insts) m, maps_under)
      (rw (unmarshal-marshal_maps insts h))

pub lookup-insert_ne :
    (k j : Bytes) (v : Json) (m : Map Json) → j ≢ k → lookup j (insert k v m) ≡ lookup j m
lookup-insert_ne k j v m h = ground (arith, lookup-insert k j v m, str_eq_iff k j)

-- The block after the instance is gone.
pub record IsPopped (m : Map Json) (insts : List GoMap) (m' : Map Json) : Type 0 where
  pub decoded : decode_instances (made m') ≡ ok insts
  pub kept : (k : Bytes) → k ≢ instances_key → lookup k m' ≡ lookup k m
  pub distinct : Distinct m'

-- popInstance takes the first instance whose key matches and leaves the others in order, every
-- other field of the block unchanged.
pub pop_instance_lem :
    (float_eq : Bytes → ℤ → Bool) (m : Map Json) (i : Index) (before : List GoMap) (x : GoMap)
    (after : List GoMap)
    → Distinct m
    → decode_instances (made m) ≡ ok (before ++ x ∷ after)
    → any (index_key_matches float_eq i) before ≡ false
    → index_key_matches float_eq i x ≡ true
    → (m' : Map Json) × (pop_instance float_eq (made m) i
        ≡ ok (record { block = made m'; inst = some x; remaining = length (before ++ after) }))
      × IsPopped m (before ++ after) m'
unfolding pop_instance
pop_instance_lem float_eq m i before x after hm hd hb hx =
    let rest = before ++ after in
    let insts = decode_instances-IsMap (made m) hd in
    (
      insert instances_key (marshal_maps rest) m,
      rw hd (rw (take_first_split (index_key_matches float_eq i) before x after hb hx)),
      record {
        decoded = decode_instances-insert rest m (All-remove IsMap before x after insts);
        kept = λ k h. lookup-insert_ne instances_key k (marshal_maps rest) m h;
        distinct = Distinct-insert instances_key (marshal_maps rest) m hm;
      },
    )

-- Without a match the block is left alone.
pub pop_instance-none :
    (float_eq : Bytes → ℤ → Bool) (r : GoMap) (i : Index) (insts : List GoMap)
    → decode_instances r ≡ ok insts
    → any (index_key_matches float_eq i) insts ≡ false
    → pop_instance float_eq r i ≡ ok (record { block = r; inst = none; remaining = length insts })
unfolding pop_instance
pop_instance-none float_eq r i insts hd h =
    rw hd (rw (take_first-none (index_key_matches float_eq i) insts h))
