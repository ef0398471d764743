-- ===== src/StateOps/Removal.antt =====
-- stateops.go: what RemoveResource leaves of a state.
use terraform_state_manager.Prelude.{
  ℕ, List, [], ◌∷◌, ◌++◌, Bool, true, false, Option, none, some, ◌≡◌, ◌≢◌, refl, Bytes, arith, Map,
  lookup, All, ok, err, any, select, not, length, if◌then◌else◌, ◌==◌, Bool-cases, inl, inr, sym,
  ok_inj, All-split, All-append, append-cons-ne-nil,
}
use mathlib.Core.List.{cons-ne-nil}
use terraform_state_manager.Prelude.Int.{ℤ}
use terraform_state_manager.Json.{Json, get, GoMap, nil_map, made, IsMap, Distinct}
use terraform_state_manager.StateOps.Address.{not_found, Index, Address, parse_address}
use terraform_state_manager.StateOps.Block.{
  decode, encode, maps_under, decode_instances, index_key_matches, Popped, pop_instance,
}
use terraform_state_manager.StateOps.Edit.{matches, remove_loop, remove_resource}
use terraform_state_manager.StateOps.Saved.{IsSaved, decode-resources, decode-IsMap, encode-IsSaved}
use terraform_state_manager.StateOps.Popping.{IsPopped, pop_instance_lem}

remove_loop_whole :
    (float_eq : Bytes → ℤ → Bool) (a : Address) (rs : List GoMap)
    → remove_loop float_eq a none rs ≡ ok (select (λ r. not (matches a r)) rs, any (matches a) rs)
unfolding remove_loop
remove_loop_whole float_eq a [] = refl
remove_loop_whole float_eq a (r ∷ rs) = ground (arith, remove_loop_whole float_eq a rs)

All-select {ℓ κ} :
    {A : Type ℓ} (P : A → Type κ) (p : A → Bool) (xs : List A) → All P xs → All P (select p xs)
All-select P p [] h = tt
All-select P p (x ∷ xs) (hx, h) = elim (Bool-cases (p x)) [
  | inl e ↦ rw e (hx, All-select P p xs h)
  | inr e ↦ rw e (All-select P p xs h)
]

-- A state that is JSON null has no resource.
pub decode_nil : (raw : Option Json) {rs : List GoMap} → decode raw ≡ ok (nil_map, rs) → [] ≡ rs
unfolding maps_under get lookup
decode_nil raw h = ok_inj (decode-resources raw h)

-- Encoding succeeds for what was decoded, when it holds a resource.
pub encode_decoded :
    (raw : Option Json) (state : GoMap) (rs rs' : List GoMap)
    → decode raw ≡ ok (state, rs)
    → rs ≢ []
    → All IsMap rs'
    → (doc : Json) × (encode state rs' ≡ ok doc) × IsSaved state rs' doc
encode_decoded raw nil_map rs rs' h ne hrs = absurd (ne (sym (decode_nil raw h)))
encode_decoded raw (made m) rs rs' h ne hrs = encode-IsSaved m rs' (decode-IsMap raw h).0 hrs

any-ne-nil {ℓ} : {A : Type ℓ} (p : A → Bool) (xs : List A) → any p xs ≡ true → xs ≢ []
any-ne-nil p [] h = cc
any-ne-nil p (x ∷ xs) h = cons-ne-nil x xs

module _ (float_eq : Bytes → ℤ → Bool) (raw : Option Json) (address : Bytes) where
  -- If the state decodes, the address has no instance index and some block matches it, the result
  -- is the state with every matching block gone and the others in order, under the next serial.
  pub remove_resource-IsSaved :
      (state : GoMap) (rs : List GoMap) (a : Address)
      → decode raw ≡ ok (state, rs)
      → parse_address address ≡ ok a
      → a.index ≡ none
      → any (matches a) rs ≡ true
      → (doc : Json) × (remove_resource float_eq raw address ≡ ok doc)
        × IsSaved state (select (λ r. not (matches a r)) rs) doc
  unfolding remove_resource
  remove_resource-IsSaved state rs a hd ha hi hm =
      let kept = All-select IsMap (λ r. not (matches a r)) rs (decode-IsMap raw hd).1 in
      let (doc, e, saved) = encode_decoded raw state rs _ hd (any-ne-nil (matches a) rs hm) kept in
      (doc, rw (hd, ha, hi) (rw (remove_loop_whole float_eq a rs, hm) e), saved)

any-select-not {ℓ} :
    {A : Type ℓ} (p : A → Bool) (xs : List A) → any p (select (λ x. not (p x)) xs) ≡ false
any-select-not p [] = refl
any-select-not p (x ∷ xs) = ground (arith, any-select-not p xs)

remove_loop_no_match :
    (float_eq : Bytes → ℤ → Bool) (a : Address) (i : Option Index) (rs : List GoMap)
    → any (matches a) rs ≡ false
    → remove_loop float_eq a i rs ≡ ok (rs, false)
unfolding remove_loop
remove_loop_no_match float_eq a i [] h = refl
remove_loop_no_match float_eq a none (r ∷ rs) h =
    ground (arith, remove_loop_no_match float_eq a none rs)
remove_loop_no_match float_eq a (some i) (r ∷ rs) h =
    ground (arith, remove_loop_no_match float_eq a (some i) rs)

-- What is left of a block whose instance was popped: nothing, if it was the last one.
abbrev pub block_left : Popped → List GoMap
block_left p = if p.remaining == 0 then [] else p.block ∷ []

remove_loop_at :
    (float_eq : Bytes → ℤ → Bool) (a : Address) (i : Index) (pre : List GoMap) (r : GoMap)
    (post : List GoMap) (p : Popped) (x : GoMap)
    → any (matches a) pre ≡ false
    → any (matches a) post ≡ false
    → matches a r ≡ true
    → pop_instance float_eq r i ≡ ok p
    → p.inst ≡ some x
    → remove_loop float_eq a (some i) (pre ++ r ∷ post) ≡ ok (pre ++ block_left p ++ post, true)
unfolding remove_loop
remove_loop_at float_eq a i [] r post p x hpre hpost hr hp hx =
    ground (arith, remove_loop_no_match float_eq a (some i) post)
remove_loop_at float_eq a i (q ∷ pre) r post p x hpre hpost hr hp hx =
    ground (arith, remove_loop_at float_eq a i pre r post p x)

All-block_left :
    (n : ℕ) (m : Map Json) → Distinct m → All IsMap (if n == 0 then [] else made m ∷ [])
All-block_left n m h = ground arith

module _ (float_eq : Bytes → ℤ → Bool) (raw : Option Json) (address : Bytes) where
  -- If the state decodes and no block matches the address, with or without an instance index, the
  -- call fails with the error that names the address.
  pub remove_resource-not_found :
      (state : GoMap) (rs : List GoMap) (a : Address)
      → decode raw ≡ ok (state, rs)
      → parse_address address ≡ ok a
      → any (matches a) rs ≡ false
      → remove_resource float_eq raw address ≡ err (not_found address)
  unfolding remove_resource
  remove_resource-not_found state rs a hd ha h =
      rw (hd, ha) (rw (remove_loop_no_match float_eq a a.index rs h))

  -- If exactly one block, which is a map with distinct keys, matches an address with an instance
  -- index, and its instances decode to a list in which the first one with that index is `x`, the
  -- result is the state with `x` gone from that block under the next serial: the block stays in its
  -- place with its other instances in order and its other fields unchanged, and is dropped when `x`
  -- was its only instance.
  pub remove_instance-IsSaved :
      (state : GoMap) (pre : List GoMap) (m : Map Json) (post : List GoMap) (a : Address)
      (i : Index) (before : List GoMap) (x : GoMap) (after : List GoMap)
      → decode raw ≡ ok (state, pre ++ made m ∷ post)
      → parse_address address ≡ ok a
      → a.index ≡ some i
      → any (matches a) pre ≡ false
      → any (matches a) post ≡ false
      → matches a (made m) ≡ true
      → decode_instances (made m) ≡ ok (before ++ x ∷ after)
      → any (index_key_matches float_eq i) before ≡ false
      → index_key_matches float_eq i x ≡ true
      → (m' : Map Json) × (doc : Json) × IsPopped m (before ++ after) m'
        × (remove_resource float_eq raw address ≡ ok doc)
        × IsSaved state
            (pre ++ (if length (before ++ after) == 0 then [] else made m' ∷ []) ++ post)
            doc
  unfolding remove_resource
  remove_instance-IsSaved state pre m post a i before x after hd ha hi hpre hpost hm hin hb hx =
      let (maps, dm, maps') = All-split IsMap pre (made m) post (decode-IsMap raw hd).1 in
      let (m', pop, popped) = pop_instance_lem float_eq m i before x after dm hin hb hx in
      let left = All-block_left (length (before ++ after)) m' popped.distinct in
      let kept = All-append IsMap _ post (All-append IsMap pre _ maps left) maps' in
      let ne = append-cons-ne-nil pre (made m) post in
      let (doc, e, saved) = encode_decoded raw state _ _ hd ne kept in
      let loop = remove_loop_at float_eq a i pre (made m) post _ x hpre hpost hm pop refl in
      (m', doc, popped, rw (hd, ha, hi) (rw loop e), saved)
