-- ===== src/StateOps/RoundTrip.antt =====
-- stateops.go: MoveResource there and back.
use terraform_state_manager.Prelude.{
  List, ◌∷◌, ◌++◌, Bool, true, false, Option, none, some, ◌≡◌, ◌≢◌, ◌∙◌, Bytes, codes, arith, Map,
  any, any-append, any_parts, ok, str_eq_iff,
}
use terraform_state_manager.Prelude.Int.{ℤ}
use terraform_state_manager.Json.{Json, GoMap, made, get}
use terraform_state_manager.StateOps.Address.{Address, parse_address}
use terraform_state_manager.StateOps.Block.{decode, resource_matches, str_field}
use terraform_state_manager.StateOps.Edit.{matches, move_resource}
use terraform_state_manager.StateOps.Saved.{resources_key, serial_key}
use terraform_state_manager.StateOps.Renaming.{IsRenamed, move_resource-IsSaved}

-- A block under one address does not match another one.
matches_other :
    (from to : Address) (m m' : Map Json)
    → IsRenamed to m m'
    → matches from (made m) ≡ true
    → matches to (made m) ≡ false
    → matches from (made m') ≡ false
unfolding resource_matches
matches_other from to m m' r hf ht = ground (
  arith,
  r.module_set,
  r.type_set,
  r.name_set,
  str_eq_iff (str_field (made m) (codes "module")) from.module_path,
  str_eq_iff (str_field (made m) (codes "type")) from.typ,
  str_eq_iff (str_field (made m) (codes "name")) from.name,
  str_eq_iff (str_field (made m) (codes "module")) to.module_path,
  str_eq_iff (str_field (made m) (codes "type")) to.typ,
  str_eq_iff (str_field (made m) (codes "name")) to.name,
  str_eq_iff (str_field (made m') (codes "module")) from.module_path,
  str_eq_iff (str_field (made m') (codes "type")) from.typ,
  str_eq_iff (str_field (made m') (codes "name")) from.name,
)

matches_new : (to : Address) (m m' : Map Json) → IsRenamed to m m' → matches to (made m') ≡ true
unfolding resource_matches
matches_new to m m' r = ground (
  arith,
  r.module_set,
  r.type_set,
  r.name_set,
  str_eq_iff (str_field (made m') (codes "module")) to.module_path,
  str_eq_iff (str_field (made m') (codes "type")) to.typ,
  str_eq_iff (str_field (made m') (codes "name")) to.name,
)

IsRenamed-trans :
    (to from : Address) (m m1 m2 : Map Json)
    → IsRenamed to m m1
    → IsRenamed from m1 m2
    → IsRenamed from m m2
IsRenamed-trans to from m m1 m2 r1 r2 = record {
  module_set = r2.module_set;
  type_set = r2.type_set;
  name_set = r2.name_set;
  kept = λ k h1 h2 h3. r2.kept k h1 h2 h3 ∙ r1.kept k h1 h2 h3;
}

-- After the move the source address is free.
source_free :
    (from to : Address) (pre : List GoMap) (m m1 : Map Json) (post : List GoMap)
    → IsRenamed to m m1
    → any (matches to) (pre ++ made m ∷ post) ≡ false
    → matches from (made m) ≡ true
    → any (matches from) pre ≡ false
    → any (matches from) post ≡ false
    → any (matches from) (pre ++ made m1 ∷ post) ≡ false
source_free from to pre m m1 post r ht hm hpre hpost =
    let (tpre, tm, tpost) = any_parts (matches to) pre (made m) post ht in
    rw (any-append (matches from) pre (made m1) post)
      (rw (hpre, matches_other from to m m1 r hm tm, hpost))

module _ (float_eq : Bytes → ℤ → Bool) (raw : Option Json) (from_text to_text : Bytes)
    (from to : Address) (parsed_from : parse_address from_text ≡ ok from)
    (parsed_to : parse_address to_text ≡ ok to) (from_whole : from.index ≡ none)
    (to_whole : to.index ≡ none) where
  -- If the state decodes, neither address has an instance index, no block matches the target and
  -- exactly one block, which is a map, matches the source, then moving it to the target and back
  -- succeeds twice. The block is again under the source's address with all its other fields as they
  -- were, every other block is in its place and unchanged, and every top-level key but the
  -- resources and the serial reads as before.
  pub move_resource_back :
      (state : GoMap) (pre : List GoMap) (m : Map Json) (post : List GoMap)
      → decode raw ≡ ok (state, pre ++ made m ∷ post)
      → any (matches to) (pre ++ made m ∷ post) ≡ false
      → any (matches from) pre ≡ false
      → matches from (made m) ≡ true
      → any (matches from) post ≡ false
      → (there back : Json) × (m' : Map Json) × (state' : GoMap) × (move_resource float_eq raw
            from_text to_text
          ≡ ok there)
        × (move_resource float_eq (some there) to_text from_text ≡ ok back)
        × (decode (some back) ≡ ok (state', pre ++ made m' ∷ post))
        × IsRenamed from m m'
        × ((k : Bytes) → k ≢ resources_key → k ≢ serial_key → get state' k ≡ get state k)
  move_resource_back state pre m post hd ht hpre hm hpost =
      let (m1, there, r1, e1, saved1) =
        move_resource-IsSaved float_eq raw from_text to_text from to parsed_from parsed_to
          from_whole to_whole state pre m post hd ht hm hpost in
      let free = source_free from to pre m m1 post r1 ht hm hpre hpost in
      let (m2, back, r2, e2, saved2) =
        move_resource-IsSaved float_eq (some there) to_text from_text to from parsed_to parsed_from
          to_whole from_whole saved1.state' pre m1 post saved1.decoded free (matches_new to m m1 r1)
          (any_parts (matches to) pre (made m) post ht).2 in
      (
        there,
        back,
        m2,
        saved2.state',
        e1,
        e2,
        saved2.decoded,
        IsRenamed-trans to from m m1 m2 r1 r2,
        λ k h g. saved2.kept k h g ∙ saved1.kept k h g,
      )
