-- ===== src/StateOps/Saved.antt =====
-- What a state document written by encode holds when it is read again.
use terraform_state_manager.Prelude.{
  List, [], ◌∷◌, Option, none, some, ◌≡◌, ◌≢◌, refl, Bytes, codes, arith, str_eq, str_eq_iff, Map,
  lookup, insert, remove, lookup-insert, lookup-remove, All, ok, >>=-eq-ok, ap, inl, inr,
  Option-cases, subst, none_ne_some, ok_or-eq-ok, some_inj, ok_inj, ok_or,
}
use terraform_state_manager.Prelude.Int.{succ_int64}
use terraform_state_manager.Json.{
  Json, null, obj, GoMap, made, get, unmarshal_map, unmarshal_maps, marshal_maps, marshal_int,
  Distinct, IsMap, entries-Distinct, entries-fields_of, Items, nil, cons, each_map, arr,
  unmarshal-marshal_maps, fields_of,
}
use terraform_state_manager.StateOps.Address.{Err, invalid_state, invalid_resources}
use terraform_state_manager.StateOps.Block.{decode, encode, serial_of, maps_under}
use mathlib.Core.Option

abbrev pub resources_key : Bytes
resources_key = codes "resources"

abbrev pub serial_key : Bytes
serial_key = codes "serial"

-- The document reads as these resource blocks under the next serial, with every other top-level
-- key as it was.
pub record IsSaved (state : GoMap) (resources : List GoMap) (doc : Json) : Type 0 where
  pub state' : GoMap
  pub decoded : decode (some doc) ≡ ok (state', resources)
  pub serial : get state' serial_key ≡ some (marshal_int (succ_int64 (serial_of state)))
  pub kept : (k : Bytes) → k ≢ resources_key → k ≢ serial_key → get state' k ≡ get state k

pub Distinct-insert : (k : Bytes) (v : Json) (m : Map Json) → Distinct m → Distinct (insert k v m)
unfolding insert lookup
Distinct-insert k v [] h = (refl, tt)
Distinct-insert k v ((j, w) ∷ m) (fresh, h) =
    ground (arith, str_eq_iff j k, str_eq_iff k j, Distinct-insert k v m h, lookup-insert k j v m)

pub Distinct-remove : (k : Bytes) (m : Map Json) → Distinct m → Distinct (remove k m)
unfolding remove lookup
Distinct-remove k [] h = tt
Distinct-remove k ((j, w) ∷ m) (fresh, h) =
    ground (arith, Distinct-remove k m h, lookup-remove k j m)

pub unmarshal_map-IsMap : (v : Json) {m : GoMap} → unmarshal_map v ≡ some m → IsMap m
unfolding unmarshal_map
unmarshal_map-IsMap null h = subst IsMap (some_inj h) tt
unmarshal_map-IsMap (obj fs) h = subst IsMap (some_inj h) (entries-Distinct fs)
unmarshal_map-IsMap _ h = cc

each_map-IsMap : (xs : Items) {ms : List GoMap} → each_map xs ≡ some ms → All IsMap ms
unfolding each_map Option.bind
each_map-IsMap nil h = subst (All IsMap) (some_inj h) tt
each_map-IsMap (cons x xs) {ms} h = elim (Option-cases (unmarshal_map x)) [
  | inl e ↦ absurd (none_ne_some (rw e at h))
  | inr (m, e) ↦ elim (Option-cases (each_map xs)) [
    | inl f ↦ absurd (none_ne_some (rw (e, f) at h))
    | inr (ms', f) ↦
        subst (All IsMap) (some_inj (rw (e, f) at h)) (unmarshal_map-IsMap x e, each_map-IsMap xs f)
  ]
]

unmarshal_maps-IsMap : (v : Json) {ms : List GoMap} → unmarshal_maps v ≡ some ms → All IsMap ms
unfolding unmarshal_maps
unmarshal_maps-IsMap null h = subst (All IsMap) (some_inj h) tt
unmarshal_maps-IsMap (arr xs) h = each_map-IsMap xs h
unmarshal_maps-IsMap _ h = cc

pub maps_under-IsMap :
    (e : Err) (o : Option Json) {ms : List GoMap} → maps_under e o ≡ ok ms → All IsMap ms
unfolding maps_under
maps_under-IsMap e none h = subst (All IsMap) (ok_inj h) tt
maps_under-IsMap e (some v) h = unmarshal_maps-IsMap v (ok_or-eq-ok e (unmarshal_maps v) h)

-- The maps of a decoded state have each key once.
pub decode-IsMap :
    (raw : Option Json) {state : GoMap} {rs : List GoMap}
    → decode raw ≡ ok (state, rs)
    → IsMap state × All IsMap rs
unfolding decode
decode-IsMap none h = cc
decode-IsMap (some v) h =
    let (m, e, h') = >>=-eq-ok (ok_or invalid_state (unmarshal_map v)) _ h in
    let (ms, f, h'') = >>=-eq-ok (maps_under invalid_resources (get m resources_key)) _ h' in
    let pair = ok_inj h'' in
    (
      subst IsMap (ap (λ p. p.0) pair) (unmarshal_map-IsMap v (ok_or-eq-ok _ _ e)),
      subst (All IsMap) (ap (λ p. p.1) pair) (maps_under-IsMap _ _ f),
    )

-- The resources of a decoded state are those under its key.
pub decode-resources :
    (raw : Option Json) {state : GoMap} {rs : List GoMap}
    → decode raw ≡ ok (state, rs)
    → maps_under invalid_resources (get state resources_key) ≡ ok rs
unfolding decode
decode-resources none h = cc
decode-resources (some v) {state} {rs} h =
    let (m, e, h') = >>=-eq-ok (ok_or invalid_state (unmarshal_map v)) _ h in
    let (ms, f, h'') = >>=-eq-ok (maps_under invalid_resources (get m resources_key)) _ h' in
    let pair = ok_inj h'' in
    subst
      (λ (p : GoMap × List GoMap). maps_under invalid_resources (get p.0 resources_key) ≡ ok p.1)
      pair f

decode-obj :
    (m : Map Json) (rs : List GoMap)
    → Distinct m
    → All IsMap rs
    → lookup resources_key m ≡ some (marshal_maps rs)
    → decode (some (obj (fields_of m))) ≡ ok (made m, rs)
unfolding decode unmarshal_map
decode-obj m rs hm hrs e =
    rw (entries-fields_of m hm) (rw (e, maps_under) (rw (unmarshal-marshal_maps rs hrs)))

serial-insert :
    (v : Json) (m : Map Json) → serial_of (made (insert resources_key v m)) ≡ serial_of (made m)
unfolding serial_of str_eq
serial-insert v m = rw (lookup-insert resources_key serial_key v m)

-- The map that encode marshals.
abbrev saved_map : Map Json → List GoMap → Map Json
saved_map m rs =
    insert serial_key (marshal_int (succ_int64 (serial_of (made m))))
      (insert resources_key (marshal_maps rs) m)

encode-saved_map :
    (m : Map Json) (rs : List GoMap) → encode (made m) rs ≡ ok (obj (fields_of (saved_map m rs)))
unfolding encode
encode-saved_map m rs = rw (serial-insert (marshal_maps rs) m)

lookup-saved_map :
    (m : Map Json) (rs : List GoMap)
    → (lookup resources_key (saved_map m rs) ≡ some (marshal_maps rs))
      × (lookup serial_key (saved_map m rs) ≡ some (marshal_int (succ_int64 (serial_of (made m)))))
unfolding str_eq
lookup-saved_map m rs = (
  rw (lookup-insert serial_key resources_key) (rw (lookup-insert resources_key resources_key)),
  rw (lookup-insert serial_key serial_key),
)

lookup-saved_map_other :
    (k : Bytes) (m : Map Json) (rs : List GoMap)
    → k ≢ resources_key
    → k ≢ serial_key
    → lookup k (saved_map m rs) ≡ lookup k m
lookup-saved_map_other k m rs h g = ground (
  arith,
  lookup-insert serial_key k (marshal_int (succ_int64 (serial_of (made m))))
      (insert resources_key (marshal_maps rs) m),
  lookup-insert resources_key k (marshal_maps rs) m,
  str_eq_iff serial_key k,
  str_eq_iff resources_key k,
)

-- Writing a state that is a map succeeds, and the document is read back as it was meant.
pub encode-IsSaved :
    (m : Map Json) (rs : List GoMap)
    → Distinct m
    → All IsMap rs
    → (doc : Json) × (encode (made m) rs ≡ ok doc) × IsSaved (made m) rs doc
unfolding get
encode-IsSaved m rs hm hrs =
    let distinct = Distinct-insert serial_key _ _ (Distinct-insert resources_key _ m hm) in
    (
      obj (fields_of (saved_map m rs)),
      encode-saved_map m rs,
      record {
        state' = made (saved_map m rs);
        decoded = decode-obj (saved_map m rs) rs distinct hrs (lookup-saved_map m rs).0;
        serial = (lookup-saved_map m rs).1;
        kept = λ k h g. lookup-saved_map_other k m rs h g;
      },
    )
