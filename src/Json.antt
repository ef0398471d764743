-- ===== src/Json.antt =====
-- encoding/json on the level of values. A json.RawMessage that holds a document is the value that
-- the document denotes; an object keeps its members as written, duplicates included, and a number
-- keeps its literal. Maps decoded from objects are unordered, so the order in which json.Marshal
-- writes the keys of a map is not modelled.
mod Quote
unfoldable pub use Quote.{unquote}
pub use Quote.{unquote-plain, IsPlain}
use terraform_state_manager.Prelude.{
  ℕ, List, [], ◌∷◌, Bool, true, false, Option, none, some, ◌≡◌, refl, arith, Bytes, codes, Map,
  lookup, insert, remove, add_before, str_eq, str_eq_iff, if◌then◌else◌, ap, All, Option-cases, inl,
  inr, ◌⊎◌,
}
use terraform_state_manager.Prelude.Int.{ℤ, pos, parse_int, print_int, parse_int-print_int, IsInt64}
use mathlib.Core.Option

mutual
  pub data Json : Type 0 where
    null : Json
    bool : Bool → Json
    num : Bytes → Json
    str : Bytes → Json
    arr : Items → Json
    obj : Fields → Json

  pub data Items : Type 0 where
    nil : Items
    cons : Json → Items → Items

  pub data Fields : Type 0 where
    end : Fields
    field : Bytes → Json → Fields → Fields

-- A map[string]json.RawMessage: a nil map reads as empty, and a write to it panics.
pub data GoMap : Type 0 where
  nil_map : GoMap
  made : Map Json → GoMap

-- The members of an object as a map; of duplicate keys the last one counts.
unfoldable pub entries : Fields → Map Json
unfolding add_before
entries end = []
entries (field k v fs) = add_before (lookup k (entries fs)) k v (entries fs)

unfoldable pub fields_of : Map Json → Fields
fields_of [] = end
fields_of ((k, v) ∷ m) = field k v (fields_of m)

unfoldable pub entries_of : GoMap → Map Json
entries_of nil_map = []
entries_of (made m) = m

-- `v, ok := m[key]`
unfoldable pub get : GoMap → Bytes → Option Json
unfolding entries_of
get m k = lookup k (entries_of m)

unfoldable pub items_list : Items → List Json
items_list nil = []
items_list (cons x xs) = x ∷ items_list xs

unfoldable pub list_items : List Json → Items
list_items [] = nil
list_items (x ∷ xs) = cons x (list_items xs)

-- json.Unmarshal into a map, a list of maps, a string, an int64 that is zero before. JSON null
-- changes nothing and is no error; a value of another kind is one.
unfoldable pub unmarshal_map : Json → Option GoMap
unfolding entries
unmarshal_map null = some nil_map
unmarshal_map (obj fs) = some (made (entries fs))
unmarshal_map _ = none

unfoldable pub each_map : Items → Option (List GoMap)
unfolding unmarshal_map
each_map nil = some []
each_map (cons x xs) = Option.bind (unmarshal_map x) (λ m. Option.map (λ ms. m ∷ ms) (each_map xs))

unfoldable pub unmarshal_maps : Json → Option (List GoMap)
unfolding each_map
unmarshal_maps null = some []
unmarshal_maps (arr xs) = each_map xs
unmarshal_maps _ = none

unfoldable pub unmarshal_string : Json → Option Bytes
unmarshal_string (str s) = some s
unmarshal_string null = some []
unmarshal_string _ = none

unfoldable pub unmarshal_int : Json → Option ℤ
unmarshal_int (num s) = parse_int s
unmarshal_int null = some (pos 0)
unmarshal_int _ = none

-- json.Marshal
unfoldable pub marshal_map : GoMap → Json
unfolding fields_of
marshal_map nil_map = null
marshal_map (made m) = obj (fields_of m)

unfoldable pub marshal_each : List GoMap → Items
unfolding marshal_map
marshal_each [] = nil
marshal_each (m ∷ ms) = cons (marshal_map m) (marshal_each ms)

unfoldable pub marshal_maps : List GoMap → Json
unfolding marshal_each
marshal_maps ms = arr (marshal_each ms)

unfoldable pub marshal_int : ℤ → Json
marshal_int z = num (print_int z)

-- Every key stands once, as in any map.
abbrev pub Distinct : Map Json → Type 0
Distinct [] = Unit
Distinct ((k, v) ∷ m) = (lookup k m ≡ none) × Distinct m

abbrev pub IsMap : GoMap → Type 0
IsMap nil_map = Unit
IsMap (made m) = Distinct m

pub entries-Distinct : (fs : Fields) → Distinct (entries fs)
unfolding entries
entries-Distinct end = tt
entries-Distinct (field k v fs) = elim (Option-cases (lookup k (entries fs))) [
  | inl e ↦ rw e (e, entries-Distinct fs)
  | inr (w, e) ↦ rw e (entries-Distinct fs)
]

pub entries-fields_of : (m : Map Json) → Distinct m → entries (fields_of m) ≡ m
unfolding entries fields_of
entries-fields_of [] h = refl
entries-fields_of ((k, v) ∷ m) (fresh, h) = rw (entries-fields_of m h, fresh)

-- Maps that are written and read again are the same maps.
pub unmarshal-marshal_maps :
    (ms : List GoMap) → All IsMap ms → unmarshal_maps (marshal_maps ms) ≡ some ms
unfolding unmarshal_maps marshal_maps Option.bind
unmarshal-marshal_maps [] h = refl
unmarshal-marshal_maps (nil_map ∷ ms) (hm, h) = rw (unmarshal-marshal_maps ms h)
unmarshal-marshal_maps (made m ∷ ms) (hm, h) =
    rw (entries-fields_of m hm) (rw (unmarshal-marshal_maps ms h))

pub unmarshal_int-marshal_int : (z : ℤ) → IsInt64 z → unmarshal_int (marshal_int z) ≡ some z
unfolding unmarshal_int marshal_int
unmarshal_int-marshal_int z h = parse_int-print_int z h
