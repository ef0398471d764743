-- ===== src/DriftIngest/Canon.antt =====
-- plan.go: the canonical serializer (marshalCanon, canon, jsonEqual) and the value formats (fmtVal,
-- truncate). A json.RawMessage that may be empty is an `Option Json`. The text of a float64 is a
-- parameter, of the literal that the number has in the plan.
use terraform_state_manager.Prelude.{
  ℕ, suc, ◌+◌, ◌-◌, ◌/◌, ◌%◌, List, [], ◌∷◌, ◌++◌, Bool, Option, none, some, ◌≡◌, refl, Bytes,
  codes, if◌then◌else◌, leb, ltb, ◌==◌, ◌&&◌, str_eq, str_lt, join, Map, lookup, add_before,
}
use terraform_state_manager.Json.{
  Json, null, bool, num, str, arr, obj, Items, nil, cons, Fields, end, field,
}

hex_digit : ℕ → ℕ
hex_digit n = if ltb n 10 then b'0' + n else b'a' + (n - 10)

-- The escape of one byte in a JSON string, with HTML escaping off.
escape_byte : ℕ → Bytes
unfolding hex_digit
escape_byte c =
    if c == b'"'
    then codes "\\\""
    else if c == b'\\'
    then codes "\\\\"
    else if c == 8
    then codes "\\b"
    else if c == 12
    then codes "\\f"
    else if c == 10
    then codes "\\n"
    else if c == 13
    then codes "\\r"
    else if c == 9
    then codes "\\t"
    else if ltb c 32
    then codes "\\u00" ++ hex_digit (c / 16) ∷ hex_digit (c % 16) ∷ []
    else c ∷ []

-- U+2028 and U+2029 are always escaped.
separator : ℕ → ℕ → ℕ → Option Bytes
separator a b c =
    if (a == 0xE2) && ((b == 0x80) && (c == 0xA8))
    then some (codes "\\u2028")
    else if (a == 0xE2) && ((b == 0x80) && (c == 0xA9))
    then some (codes "\\u2029")
    else none

escape : Bytes → Bytes
unfolding escape_byte separator
escape [] = []
escape (a ∷ []) = escape_byte a
escape (a ∷ b ∷ []) = escape_byte a ++ escape_byte b
escape (a ∷ b ∷ c ∷ s) =
    let behind = escape s in
    let next = escape (b ∷ c ∷ s) in
    elim (separator a b c) [ none ↦ escape_byte a ++ next | some t ↦ t ++ behind ]

unfoldable pub quote : Bytes → Bytes
unfolding escape
quote s = b'"' ∷ escape s ++ b'"' ∷ []

-- The members of a map, sorted by their keys as the encoder writes them.
insert_member : Bytes → Bytes → Map Bytes → Map Bytes
insert_member k v [] = (k, v) ∷ []
insert_member k v ((j, w) ∷ m) =
    let rest = insert_member k v m in if str_lt j k then (j, w) ∷ rest else (k, v) ∷ (j, w) ∷ m

sort_members : Map Bytes → Map Bytes
unfolding insert_member
sort_members [] = []
sort_members ((k, v) ∷ m) = insert_member k v (sort_members m)

member_texts : Map Bytes → List Bytes
unfolding quote
member_texts [] = []
member_texts ((k, v) ∷ m) = (quote k ++ b':' ∷ v) ∷ member_texts m

object_text : Map Bytes → Bytes
unfolding sort_members member_texts
object_text m = b'{' ∷ join b',' (member_texts (sort_members m)) ++ b'}' ∷ []

abbrev pub null_text : Bytes
null_text = codes "null"

-- marshalCanon of a decoded value.
unfoldable mutual
  unfolding object_text quote

  pub text : (Bytes → Bytes) → Json → Bytes
  text number null = null_text
  text number (bool b) = if b then codes "true" else codes "false"
  text number (num s) = number s
  text number (str s) = quote s
  text number (arr xs) = b'[' ∷ join b',' (item_texts number xs) ++ b']' ∷ []
  text number (obj fs) = object_text (members number fs)

  pub item_texts : (Bytes → Bytes) → Items → List Bytes
  item_texts number nil = []
  item_texts number (cons x xs) = text number x ∷ item_texts number xs

  pub members : (Bytes → Bytes) → Fields → Map Bytes
  members number end = []
  members number (field k v fs) =
      add_before (lookup k (members number fs)) k (text number v) (members number fs)

unfoldable pub canon : (Bytes → Bytes) → Option Json → Bytes
unfolding text
canon number none = null_text
canon number (some v) = text number v

unfoldable pub json_equal : (Bytes → Bytes) → Option Json → Option Json → Bool
unfolding canon
json_equal number a b = str_eq (canon number a) (canon number b)

-- A byte that continues a code point of UTF-8.
unfoldable pub is_continuation : ℕ → Bool
is_continuation c = leb 0x80 c && ltb c 0xC0

-- utf8.RuneCountInString of valid UTF-8.
unfoldable pub rune_count : Bytes → ℕ
unfolding is_continuation
rune_count [] = 0
rune_count (c ∷ s) = let rest = rune_count s in if is_continuation c then rest else suc rest

-- string([]rune(s)[:n])
unfoldable pub take_runes : ℕ → Bytes → Bytes
unfolding is_continuation
take_runes n [] = []
take_runes n (c ∷ s) =
    let same = take_runes n s in
    let fewer = take_runes (n - 1) s in
    if is_continuation c then c ∷ same else if n == 0 then [] else c ∷ fewer

abbrev pub max_runes : ℕ
max_runes = 300

-- The text of U+2026.
abbrev pub ellipsis : Bytes
ellipsis = 0xE2 ∷ 0x80 ∷ 0xA6 ∷ []

unfoldable pub truncate : Bytes → Bytes
unfolding rune_count take_runes
truncate s = if leb (rune_count s) max_runes then s else take_runes max_runes s ++ ellipsis

unfoldable pub format_value : (Bytes → Bytes) → Json → Bytes
unfolding truncate text
format_value number (str s) = truncate s
format_value number v = truncate (text number v)

unfoldable pub fmt_val : (Bytes → Bytes) → Option Json → Option Bytes
unfolding canon format_value
fmt_val number none = none
fmt_val number (some v) =
    if str_eq (canon number (some v)) null_text then none else some (format_value number v)

canon_test :
    canon
      (λ s. s)
      (some
        (obj (field (codes "b") (num (codes "1")) (field (codes "a") (str (codes "x<\n")) end))))
    ≡ codes "{\"a\":\"x<\\n\",\"b\":1}"
unfolding canon add_before lookup str_eq str_lt join
canon_test = refl
