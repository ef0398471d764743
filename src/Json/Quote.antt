-- ===== src/Json/Quote.antt =====
-- json.Unmarshal of a document that is one string literal: escapes, \u escapes with surrogate
-- pairs, and white space behind the literal. Bytes above 127 are taken as they are, as Go does with
-- valid UTF-8.
use terraform_state_manager.Prelude.{
  ℕ, ◌+◌, ◌-◌, ◌*◌, ◌/◌, ◌%◌, [], ◌∷◌, ◌++◌, Bool, true, Option, none, some, ◌≡◌, refl, Bytes,
  codes, if◌then◌else◌, leb, ltb, ◌==◌, arith, ◌&&◌, ◌||◌, all,
}
use mathlib.Core.Option

-- Inside the literal, behind a backslash, or with that many digits of a \u escape to read.
pub data Mode : Type 0 where
  plain escaped : Mode
  hex : ℕ → ℕ → Mode

-- utf8.AppendRune for a code point.
encode_rune : ℕ → Bytes
encode_rune u =
    if ltb u 0x80
    then u ∷ []
    else if ltb u 0x800
    then (0xC0 + u / 64) ∷ (0x80 + u % 64) ∷ []
    else if ltb u 0x10000
    then (0xE0 + u / 4096) ∷ (0x80 + u / 64 % 64) ∷ (0x80 + u % 64) ∷ []
    else (0xF0 + u / 262144) ∷ (0x80 + u / 4096 % 64) ∷ (0x80 + u / 64 % 64) ∷ (0x80 + u % 64) ∷ []

replacement : Bytes
unfolding encode_rune
replacement = encode_rune 0xFFFD

-- A high surrogate that no low one follows becomes U+FFFD.
flush : Option ℕ → Bytes → Bytes
unfolding replacement
flush none out = out
flush (some u) out = replacement ++ out

is_high : ℕ → Bool
is_high u = leb 0xD800 u && ltb u 0xDC00

is_low : ℕ → Bool
is_low u = leb 0xDC00 u && ltb u 0xE000

-- What a \u escape writes, and the high surrogate that it leaves open.
unit_alone : ℕ → Bytes × Option ℕ
unfolding is_high is_low encode_rune replacement
unit_alone u =
    if is_high u
    then ([], some u)
    else if is_low u
    then (replacement, none)
    else (encode_rune u, none)

unit : Option ℕ → ℕ → Bytes × Option ℕ
unfolding unit_alone
unit none u = unit_alone u
unit (some h) u =
    if is_low u
    then (encode_rune (0x10000 + (h - 0xD800) * 1024 + (u - 0xDC00)), none)
    else (replacement ++ (unit_alone u).0, (unit_alone u).1)

hex_digit : ℕ → Option ℕ
hex_digit c =
    if leb b'0' c && leb c b'9'
    then some (c - b'0')
    else if leb b'a' c && leb c b'f'
    then some (c - b'a' + 10)
    else if leb b'A' c && leb c b'F'
    then some (c - b'A' + 10)
    else none

simple_escape : ℕ → Option ℕ
simple_escape c =
    if c == b'"' || c == b'\\' || c == b'/'
    then some c
    else if c == b'b'
    then some 8
    else if c == b'f'
    then some 12
    else if c == b'n'
    then some 10
    else if c == b'r'
    then some 13
    else if c == b't'
    then some 9
    else none

is_json_space : ℕ → Bool
is_json_space c = c == 32 || c == 9 || c == 10 || c == 13

scan : Mode → Option ℕ → Bytes → Option Bytes
unfolding flush unit hex_digit simple_escape is_json_space
scan _ p [] = none
scan plain p (c ∷ s) =
    let escape = scan escaped p s in
    let literal = Option.map (λ out. flush p (c ∷ out)) (scan plain none s) in
    if c == b'"'
    then (if all is_json_space s then some (flush p []) else none)
    else if c == b'\\'
    then escape
    else if ltb c 32
    then none
    else literal
scan escaped p (c ∷ s) =
    let digits = scan (hex 4 0) p s in
    let rest = scan plain none s in
    if c == b'u'
    then digits
    else Option.bind (simple_escape c) (λ b. Option.map (λ out. flush p (b ∷ out)) rest)
scan (hex left acc) p (c ∷ s) = elim (hex_digit c) [
  | none ↦ none
  | some d ↦
      let more = scan (hex (left - 1) (acc * 16 + d)) p s in
      let rest = scan plain (unit p (acc * 16 + d)).1 s in
      if left == 1 then Option.map (λ out. (unit p (acc * 16 + d)).0 ++ out) rest else more
]

unfoldable pub unquote : Bytes → Option Bytes
unfolding scan
unquote [] = none
unquote (c ∷ s) = if c == b'"' then scan plain none s else none

unquote_test : unquote (codes "\"a\\n\\u00e9\\\"\" ") ≡ some (b'a' ∷ 10 ∷ 0xC3 ∷ 0xA9 ∷ b'"' ∷ [])
unfolding unquote Option.bind
unquote_test = refl

pair_test : unquote (codes "\"\\ud83d\\ude00\"") ≡ some (0xF0 ∷ 0x9F ∷ 0x98 ∷ 0x80 ∷ [])
unfolding unquote Option.bind
pair_test = refl

-- The text of a key that needs no escape.
abbrev plain_byte : ℕ → Bool
plain_byte c = leb 32 c && (ltb c b'"' || (ltb b'"' c && ltb c b'\\') || ltb b'\\' c)

abbrev pub IsPlain : Bytes → Type 0
IsPlain [] = Unit
IsPlain (c ∷ s) = (plain_byte c ≡ true) × IsPlain s

scan-plain : (s : Bytes) → IsPlain s → scan plain none (s ++ b'"' ∷ []) ≡ some s
unfolding scan
scan-plain [] h = refl
scan-plain (c ∷ s) (hc, h) = ground (arith, scan-plain s h)

-- A quoted text without escapes is read as it stands.
pub unquote-plain : (s : Bytes) → IsPlain s → unquote (b'"' ∷ s ++ b'"' ∷ []) ≡ some s
unfolding unquote
unquote-plain s h = scan-plain s h
