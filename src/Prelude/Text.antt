-- ===== src/Prelude/Text.antt =====
-- Go strings as lists of bytes, with the functions of package strings that the program calls.
use Prim.Native.Nat.{ℕ}
use Prim.Native.Char.{code}
use Prim.Native.String.{String}
use mathlib.Core.Path.{◌≡◌, refl}
use mathlib.Core.Logic.{◌↔◌, ◌≢◌, inl, inr}
use mathlib.Core.Bool.{Bool, true, false, ◌&&◌, ◌||◌}
use mathlib.Core.List.{List, [], ◌∷◌, ◌++◌}
use mathlib.Core.Option.{Option, none, some}
use native.Mathlib.Omega.{arith}
use terraform_state_manager.Prelude.Tests.{if◌then◌else◌, leb, ltb, ◌==◌, Bool-cases}
use terraform_state_manager.Prelude.Lists.{All}

abbrev pub Bytes : Type 0
Bytes = List ℕ

-- The code points of a literal, which are its bytes when the text is ASCII.
abbrev pub codes : String → Bytes
codes String.[] = []
codes (String.◌∷◌ c s) = code c ∷ codes s

-- `a == b` on strings.
unfoldable pub str_eq : Bytes → Bytes → Bool
str_eq [] [] = true
str_eq (a ∷ s) (b ∷ t) = (a == b) && str_eq s t
str_eq _ _ = false

pub str_eq_refl : (s : Bytes) → str_eq s s ≡ true
unfolding str_eq
str_eq_refl [] = refl
str_eq_refl (a ∷ s) = ground (arith, str_eq_refl s)

pub str_eq→eq : (s t : Bytes) → str_eq s t ≡ true → s ≡ t
unfolding str_eq
str_eq→eq [] [] h = refl
str_eq→eq [] (b ∷ t) h = cc
str_eq→eq (a ∷ s) [] h = cc
str_eq→eq (a ∷ s) (b ∷ t) h = ground (arith, str_eq→eq s t)

pub str_eq_iff : (s t : Bytes) → (str_eq s t ≡ true) ↔ (s ≡ t)
str_eq_iff s t = (str_eq→eq s t, λ e. rw e (str_eq_refl t))

-- `a < b` on strings: lexicographic by bytes.
unfoldable pub str_lt : Bytes → Bytes → Bool
str_lt _ [] = false
str_lt [] (b ∷ t) = true
str_lt (a ∷ s) (b ∷ t) = ltb a b || ((a == b) && str_lt s t)

-- strings.HasPrefix
unfoldable pub has_prefix : Bytes → Bytes → Bool
has_prefix s [] = true
has_prefix [] (p ∷ ps) = false
has_prefix (c ∷ s) (p ∷ ps) = (c == p) && has_prefix s ps

unfoldable pub drop_length : Bytes → Bytes → Bytes
drop_length [] s = s
drop_length (p ∷ ps) [] = []
drop_length (p ∷ ps) (c ∷ s) = drop_length ps s

-- strings.TrimPrefix(s, p)
unfoldable pub trim_prefix : Bytes → Bytes → Bytes
unfolding has_prefix drop_length
trim_prefix s p = if has_prefix s p then drop_length p s else s

-- strings.Contains and strings.Index of a substring: what stands before and behind the first
-- occurrence, or `none`.
unfoldable pub cut : Bytes → Bytes → Option (Bytes × Bytes)
unfolding has_prefix drop_length
cut [] p = if has_prefix [] p then some ([], []) else none
cut (c ∷ s) p =
    let rest = cut s p in
    if has_prefix (c ∷ s) p
    then some ([], drop_length p (c ∷ s))
    else elim rest [ none ↦ none | some (before, behind) ↦ some (c ∷ before, behind) ]

-- strings.Split at a byte.
unfoldable pub split : ℕ → Bytes → List Bytes
split sep [] = [] ∷ []
split sep (c ∷ s) =
    let rest = split sep s in
    if c == sep then [] ∷ rest else elim rest [ [] ↦ (c ∷ []) ∷ [] | p ∷ ps ↦ (c ∷ p) ∷ ps ]

-- strings.Join with a byte between the parts.
unfoldable pub join : ℕ → List Bytes → Bytes
join sep [] = []
join sep (p ∷ []) = p
join sep (p ∷ q ∷ ps) = p ++ sep ∷ join sep (q ∷ ps)

-- The ASCII white space of unicode.IsSpace.
unfoldable pub is_space : ℕ → Bool
is_space c = (leb 9 c && leb c 13) || (c == 32)

unfoldable pub trim_left : Bytes → Bytes
unfolding is_space
trim_left [] = []
trim_left (c ∷ s) = let rest = trim_left s in if is_space c then rest else c ∷ s

unfoldable pub trim_right : Bytes → Bytes
unfolding is_space
trim_right [] = []
trim_right (c ∷ s) = elim (trim_right s) [
  | [] ↦ if is_space c then [] else c ∷ []
  | d ∷ r ↦ c ∷ d ∷ r
]

-- strings.TrimSpace
unfoldable pub trim_space : Bytes → Bytes
unfolding trim_left trim_right
trim_space s = trim_left (trim_right s)

-- The byte occurs in no place of the text.
abbrev pub Lacks : ℕ → Bytes → Type 0
Lacks b = All (λ c. c ≢ b)

pub split_cons : (sep : ℕ) (p s : Bytes) → Lacks sep p → split sep (p ++ sep ∷ s) ≡ p ∷ split sep s
unfolding split
split_cons sep [] s h = ground arith
split_cons sep (c ∷ p) s (hc, h) = ground (arith, split_cons sep p s h)

-- A text that is split is never without parts, and its parts joined give the text.
pub split_head : (sep : ℕ) (s : Bytes) → (p : Bytes) × (ps : List Bytes) × (split sep s ≡ p ∷ ps)
unfolding split
split_head sep [] = ([], [], refl)
split_head sep (c ∷ s) =
    let (p, ps, e) = split_head sep s in
    elim (Bool-cases (c == sep)) [
      | inl t ↦ ([], split sep s, rw t)
      | inr t ↦ (c ∷ p, ps, rw (t, e))
    ]

join_cons :
    (sep c : ℕ) (p : Bytes) (ps : List Bytes) → join sep ((c ∷ p) ∷ ps) ≡ c ∷ join sep (p ∷ ps)
unfolding join
join_cons sep c p [] = refl
join_cons sep c p (q ∷ ps) = refl

pub join-split : (sep : ℕ) (s : Bytes) → join sep (split sep s) ≡ s
unfolding split join
join-split sep [] = refl
join-split sep (c ∷ s) =
    let (p, ps, e) = split_head sep s in
    let ih : join sep (p ∷ ps) ≡ s = rw e at (join-split sep s) in
    elim (Bool-cases (c == sep)) [
      | inl t ↦ rw (t, e) (ground (arith, t, ih))
      | inr t ↦ rw (t, e) (rw (join_cons sep c p ps, ih))
    ]

split_test : split b'.' (codes "a.b..c") ≡ codes "a" ∷ codes "b" ∷ [] ∷ codes "c" ∷ []
unfolding split
split_test = refl

trim_test : trim_space (codes "  a b ") ≡ codes "a b"
unfolding trim_space
trim_test = refl

cut_test : cut (codes "git::x") (codes "::") ≡ some (codes "git", codes "x")
unfolding cut
cut_test = refl

-- A key in a list of keys.
unfoldable pub member : Bytes → List Bytes → Bool
member k [] = false
member k (j ∷ ks) = str_eq j k || member k ks

-- sort.Strings: the sorted list of the same strings.
unfoldable pub insert_sorted : Bytes → List Bytes → List Bytes
insert_sorted k [] = k ∷ []
insert_sorted k (j ∷ ks) =
    let rest = insert_sorted k ks in if str_lt j k then j ∷ rest else k ∷ j ∷ ks

unfoldable pub sort_strings : List Bytes → List Bytes
unfolding insert_sorted
sort_strings [] = []
sort_strings (k ∷ ks) = insert_sorted k (sort_strings ks)
