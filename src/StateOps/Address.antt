-- ===== src/StateOps/Address.antt =====
-- stateops.go: parseAddress and parseIndexKey.
use terraform_state_manager.Prelude.{
  ℕ, List, [], ◌∷◌, Bool, true, false, Option, none, some, ◌≡◌, refl, Bytes, codes, if◌then◌else◌,
  leb, ltb, ◌==◌, ◌&&◌, ◌||◌, not, length, str_eq, split, join, trim_space, Result, ok, err, ◌>>=◌,
  ◌>>◌, refuse_if, ok_or,
}
use terraform_state_manager.Prelude.Int.{ℤ, negsuc, parse_int}
use terraform_state_manager.Json.{unquote}
use mathlib.Core.Option

-- The failures of the package, by the message that each one formats, with the panic of a write to
-- a nil map as one more.
pub data Err : Type 0 where
  invalid_state invalid_resources invalid_instances : Err
  empty_address : Err
  bad_address : Bytes → Err
  malformed_index malformed_key malformed_count : Bytes → Err
  in_source in_target : Err → Err
  not_found : Bytes → Err
  already_exists : Bytes → Err
  need_both_indexes : Err
  nil_map_write : Err

-- The instance index of an address: a for_each key or a count index.
pub data Index : Type 0 where
  key : Bytes → Index
  count : ℤ → Index

pub record Address : Type 0 where
  pub module_path : Bytes
  pub typ : Bytes
  pub name : Bytes
  pub index : Option Index

unfoldable pub first_is : ℕ → Bytes → Bool
first_is b [] = false
first_is b (c ∷ s) = c == b

unfoldable pub last_is : ℕ → Bytes → Bool
last_is b [] = false
last_is b (c ∷ []) = c == b
last_is b (c ∷ d ∷ s) = last_is b (d ∷ s)

-- s[1:] and s[:len(s)-1]
unfoldable pub tail_of : Bytes → Bytes
tail_of [] = []
tail_of (c ∷ s) = s

unfoldable pub init_of : Bytes → Bytes
init_of [] = []
init_of (c ∷ []) = []
init_of (c ∷ d ∷ s) = c ∷ init_of (d ∷ s)

unfoldable pub parse_inner : Bytes → Result Err Index
unfolding first_is unquote parse_int
parse_inner inner =
    if leb 2 (length inner) && first_is b'"' inner
    then ok_or (malformed_key inner) (Option.map key (unquote inner))
    else ok_or (malformed_count inner) (Option.map count (parse_int inner))

unfoldable pub parse_index_key : Bytes → Result Err Index
unfolding first_is last_is tail_of init_of parse_inner
parse_index_key s = do
  refuse_if (ltb (length s) 3 || not (first_is b'[' s) || not (last_is b']' s)) (malformed_index s)
  parse_inner (init_of (tail_of s))

-- The leading "module", NAME pairs of the parts, and the rest.
unfoldable pub take_modules : List Bytes → List Bytes × List Bytes
take_modules [] = ([], [])
take_modules (p ∷ []) = ([], p ∷ [])
take_modules (p ∷ q ∷ ps) =
    let (mods, rest) = take_modules ps in
    if str_eq p (codes "module") then (p ∷ q ∷ mods, rest) else ([], p ∷ q ∷ ps)

-- What stands before the first `[` of a name, and the text from it on.
unfoldable pub cut_index : Bytes → Bytes × Option Bytes
cut_index [] = ([], none)
cut_index (c ∷ s) =
    let (before, behind) = cut_index s in
    if c == b'[' then ([], some (c ∷ s)) else (c ∷ before, behind)

unfoldable pub parse_index : Option Bytes → Result Err (Option Index)
unfolding parse_index_key
parse_index none = ok none
parse_index (some s) = do i ← parse_index_key s; ok (some i)

unfoldable pub parse_rest : Bytes → List Bytes → List Bytes → Result Err Address
unfolding cut_index parse_index join
parse_rest addr mods [] = err (bad_address addr)
parse_rest addr mods (t ∷ []) = err (bad_address addr)
parse_rest addr mods (t ∷ n ∷ ns) = do
  let (name, suffix) = cut_index (join b'.' (n ∷ ns))
  index ← parse_index suffix
  ok (record { module_path = join b'.' mods; typ = t; name = name; index = index })

unfoldable pub is_empty : Bytes → Bool
is_empty [] = true
is_empty (c ∷ s) = false

unfoldable pub parse_address : Bytes → Result Err Address
unfolding trim_space split take_modules parse_rest is_empty
parse_address text = do
  let addr = trim_space text
  refuse_if (is_empty addr) empty_address
  let (mods, rest) = take_modules (split b'.' addr)
  parse_rest addr mods rest

address_test :
    parse_address (codes " module.a.aws_vpc.main[\"a.b\"]")
    ≡ ok (record {
      module_path = codes "module.a";
      typ = codes "aws_vpc";
      name = codes "main";
      index = some (key (codes "a.b"));
    })
unfolding parse_address str_eq
address_test = refl

count_test :
    parse_address (codes "aws_vpc.main[-3]")
    ≡ ok (record {
      module_path = [];
      typ = codes "aws_vpc";
      name = codes "main";
      index = some (count (negsuc 2));
    })
unfolding parse_address Option.bind str_eq
count_test = refl
