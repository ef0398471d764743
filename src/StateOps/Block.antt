-- ===== src/StateOps/Block.antt =====
-- stateops.go: one resource block of a state, its instances, and the state document around the
-- blocks. The float64 comparison of a number literal with an integer is a parameter.
use terraform_state_manager.Prelude.{
  ℕ, List, [], ◌∷◌, Bool, false, Option, none, some, Bytes, codes, if◌then◌else◌, ◌==◌, ◌&&◌, ◌||◌,
  length, str_eq, Map, insert, remove, Result, ok, err, ◌>>=◌, ok_or,
}
use terraform_state_manager.Prelude.Int.{ℤ, pos, succ_int64}
use terraform_state_manager.Json.{
  Json, null, num, str, GoMap, nil_map, made, get, unmarshal_map, unmarshal_maps, unmarshal_string,
  unmarshal_int, marshal_map, marshal_maps, marshal_int, entries_of,
}
use terraform_state_manager.StateOps.Address.{
  Err, invalid_state, invalid_resources, invalid_instances, nil_map_write, Index, key, count,
}
use mathlib.Core.Option

-- `m[k] = v`
unfoldable pub put : GoMap → Bytes → Json → Result Err GoMap
put nil_map k v = err nil_map_write
put (made m) k v = ok (made (insert k v m))

unfoldable pub string_or_empty : Option Json → Bytes
unfolding unmarshal_string
string_or_empty none = []
string_or_empty (some v) = Option.get_or (unmarshal_string v) []

unfoldable pub str_field : GoMap → Bytes → Bytes
unfolding get string_or_empty
str_field r k = string_or_empty (get r k)

unfoldable pub resource_matches : GoMap → Bytes → Bytes → Bytes → Bool
unfolding str_field
resource_matches r module_path typ name =
    str_eq (str_field r (codes "module")) module_path
    && (str_eq (str_field r (codes "type")) typ && str_eq (str_field r (codes "name")) name)

-- A list of maps under a key, empty when the key is absent.
unfoldable pub maps_under : Err → Option Json → Result Err (List GoMap)
unfolding unmarshal_maps
maps_under e none = ok []
maps_under e (some v) = ok_or e (unmarshal_maps v)

unfoldable pub decode_instances : GoMap → Result Err (List GoMap)
unfolding maps_under get
decode_instances r = maps_under invalid_instances (get r (codes "instances"))

-- decode: the state and its resource blocks. `none` stands for bytes that are no JSON document.
unfoldable pub decode : Option Json → Result Err (GoMap × List GoMap)
unfolding unmarshal_map maps_under get
decode none = err invalid_state
decode (some raw) = do
  state ← ok_or invalid_state (unmarshal_map raw)
  resources ← maps_under invalid_resources (get state (codes "resources"))
  ok (state, resources)

unfoldable pub int_or_zero : Option Json → ℤ
unfolding unmarshal_int
int_or_zero none = pos 0
int_or_zero (some v) = Option.get_or (unmarshal_int v) (pos 0)

unfoldable pub serial_of : GoMap → ℤ
unfolding get int_or_zero
serial_of state = int_or_zero (get state (codes "serial"))

unfoldable pub bump_serial : GoMap → Result Err GoMap
unfolding put serial_of succ_int64 marshal_int
bump_serial state = put state (codes "serial") (marshal_int (succ_int64 (serial_of state)))

unfoldable pub encode : GoMap → List GoMap → Result Err Json
unfolding put bump_serial marshal_map marshal_maps
encode state resources = do
  with_resources ← put state (codes "resources") (marshal_maps resources)
  bumped ← bump_serial with_resources
  ok (marshal_map bumped)

-- A null index_key leaves the zero value, which is compared with the index.
module _ (float_eq : Bytes → ℤ → Bool) where
  unfoldable pub key_value_matches : Json → Index → Bool
  unfolding unmarshal_string
  key_value_matches raw (key k) = elim (unmarshal_string raw) [ none ↦ false | some s ↦ str_eq s k ]
  key_value_matches (num literal) (count n) = float_eq literal n
  key_value_matches null (count (pos n)) = n == 0
  key_value_matches _ (count n) = false

  unfoldable pub key_matches : Option Json → Index → Bool
  unfolding key_value_matches
  key_matches none i = false
  key_matches (some raw) i = key_value_matches raw i

  unfoldable pub index_key_matches : Index → GoMap → Bool
  unfolding key_matches get
  index_key_matches i inst = key_matches (get inst (codes "index_key")) i

-- The first element that passes the test, and the others in order.
unfoldable pub take_first {ℓ} : {A : Type ℓ} → (A → Bool) → List A → Option A × List A
take_first p [] = (none, [])
take_first p (x ∷ xs) =
    let (found, kept) = take_first p xs in if p x then (some x, xs) else (found, x ∷ kept)

-- What popInstance returns: the instance, the number of those that remain, and the block with the
-- reduced list written back.
pub record Popped : Type 0 where
  pub block : GoMap
  pub inst : Option GoMap
  pub remaining : ℕ

unfoldable pub write_back : GoMap → Option GoMap × List GoMap → Result Err Popped
unfolding put marshal_maps
write_back r (none, kept) = ok (record { block = r; inst = none; remaining = length kept })
write_back r (some x, kept) = do
  r' ← put r (codes "instances") (marshal_maps kept)
  ok (record { block = r'; inst = some x; remaining = length kept })

unfoldable pub pop_instance : (Bytes → ℤ → Bool) → GoMap → Index → Result Err Popped
unfolding decode_instances take_first write_back index_key_matches
pop_instance float_eq r i = do
  insts ← decode_instances r
  write_back r (take_first (index_key_matches float_eq i) insts)

-- The address fields and the instances, which cloneResourceIdentity does not copy.
unfoldable pub is_identity_key : Bytes → Bool
is_identity_key k =
    str_eq k (codes "instances")
    || (str_eq k (codes "module") || (str_eq k (codes "type") || str_eq k (codes "name")))

unfoldable pub copy_others : Map Json → Map Json
unfolding is_identity_key
copy_others [] = []
copy_others ((k, v) ∷ m) =
    let rest = copy_others m in if is_identity_key k then rest else (k, v) ∷ rest

-- `if mod != "" { nb["module"] = … }`
unfoldable pub with_module : Bytes → Map Json → Map Json
with_module [] m = m
with_module (c ∷ s) m = insert (codes "module") (str (c ∷ s)) m

unfoldable pub clone_identity : GoMap → Bytes → Bytes → Bytes → Map Json
unfolding copy_others with_module entries_of
clone_identity src module_path typ name =
    insert (codes "name") (str name)
      (insert (codes "type") (str typ) (with_module module_path (copy_others (entries_of src))))

-- The assignments with which MoveResource renames the block.
unfoldable pub set_module : Bytes → Map Json → Map Json
set_module [] m = remove (codes "module") m
set_module (c ∷ s) m = insert (codes "module") (str (c ∷ s)) m

unfoldable pub rename : Bytes → Bytes → Bytes → Map Json → Map Json
unfolding set_module
rename module_path typ name m =
    insert (codes "name") (str name) (insert (codes "type") (str typ) (set_module module_path m))
