-- ===== src/StateOps/Tests.antt =====
-- stateops.go on concrete states: the theorems at inputs that meet their hypotheses, and runs.
use terraform_state_manager.Prelude.{
  [], ◌∷◌, Bool, true, false, none, some, ◌≡◌, ◌≢◌, refl, Bytes, codes, arith, Map, ok, err, any,
  select, not, str_eq, lookup, insert, trim_space, join,
}
use mathlib.Core.Option
use terraform_state_manager.Prelude.Int.{ℤ, print_int}
use terraform_state_manager.Json.{
  Json, str, num, arr, obj, cons, nil, field, end, Items, Fields, GoMap, made, get, entries,
}
use terraform_state_manager.StateOps.Address.{
  Address, key, parse_address, not_found, already_exists,
}
use terraform_state_manager.StateOps.Block.{
  decode, decode_instances, index_key_matches, resource_matches, pop_instance,
}
use terraform_state_manager.StateOps.Edit.{matches, remove_resource, move_resource, move_instance}
use terraform_state_manager.StateOps.Saved.{IsSaved, decode-IsMap, resources_key, serial_key}
use terraform_state_manager.StateOps.Popping.{IsPopped, pop_instance_lem}
use terraform_state_manager.StateOps.Removal.{
  remove_resource-IsSaved, remove_resource-not_found, remove_instance-IsSaved,
}
use terraform_state_manager.StateOps.Renaming.{
  IsRenamed, move_resource-IsSaved, move_resource-already_exists, move_resource-not_found,
}
use terraform_state_manager.StateOps.RoundTrip.{move_resource_back}
use terraform_state_manager.StateOps.Conservation.{total, move_instance-total}
use terraform_state_manager.StateOps.AddressText.{
  address_text, module_parts, parse_address-address_text,
}

-- Number literals compared by their text.
abbrev float_eq : Bytes → ℤ → Bool
float_eq literal n = str_eq literal (print_int n)

abbrev inst : Bytes → Fields
inst k = field (codes "index_key") (str k) end

abbrev block : Bytes → Bytes → Items → Fields
block typ name insts =
    field (codes "type") (str typ)
      (field (codes "name") (str name) (field (codes "instances") (arr insts) end))

abbrev two_instances : Items
two_instances = cons (obj (inst (codes "x"))) (cons (obj (inst (codes "y"))) nil)

abbrev state : Json
state = obj (
    field (codes "serial") (num (codes "7")) (
      field (codes "resources")
        (arr (
          cons (obj (block (codes "vpc") (codes "a") two_instances))
            (cons (obj (block (codes "dns") (codes "b") nil)) nil)))
        end))

abbrev block_map : Bytes → Bytes → Items → Map Json
block_map typ name insts =
    (codes "type", str typ) ∷ (codes "name", str name) ∷ (codes "instances", arr insts) ∷ []

abbrev state_map : GoMap
state_map = made (
    (codes "serial", num (codes "7"))
    ∷ (
      codes "resources",
      arr (
          cons (obj (block (codes "vpc") (codes "a") two_instances))
            (cons (obj (block (codes "dns") (codes "b") nil)) nil)),
    )
    ∷ [])

abbrev vpc : Map Json
vpc = block_map (codes "vpc") (codes "a") two_instances

abbrev dns : GoMap
dns = made (block_map (codes "dns") (codes "b") nil)

decoded : decode (some state) ≡ ok (state_map, made vpc ∷ dns ∷ [])
unfolding decode lookup str_eq Option.bind
decoded = refl

abbrev whole : Bytes → Bytes → Address
whole typ name = record { module_path = []; typ = typ; name = name; index = none }

parsed_vpc : parse_address (codes "vpc.a") ≡ ok (whole (codes "vpc") (codes "a"))
unfolding parse_address str_eq
parsed_vpc = refl

parsed_new : parse_address (codes "vpc.c") ≡ ok (whole (codes "vpc") (codes "c"))
unfolding parse_address str_eq
parsed_new = refl

abbrev vpc_a : Address
vpc_a = whole (codes "vpc") (codes "a")

abbrev vpc_c : Address
vpc_c = whole (codes "vpc") (codes "c")

abbrev vpc_a_y : Address
vpc_a_y = record vpc_a { index = some (key (codes "y")) }

vpc-matches : any (matches vpc_a) (made vpc ∷ dns ∷ []) ≡ true
unfolding resource_matches lookup str_eq
vpc-matches = refl

vpc_alone : matches vpc_a (made vpc) ≡ true
unfolding resource_matches lookup str_eq
vpc_alone = refl

dns_differs : any (matches vpc_a) (dns ∷ []) ≡ false
unfolding resource_matches lookup str_eq
dns_differs = refl

new_is_free : any (matches vpc_c) (made vpc ∷ dns ∷ []) ≡ false
unfolding resource_matches lookup str_eq
new_is_free = refl

remove_resource-IsSaved_example :
    (doc : Json) × (remove_resource float_eq (some state) (codes "vpc.a") ≡ ok doc)
    × IsSaved state_map (select (λ r. not (matches vpc_a r)) (made vpc ∷ dns ∷ [])) doc
remove_resource-IsSaved_example =
    remove_resource-IsSaved float_eq (some state) (codes "vpc.a") state_map (made vpc ∷ dns ∷ [])
      vpc_a decoded parsed_vpc refl vpc-matches

remove_resource-not_found_example :
    remove_resource float_eq (some state) (codes "vpc.c") ≡ err (not_found (codes "vpc.c"))
remove_resource-not_found_example =
    remove_resource-not_found float_eq (some state) (codes "vpc.c") state_map (made vpc ∷ dns ∷ [])
      vpc_c decoded parsed_new new_is_free

parsed_y : parse_address (codes "vpc.a[\"y\"]") ≡ ok vpc_a_y
unfolding parse_address str_eq
parsed_y = refl

instances :
    decode_instances (made vpc)
    ≡ ok (made (entries (inst (codes "x"))) ∷ made (entries (inst (codes "y"))) ∷ [])
unfolding decode_instances lookup str_eq Option.bind
instances = refl

x_differs :
    any (index_key_matches float_eq (key (codes "y"))) (made (entries (inst (codes "x"))) ∷ [])
    ≡ false
unfolding index_key_matches entries lookup str_eq
x_differs = refl

y_matches : index_key_matches float_eq (key (codes "y")) (made (entries (inst (codes "y")))) ≡ true
unfolding index_key_matches entries lookup str_eq
y_matches = refl

abbrev inst_x : GoMap
inst_x = made (entries (inst (codes "x")))

abbrev inst_y : GoMap
inst_y = made (entries (inst (codes "y")))

remove_instance-IsSaved_example :
    (m' : Map Json) × (doc : Json) × IsPopped vpc (inst_x ∷ []) m'
    × (remove_resource float_eq (some state) (codes "vpc.a[\"y\"]") ≡ ok doc)
    × IsSaved state_map (made m' ∷ dns ∷ []) doc
remove_instance-IsSaved_example =
    remove_instance-IsSaved float_eq (some state) (codes "vpc.a[\"y\"]") state_map [] vpc (dns ∷ [])
      vpc_a_y (key (codes "y")) (inst_x ∷ []) inst_y [] decoded parsed_y refl refl dns_differs
      vpc_alone instances x_differs y_matches

pop_instance_lem_example :
    (m' : Map Json) × (pop_instance float_eq (made vpc) (key (codes "y"))
      ≡ ok (record { block = made m'; inst = some inst_y; remaining = 1 }))
    × IsPopped vpc (inst_x ∷ []) m'
pop_instance_lem_example =
    pop_instance_lem float_eq vpc (key (codes "y")) (inst_x ∷ []) inst_y []
      (decode-IsMap (some state) decoded).1.0 instances x_differs y_matches

move_resource-IsSaved_example :
    (m' : Map Json) × (doc : Json) × IsRenamed vpc_c vpc m'
    × (move_resource float_eq (some state) (codes "vpc.a") (codes "vpc.c") ≡ ok doc)
    × IsSaved state_map (made m' ∷ dns ∷ []) doc
move_resource-IsSaved_example =
    move_resource-IsSaved float_eq (some state) (codes "vpc.a") (codes "vpc.c") vpc_a vpc_c
      parsed_vpc parsed_new refl refl state_map [] vpc (dns ∷ []) decoded new_is_free vpc_alone
      dns_differs

move_resource-already_exists_example :
    move_resource float_eq (some state) (codes "vpc.c") (codes "vpc.a")
    ≡ err (already_exists (codes "vpc.a"))
move_resource-already_exists_example =
    move_resource-already_exists float_eq (some state) (codes "vpc.c") (codes "vpc.a") vpc_c vpc_a
      parsed_new parsed_vpc refl refl state_map (made vpc ∷ dns ∷ []) decoded vpc-matches

move_resource-not_found_test :
    move_resource float_eq (some state) (codes "vpc.c") (codes "vpc.c")
    ≡ err (not_found (codes "vpc.c"))
move_resource-not_found_test =
    move_resource-not_found float_eq (some state) (codes "vpc.c") (codes "vpc.c") vpc_c vpc_c
      parsed_new parsed_new refl refl state_map (made vpc ∷ dns ∷ []) decoded new_is_free
      new_is_free

move_resource_back_example :
    (there back : Json) × (m' : Map Json) × (state' : GoMap) × (move_resource float_eq
        (some state)
        (codes "vpc.a")
        (codes "vpc.c")
      ≡ ok there)
    × (move_resource float_eq (some there) (codes "vpc.c") (codes "vpc.a") ≡ ok back)
    × (decode (some back) ≡ ok (state', made m' ∷ dns ∷ []))
    × IsRenamed vpc_a vpc m'
    × ((k : Bytes) → k ≢ resources_key → k ≢ serial_key → get state' k ≡ get state_map k)
move_resource_back_example =
    move_resource_back float_eq (some state) (codes "vpc.a") (codes "vpc.c") vpc_a vpc_c parsed_vpc
      parsed_new refl refl state_map [] vpc (dns ∷ []) decoded new_is_free refl vpc_alone
      dns_differs

-- The instance `y` leaves for a block of its own.
abbrev vpc_left : Map Json
vpc_left = block_map (codes "vpc") (codes "a") (cons (obj (inst (codes "x"))) nil)

abbrev vpc_new : Map Json
vpc_new =
    (codes "type", str (codes "vpc"))
    ∷ (codes "name", str (codes "c"))
    ∷ (codes "instances", arr (cons (obj (inst (codes "z"))) nil))
    ∷ []

moved_y :
    move_instance float_eq
      (codes "vpc.a")
      (codes "vpc.c")
      vpc_a
      vpc_c
      (key (codes "y"))
      (key (codes "z"))
      (made vpc ∷ dns ∷ [])
    ≡ ok (made vpc_left ∷ dns ∷ made vpc_new ∷ [])
unfolding move_instance lookup insert str_eq Option.bind
moved_y = refl

move_instance-total_example :
    total (made vpc_left ∷ dns ∷ made vpc_new ∷ []) ≡ total (made vpc ∷ dns ∷ [])
move_instance-total_example =
    move_instance-total float_eq (codes "vpc.a") (codes "vpc.c") vpc_a vpc_c (key (codes "y"))
      (key (codes "z")) (made vpc ∷ dns ∷ []) {rs' = made vpc_left ∷ dns ∷ made vpc_new ∷ []}
      moved_y

trimmed :
    trim_space (address_text (codes "m" ∷ []) (codes "vpc") (codes "a") (some (key (codes "x.y"))))
    ≡ address_text (codes "m" ∷ []) (codes "vpc") (codes "a") (some (key (codes "x.y")))
unfolding trim_space address_text
trimmed = refl

parse_address-address_text_example :
    parse_address
      (address_text (codes "m" ∷ []) (codes "vpc") (codes "a") (some (key (codes "x.y"))))
    ≡ ok (record {
      module_path = codes "module.m";
      typ = codes "vpc";
      name = codes "a";
      index = some (key (codes "x.y"));
    })
unfolding module_parts join
parse_address-address_text_example =
    parse_address-address_text (codes "m" ∷ []) (codes "vpc") (codes "a") (some (key (codes "x.y")))
      (omega arith) (omega arith) (λ e. cc) (omega arith) (refl, (refl, (refl, tt))) trimmed
