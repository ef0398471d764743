-- ===== src/StateOps/AddressText.antt =====
-- stateops.go: parseAddress reads back the text of an address.
use terraform_state_manager.Prelude.{
  ℕ, List, [], ◌∷◌, ◌++◌, true, false, Option, none, some, ◌≡◌, ◌≢◌, refl, ap, subst, ◌∙◌, Bytes,
  codes, arith, str_eq_iff, str_eq_refl, split, join, trim_space, split_cons, split_head,
  join-split, Lacks, All, ok, length-append, append-nil,
}
use terraform_state_manager.Prelude.Int.{ℤ, print_int, print_int_head, parse_int-print_int, IsInt64}
use terraform_state_manager.Json.{unquote-plain, IsPlain}
use terraform_state_manager.StateOps.Address.{
  Index, key, count, last_is, init_of, parse_inner, parse_index_key, take_modules, cut_index,
  parse_index, parse_rest, is_empty, parse_address,
}

-- The bracketed text of an index.
unfoldable pub index_text : Index → Bytes
index_text (key k) = b'[' ∷ (b'"' ∷ k ++ b'"' ∷ []) ++ b']' ∷ []
index_text (count z) = b'[' ∷ print_int z ++ b']' ∷ []

unfoldable pub suffix_text : Option Index → Bytes
unfolding index_text
suffix_text none = []
suffix_text (some i) = index_text i

-- `module.A.module.B.` before the rest of an address.
unfoldable pub module_text : List Bytes → Bytes → Bytes
module_text [] rest = rest
module_text (m ∷ ms) rest = codes "module" ++ b'.' ∷ (m ++ b'.' ∷ module_text ms rest)

unfoldable pub address_text : List Bytes → Bytes → Bytes → Option Index → Bytes
unfolding module_text suffix_text
address_text mods typ name index = module_text mods (typ ++ b'.' ∷ (name ++ suffix_text index))

-- The parts of the module path.
unfoldable pub module_parts : List Bytes → List Bytes
module_parts [] = []
module_parts (m ∷ ms) = codes "module" ∷ m ∷ module_parts ms

-- A for_each key that needs no escape, or an int64.
abbrev pub IsPrintable : Option Index → Type 0
IsPrintable none = Unit
IsPrintable (some (key k)) = IsPlain k
IsPrintable (some (count z)) = IsInt64 z

last_is-append : (b : ℕ) (s : Bytes) → last_is b (s ++ b ∷ []) ≡ true
unfolding last_is
last_is-append b [] = ground arith
last_is-append b (c ∷ []) = ground arith
last_is-append b (c ∷ d ∷ s) = last_is-append b (d ∷ s)

init_of-append : (s : Bytes) (c : ℕ) → init_of (s ++ c ∷ []) ≡ s
unfolding init_of
init_of-append [] c = refl
init_of-append (a ∷ []) c = refl
init_of-append (a ∷ b ∷ s) c = ap (λ t. a ∷ t) (init_of-append (b ∷ s) c)

-- A bracketed text that is not empty is taken out of its brackets.
parse_index_key-brackets :
    (c : ℕ) (s : Bytes) → parse_index_key (b'[' ∷ (c ∷ s) ++ b']' ∷ []) ≡ parse_inner (c ∷ s)
unfolding parse_index_key
parse_index_key-brackets c s = ground (
  arith,
  last_is-append b']' (b'[' ∷ c ∷ s),
  init_of-append (c ∷ s) b']',
  length-append s (b']' ∷ []),
)

parse_inner-key : (k : Bytes) → IsPlain k → parse_inner (b'"' ∷ k ++ b'"' ∷ []) ≡ ok (key k)
unfolding parse_inner
parse_inner-key k h = ground (arith, unquote-plain k h, length-append k (b'"' ∷ []))

parse_inner-count : (z : ℤ) → IsInt64 z → parse_inner (print_int z) ≡ ok (count z)
unfolding parse_inner
parse_inner-count z h =
    let (c, s, e, lo, hi) = print_int_head z in ground (arith, parse_int-print_int z h, e, lo, hi)

parse_index_key-index_text :
    (i : Index) → IsPrintable (some i) → parse_index_key (index_text i) ≡ ok i
unfolding index_text
parse_index_key-index_text (key k) h =
    parse_index_key-brackets b'"' (k ++ b'"' ∷ []) ∙ parse_inner-key k h
parse_index_key-index_text (count z) h =
    let (c, s, e, lo, hi) = print_int_head z in
    rw e (parse_index_key-brackets c s ∙ rw (← e) (parse_inner-count z h))

cut_index-suffix :
    (name : Bytes) (s : Bytes)
    → Lacks b'[' name
    → cut_index (name ++ b'[' ∷ s) ≡ (name, some (b'[' ∷ s))
unfolding cut_index
cut_index-suffix [] s h = refl
cut_index-suffix (c ∷ name) s (hc, h) = ground (arith, cut_index-suffix name s h)

cut_index-none : (name : Bytes) → Lacks b'[' name → cut_index name ≡ (name, none)
unfolding cut_index
cut_index-none [] h = refl
cut_index-none (c ∷ name) (hc, h) = ground (arith, cut_index-none name h)

parse_index-some :
    (s : Bytes) (i : Index) → parse_index_key s ≡ ok i → parse_index (some s) ≡ ok (some i)
unfolding parse_index
parse_index-some s i h = rw h

index_text_bracket : (i : Index) → (t : Bytes) × (index_text i ≡ b'[' ∷ t)
unfolding index_text
index_text_bracket (key k) = (_, refl)
index_text_bracket (count z) = (_, refl)

parse_index-suffix :
    (name : Bytes) (index : Option Index)
    → Lacks b'[' name
    → IsPrintable index
    → (cut_index (name ++ suffix_text index)).0 ≡ name
      × (parse_index (cut_index (name ++ suffix_text index)).1 ≡ ok index)
unfolding suffix_text
parse_index-suffix name none hn h =
    rw append-nil (rw (cut_index-none name hn) (refl, unfold parse_index in refl))
parse_index-suffix name (some i) hn h =
    let (t, e) = index_text_bracket i in
    let parsed = subst (λ s. parse_index_key s ≡ ok i) e (parse_index_key-index_text i h) in
    rw (e, cut_index-suffix name t hn) (refl, parse_index-some _ i parsed)

-- The parts of the whole text: those of the module path, the type, and those of the rest.
split-module_text :
    (mods : List Bytes) (typ rest : Bytes)
    → All (Lacks b'.') mods
    → Lacks b'.' typ
    → split b'.' (module_text mods (typ ++ b'.' ∷ rest))
      ≡ module_parts mods ++ typ ∷ split b'.' rest
unfolding module_text module_parts
split-module_text [] typ rest hm ht = split_cons b'.' typ rest ht
split-module_text (m ∷ ms) typ rest (hm, hms) ht =
    split_cons b'.' (codes "module") (m ++ b'.' ∷ module_text ms (typ ++ b'.' ∷ rest)) (omega arith)
    ∙ rw (split_cons b'.' m (module_text ms (typ ++ b'.' ∷ rest)) hm)
        (rw (split-module_text ms typ rest hms ht))

take_modules-parts :
    (mods : List Bytes) (typ p : Bytes) (ps : List Bytes)
    → typ ≢ codes "module"
    → take_modules (module_parts mods ++ typ ∷ p ∷ ps) ≡ (module_parts mods, typ ∷ p ∷ ps)
unfolding take_modules module_parts
take_modules-parts [] typ p ps h = ground (arith, str_eq_iff typ (codes "module"))
take_modules-parts (m ∷ ms) typ p ps h =
    rw (take_modules-parts ms typ p ps h, str_eq_refl (codes "module"))

parse_rest_lem :
    (addr : Bytes) (mods : List Bytes) (typ name : Bytes) (index : Option Index) (p : Bytes)
    (ps : List Bytes)
    → (cut_index (join b'.' (p ∷ ps))).0 ≡ name
    → parse_index (cut_index (join b'.' (p ∷ ps))).1 ≡ ok index
    → parse_rest addr mods (typ ∷ p ∷ ps)
      ≡ ok (record { module_path = join b'.' mods; typ = typ; name = name; index = index })
unfolding parse_rest
parse_rest_lem addr mods typ name index p ps same parsed = rw (same, parsed)

parse_rest-split :
    (addr : Bytes) (mods : List Bytes) (typ name : Bytes) (index : Option Index) (p : Bytes)
    (ps : List Bytes)
    → Lacks b'[' name
    → IsPrintable index
    → split b'.' (name ++ suffix_text index) ≡ p ∷ ps
    → parse_rest addr mods (typ ∷ p ∷ ps)
      ≡ ok (record { module_path = join b'.' mods; typ = typ; name = name; index = index })
parse_rest-split addr mods typ name index p ps hn h e =
    let text = name ++ suffix_text index in
    let joined : join b'.' (p ∷ ps) ≡ text = rw e at (join-split b'.' text) in
    let (same, parsed) = parse_index-suffix name index hn h in
    parse_rest_lem addr mods typ name index p ps (rw joined same) (rw joined parsed)

is_empty-module_text :
    (mods : List Bytes) (typ rest : Bytes)
    → is_empty (module_text mods (typ ++ b'.' ∷ rest)) ≡ false
unfolding is_empty module_text
is_empty-module_text [] [] rest = refl
is_empty-module_text [] (c ∷ typ) rest = refl
is_empty-module_text (m ∷ ms) typ rest = refl

-- The text of an address is read back as that address: the module path is the joined pairs of its
-- modules, and the type, the name and the instance index are those written. The module names and
-- the type have no dot, the type is not the word `module`, the name has no opening bracket, a
-- for_each key needs no escape, a count index is an int64, and the text has no white space at its
-- ends.
pub parse_address-address_text :
    (mods : List Bytes) (typ name : Bytes) (index : Option Index)
    → All (Lacks b'.') mods
    → Lacks b'.' typ
    → typ ≢ codes "module"
    → Lacks b'[' name
    → IsPrintable index
    → trim_space (address_text mods typ name index) ≡ address_text mods typ name index
    → parse_address (address_text mods typ name index)
      ≡ ok (record {
        module_path = join b'.' (module_parts mods);
        typ = typ;
        name = name;
        index = index;
      })
unfolding parse_address address_text
parse_address-address_text mods typ name index hm ht hw hn h trimmed =
    let rest = name ++ suffix_text index in
    let (p, ps, e) = split_head b'.' rest in
    rw (trimmed, is_empty-module_text mods typ rest, split-module_text mods typ rest hm ht, e)
      (rw (take_modules-parts mods typ p ps hw) (
        parse_rest-split (address_text mods typ name index) (module_parts mods) typ name index p ps
          hn h e))
