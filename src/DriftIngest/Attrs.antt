-- ===== src/DriftIngest/Attrs.antt =====
-- plan.go: the changed attributes of a resource, with masking and the cap on their number. The text
-- of a float64, the test whether it is zero and the test whether it is in range are parameters, of the
-- literal in the plan.
use terraform_state_manager.Prelude.{
  ℕ, ◌+◌, List, [], ◌∷◌, ◌++◌, Bool, true, false, Option, none, some, Bytes, codes, if◌then◌else◌,
  leb, ◌&&◌, ◌||◌, not, length, Map, lookup, keys, member, sort_strings,
}
use terraform_state_manager.Json.{
  Json, null, bool, num, str, arr, obj, Items, nil, cons, Fields, end, field, entries,
}
use terraform_state_manager.DriftIngest.Canon.{json_equal, fmt_val}

-- strconv on number literals, as far as the package needs it.
pub record Floats : Type 0 where
  pub number : Bytes → Bytes
  pub is_zero : Bytes → Bool
  pub in_range : Bytes → Bool

pub record Change : Type 0 where
  pub actions : List Bytes
  pub before : Option Json
  pub after : Option Json
  pub before_sensitive : Option Json
  pub after_sensitive : Option Json

pub record AttrChange : Type 0 where
  pub name : Bytes
  pub before : Option Bytes
  pub after : Option Bytes

-- asObject: null, the empty message and any other kind of value are no object.
unfoldable pub as_object : Option Json → Option (Map Json)
unfolding entries
as_object (some (obj fs)) = some (entries fs)
as_object _ = none

unfoldable pub distinct : List Bytes → List Bytes
unfolding member
distinct [] = []
distinct (k ∷ ks) = let rest = distinct ks in if member k ks then rest else k ∷ rest

unfoldable pub sorted_union : Map Json → Map Json → List Bytes
unfolding distinct sort_strings keys
sorted_union a b = sort_strings (distinct (keys a ++ keys b))

unfoldable pub is_nonempty_array : Items → Bool
is_nonempty_array nil = false
is_nonempty_array (cons x xs) = true

unfoldable pub is_nonempty_object : Fields → Bool
is_nonempty_object end = false
is_nonempty_object (field k v fs) = true

-- What a mark on one attribute says: true, or a nested object or array that is not empty.
unfoldable pub marks : Option Json → Bool
unfolding is_nonempty_array is_nonempty_object
marks (some (bool b)) = b
marks (some (obj fs)) = is_nonempty_object fs
marks (some (arr xs)) = is_nonempty_array xs
marks _ = false

-- Whether json.Unmarshal can decode a value into an interface: no number in it, however deep, is out
-- of the range of a float64.
unfoldable mutual
  pub decodes : (Bytes → Bool) → Json → Bool
  decodes in_range null = true
  decodes in_range (bool b) = true
  decodes in_range (num s) = in_range s
  decodes in_range (str s) = true
  decodes in_range (arr xs) = items_decode in_range xs
  decodes in_range (obj fs) = fields_decode in_range fs

  pub items_decode : (Bytes → Bool) → Items → Bool
  items_decode in_range nil = true
  items_decode in_range (cons x xs) = decodes in_range x && items_decode in_range xs

  pub fields_decode : (Bytes → Bool) → Fields → Bool
  fields_decode in_range end = true
  fields_decode in_range (field k v fs) = decodes in_range v && fields_decode in_range fs

module _ (floats : Floats) where
  unfoldable pub py_truthy : Json → Bool
  unfolding is_nonempty_array is_nonempty_object
  py_truthy null = false
  py_truthy (bool b) = b
  py_truthy (num s) = not (floats.is_zero s)
  py_truthy (str []) = false
  py_truthy (str (c ∷ s)) = true
  py_truthy (arr xs) = is_nonempty_array xs
  py_truthy (obj fs) = is_nonempty_object fs

  -- What a decoded mirror says of a key.
  unfoldable pub mirror_marks : Json → Bytes → Bool
  unfolding marks py_truthy entries
  mirror_marks (obj fs) k = marks (lookup k (entries fs))
  mirror_marks v k = py_truthy v

  -- A mirror that cannot be decoded marks nothing.
  unfoldable pub is_sens : Option Json → Bytes → Bool
  unfolding decodes mirror_marks
  is_sens none k = false
  is_sens (some v) k = if decodes floats.in_range v then mirror_marks v k else false

  unfoldable pub mask_or_fmt : Bool → Option Json → Option Bytes
  unfolding fmt_val
  mask_or_fmt sensitive v =
      if sensitive then some (codes "(sensitive)") else fmt_val floats.number v

  unfoldable pub attr_change : Change → Map Json → Map Json → Bytes → AttrChange
  unfolding is_sens mask_or_fmt
  attr_change ch before after k =
      let sensitive = is_sens ch.before_sensitive k || is_sens ch.after_sensitive k in
      record {
        name = k;
        before = mask_or_fmt sensitive (lookup k before);
        after = mask_or_fmt sensitive (lookup k after);
      }

  -- The loop over the keys, with the attributes so far and the number of those left out.
  unfoldable pub attr_loop :
      Change → ℕ → Map Json → Map Json → List Bytes → List AttrChange → ℕ → List AttrChange × ℕ
  unfolding json_equal attr_change
  attr_loop ch max_attrs before after [] attrs omitted = (attrs, omitted)
  attr_loop ch max_attrs before after (k ∷ ks) attrs omitted =
      let same = attr_loop ch max_attrs before after ks attrs omitted in
      let dropped = attr_loop ch max_attrs before after ks attrs (omitted + 1) in
      let added =
        attr_loop ch max_attrs before after ks (attrs ++ attr_change ch before after k ∷ [])
          omitted in
      if json_equal floats.number (lookup k before) (lookup k after)
      then same
      else if leb max_attrs (length attrs)
      then dropped
      else added

  -- The loop when both sides are objects; otherwise the change is not in place.
  unfoldable pub attrs_between :
      Change → ℕ → Option (Map Json) → Option (Map Json) → List AttrChange × ℕ × Bool
  unfolding sorted_union attr_loop
  attrs_between ch max_attrs (some b) (some a) =
      let (attrs, omitted) = attr_loop ch max_attrs b a (sorted_union b a) [] 0 in
      (attrs, omitted, true)
  attrs_between ch max_attrs _ _ = ([], 0, false)

  -- The attributes, the number left out, and whether the change is in place.
  unfoldable pub changed_attrs : Change → ℕ → List AttrChange × ℕ × Bool
  unfolding as_object attrs_between
  changed_attrs ch max_attrs = attrs_between ch max_attrs (as_object ch.before) (as_object ch.after)
