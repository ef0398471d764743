-- ===== src/Edits/Previews.antt =====
-- edit.go: the buckets of diffResources, described without maps.
use terraform_state_manager.Prelude.{
  List, [], ◌∷◌, Bool, true, false, Option, none, some, Bytes, if◌then◌else◌, ◌&&◌, ◌||◌, not,
  str_eq, Map, lookup, insert, lookup-insert, ◌≡◌, ◌≢◌, refl, sym, ◌∙◌, inl, inr, ◌⊎◌, ◌==◌,
  Bool-cases, All, str_eq_refl, select, any, arith,
}
use terraform_state_manager.Json.{Json}
use terraform_state_manager.Analyzer.Listing.{ResourceSummary}
use terraform_state_manager.Edits.Diff.{
  Diff, resource_key, index_by, key_set, keep_absent, removed_loop, is_changed, sort_in,
  proposed_loop, diff_resources,
}

-- Some resource of the list has the identity.
abbrev pub has_key : Bytes → List ResourceSummary → Bool
has_key k rs = any (λ r. str_eq (resource_key r) k) rs

abbrev pub or_else {ℓ} : {A : Type ℓ} → Option A → Option A → Option A
or_else none other = other
or_else (some a) other = some a

-- The last resource of the list with the identity.
abbrev pub last_of : Bytes → List ResourceSummary → Option ResourceSummary
last_of k [] = none
last_of k (r ∷ rs) = or_else (last_of k rs) (if str_eq (resource_key r) k then some r else none)

last_of-step :
    (k : Bytes) (r : ResourceSummary) (o : Option ResourceSummary) (m : Map ResourceSummary)
    → or_else o (lookup k (insert (resource_key r) r m))
      ≡ or_else (or_else o (if str_eq (resource_key r) k then some r else none)) (lookup k m)
last_of-step k r none m = ground (arith, lookup-insert (resource_key r) k r m)
last_of-step k r (some a) m = refl

lookup-index_by :
    (k : Bytes) (rs : List ResourceSummary) (m : Map ResourceSummary)
    → lookup k (index_by rs m) ≡ or_else (last_of k rs) (lookup k m)
unfolding index_by
lookup-index_by k [] m = refl
lookup-index_by k (r ∷ rs) m =
    lookup-index_by k rs (insert (resource_key r) r m) ∙ last_of-step k r (last_of k rs) m

abbrev is_none {ℓ} : {A : Type ℓ} → Option A → Bool
is_none none = true
is_none (some a) = false

lookup-key_set :
    (k : Bytes) (rs : List ResourceSummary) (m : Map {0} Unit)
    → is_none (lookup k (key_set rs m)) ≡ not (has_key k rs || not (is_none (lookup k m)))
unfolding key_set
lookup-key_set k [] m = ground arith
lookup-key_set k (r ∷ rs) m = ground (
  arith,
  lookup-key_set k rs (insert (resource_key r) tt m),
  lookup-insert (resource_key r) k tt m,
)

-- What the last entry of the current resources, if any, says of a proposed one.
abbrev pub is_changed_from : (List Json → Bytes) → ResourceSummary → Option ResourceSummary → Bool
is_changed_from sprint p none = false
is_changed_from sprint p (some cr) = is_changed sprint cr p

is_none-or_else {ℓ} :
    {A : Type ℓ} (o other : Option A) → is_none (or_else o other) ≡ (is_none o && is_none other)
is_none-or_else none other = refl
is_none-or_else (some a) other = refl

last_of-has_key :
    (k : Bytes) (rs : List ResourceSummary) → is_none (last_of k rs) ≡ not (has_key k rs)
last_of-has_key k [] = refl
last_of-has_key k (r ∷ rs) = ground (
  arith,
  last_of-has_key k rs,
  is_none-or_else (last_of k rs) (if str_eq (resource_key r) k then some r else none),
)

or_else-none {ℓ} : {A : Type ℓ} (o : Option A) → or_else o none ≡ o
or_else-none none = refl
or_else-none (some a) = refl

lookup-current : (k : Bytes) (rs : List ResourceSummary) → lookup k (index_by rs []) ≡ last_of k rs
unfolding lookup
lookup-current k rs = lookup-index_by k rs [] ∙ or_else-none (last_of k rs)

module _ (sprint : List Json → Bytes) where
  sort_in-buckets :
      (p : ResourceSummary) (o : Option ResourceSummary) (d : Diff)
      → ((sort_in sprint p o d).added ≡ (if is_none o then p ∷ d.added else d.added))
        × ((sort_in sprint p o d).changed
            ≡ (if is_changed_from sprint p o then p ∷ d.changed else d.changed))
        × ((sort_in sprint p o d).removed ≡ d.removed)
  unfolding sort_in
  sort_in-buckets p none d = (refl, refl, refl)
  sort_in-buckets p (some cr) d = ground arith

  proposed_loop-buckets :
      (current ps removed : List ResourceSummary)
      → ((proposed_loop sprint (index_by current []) ps removed).added
          ≡ select (λ p. not (has_key (resource_key p) current)) ps)
        × ((proposed_loop sprint (index_by current []) ps removed).changed
            ≡ select (λ p. is_changed_from sprint p (last_of (resource_key p) current)) ps)
        × ((proposed_loop sprint (index_by current []) ps removed).removed ≡ removed)
  unfolding proposed_loop
  proposed_loop-buckets current [] removed = (refl, refl, refl)
  proposed_loop-buckets current (p ∷ ps) removed =
      let (ha, hc, hr) = proposed_loop-buckets current ps removed in
      let rest = proposed_loop sprint (index_by current []) ps removed in
      let (a, c, r) = sort_in-buckets p (last_of (resource_key p) current) rest in
      rw (lookup-current (resource_key p) current)
        (a ∙ rw (last_of-has_key (resource_key p) current, ha) refl, c ∙ rw hc refl, r ∙ hr)

keep_absent-buckets :
    (r : ResourceSummary) (o : Option {0} Unit) (rest : List ResourceSummary)
    → keep_absent r o rest ≡ (if is_none o then r ∷ rest else rest)
unfolding keep_absent
keep_absent-buckets r none rest = refl
keep_absent-buckets r (some _) rest = refl

removed_loop-select :
    (proposed rs : List ResourceSummary)
    → removed_loop (key_set proposed []) rs
      ≡ select (λ r. not (has_key (resource_key r) proposed)) rs
unfolding removed_loop
removed_loop-select proposed [] = refl
removed_loop-select proposed (r ∷ rs) =
    keep_absent-buckets r (lookup (resource_key r) (key_set proposed []))
      (removed_loop (key_set proposed []) rs)
    ∙ rw (lookup-key_set (resource_key r) proposed [], removed_loop-select proposed rs)
        (ground arith)

-- The buckets by the text of the keys.
pub diff_resources-buckets :
    (sprint : List Json → Bytes) (proposed current : List ResourceSummary)
    → ((diff_resources sprint proposed current).added
        ≡ select (λ p. not (has_key (resource_key p) current)) proposed)
      × ((diff_resources sprint proposed current).changed
          ≡ select (λ p. is_changed_from sprint p (last_of (resource_key p) current)) proposed)
      × ((diff_resources sprint proposed current).removed
          ≡ select (λ r. not (has_key (resource_key r) proposed)) current)
unfolding diff_resources
diff_resources-buckets sprint proposed current =
    let (a, c, r) =
      proposed_loop-buckets sprint current proposed (removed_loop (key_set proposed []) current) in
    (a, c, r ∙ removed_loop-select proposed current)

-- The last current resource of the identity has another number of instances.
abbrev pub is_recounted : ResourceSummary → Option ResourceSummary → Bool
is_recounted p none = false
is_recounted p (some cr) = not (cr.instances == p.instances)

-- The proposed resource differs from a current one, in the number of instances or in their keys.
unfoldable pub IsChange : ResourceSummary → Option ResourceSummary → Type 0
IsChange p none = ⊥
IsChange p (some cr) = (cr.instances ≢ p.instances) ⊎ (cr.instance_keys ≢ p.instance_keys)

false_ne_true : false ≡ true → ⊥
false_ne_true h = ground (arith, h)

module _ (sprint : List Json → Bytes) where
  other_keys :
      (cr p : ResourceSummary)
      → str_eq (sprint cr.instance_keys) (sprint p.instance_keys) ≡ false
      → cr.instance_keys ≢ p.instance_keys
  other_keys cr p h e = false_ne_true (sym h ∙ rw e (str_eq_refl (sprint p.instance_keys)))

  other_count :
      (cr p : ResourceSummary) → (cr.instances == p.instances) ≡ false → cr.instances ≢ p.instances
  other_count cr p h e = ground (arith, h, e)

  is_changed_from-IsChange :
      (p : ResourceSummary) (o : Option ResourceSummary)
      → is_changed_from sprint p o ≡ true
      → IsChange p o
  unfolding IsChange is_changed
  is_changed_from-IsChange p none h = absurd (false_ne_true h)
  is_changed_from-IsChange p (some cr) h = elim (Bool-cases (cr.instances == p.instances)) [
    | inl e ↦ inr (other_keys cr p (ground (arith, e, h)))
    | inr e ↦ inl (other_count cr p e)
  ]

  recounted_changed :
      (p : ResourceSummary) (o : Option ResourceSummary)
      → is_changed_from sprint p o ≡ false
      → is_recounted p o ≡ false
  unfolding is_changed
  recounted_changed p none h = refl
  recounted_changed p (some cr) h = ground (arith, h)

  All-changed :
      (current ps : List ResourceSummary)
      → All
          (λ p. IsChange p (last_of (resource_key p) current))
          (select (λ p. is_changed_from sprint p (last_of (resource_key p) current)) ps)
  All-changed current [] = tt
  All-changed current (p ∷ ps) =
      let o = last_of (resource_key p) current in
      elim (Bool-cases (is_changed_from sprint p o)) [
        | inl e ↦ rw e (is_changed_from-IsChange p o e, All-changed current ps)
        | inr e ↦ rw e (All-changed current ps)
      ]

  select-recounted :
      (current ps : List ResourceSummary)
      → select
          (λ p. is_recounted p (last_of (resource_key p) current))
          (select (λ p. is_changed_from sprint p (last_of (resource_key p) current)) ps)
        ≡ select (λ p. is_recounted p (last_of (resource_key p) current)) ps
  select-recounted current [] = refl
  select-recounted current (p ∷ ps) =
      let o = last_of (resource_key p) current in
      elim (Bool-cases (is_changed_from sprint p o)) [
        | inl e ↦ rw e (rw (select-recounted current ps) refl)
        | inr e ↦ rw e (rw (recounted_changed p o e) (select-recounted current ps))
      ]

  -- Of any two lists, `added` is the proposed resources whose identity no current one has, and
  -- `removed` the current ones whose identity no proposed one has, each in the order of its list.
  -- Every resource in `changed` differs from the last current one of its identity, in the number of
  -- instances or in their keys, and all the proposed ones that differ in the number are there, in
  -- their order.
  pub diff_resources_lem :
      (proposed current : List ResourceSummary)
      → let d = diff_resources sprint proposed current in
        (d.added ≡ select (λ p. not (has_key (resource_key p) current)) proposed)
        × (d.removed ≡ select (λ r. not (has_key (resource_key r) proposed)) current)
        × All (λ p. IsChange p (last_of (resource_key p) current)) d.changed
        × (select (λ p. is_recounted p (last_of (resource_key p) current)) d.changed
            ≡ select (λ p. is_recounted p (last_of (resource_key p) current)) proposed)
  diff_resources_lem proposed current =
      let (a, c, r) = diff_resources-buckets sprint proposed current in
      (a, r, rw c (All-changed current proposed), rw c (select-recounted current proposed))
