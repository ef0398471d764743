-- ===== src/Analyzer/Sums.antt =====
-- analyzer.go: what the loop of Analyze adds to its counters, as sums over the blocks of the state.
use terraform_state_manager.Prelude.{
  ℕ, ◌+◌, List, [], ◌∷◌, Bool, ◌≡◌, refl, Bytes, arith, if◌then◌else◌, ◌&&◌, not, str_eq, str_eq→eq,
  length, Map, lookup, insert, Bool-cases, inl, inr,
}
use terraform_state_manager.Analyzer.Labels.{normalize_provider, module_label}
use terraform_state_manager.Analyzer.Legacy.{Resource}
use terraform_state_manager.Analyzer.Analyze.{
  Count, Tally, or_zero, add_count, is_data, is_null_type, count_managed, count_one, count_all,
  comes_before, insert_count, sorted_counts,
}

-- The instances of the blocks that pass a test.
pub size : (Resource → Bool) → List Resource → ℕ
size p [] = 0
size p (r ∷ rs) = let rest = size p rs in if p r then length r.instances + rest else rest

abbrev pub is_managed : Resource → Bool
is_managed r = not (is_data r)

-- The counts of the labels that pass a test.
pub counted : (Bytes → Bool) → List Count → ℕ
counted p [] = 0
counted p (c ∷ cs) = let rest = counted p cs in if p c.name then c.count + rest else rest

module _ (p : Bytes → Bool) where
  unfoldable pub of_map : Map ℕ → ℕ
  of_map [] = 0
  of_map ((k, n) ∷ m) = let rest = of_map m in if p k then n + rest else rest

  -- A write of `v` replaces the count that was there.
  insert_sum :
      (k : Bytes) (v : ℕ) (m : Map ℕ)
      → of_map (insert k v m) + (if p k then or_zero (lookup k m) else 0)
        ≡ of_map m + (if p k then v else 0)
  unfolding of_map lookup insert
  insert_sum k v [] = ground arith
  insert_sum k v ((j, w) ∷ m) = elim (Bool-cases (str_eq j k)) [
    | inl e ↦ rw (e, str_eq→eq j k e) (ground arith)
    | inr e ↦ ground (arith, e, insert_sum k v m)
  ]

  add_arith :
      (b : Bool) (x y o n : ℕ)
      → x + (if b then o else 0) ≡ y + (if b then o + n else 0)
      → x ≡ y + (if b then n else 0)
  add_arith b x y o n h = ground (arith, h)

  of_map-add_count :
      (k : Bytes) (n : ℕ) (m : Map ℕ) → of_map (add_count k n m) ≡ of_map m + (if p k then n else 0)
  unfolding add_count
  of_map-add_count k n m =
      add_arith (p k) (of_map (insert k (or_zero (lookup k m) + n) m)) (of_map m)
        (or_zero (lookup k m)) n (insert_sum k (or_zero (lookup k m) + n) m)

  swap_arith :
      (b d : Bool) (x y z : ℕ)
      → (if b then x + (if d then y + z else z) else (if d then y + z else z))
        ≡ (if d then y + (if b then x + z else z) else (if b then x + z else z))
  swap_arith b d x y z = ground arith

  counted-insert_count :
      (c : Count) (cs : List Count)
      → counted p (insert_count c cs) ≡ (if p c.name then c.count + counted p cs else counted p cs)
  unfolding counted insert_count
  counted-insert_count c [] = refl
  counted-insert_count c (d ∷ ds) = elim (Bool-cases (comes_before d c)) [
    | inl e ↦ rw e (
        rw (counted-insert_count c ds)
          (swap_arith (p d.name) (p c.name) d.count c.count (counted p ds)))
    | inr e ↦ rw e refl
  ]

  pub counted-sorted_counts : (m : Map ℕ) → counted p (sorted_counts m) ≡ of_map m
  unfolding sorted_counts of_map
  counted-sorted_counts [] = unfold counted in refl
  counted-sorted_counts ((k, n) ∷ m) =
      rw
        (
          counted-insert_count (record { name = k; count = n }) (sorted_counts m),
          counted-sorted_counts m,
        )
        refl

-- What the loop adds to each counter.
pub record Grown (rs : List Resource) (t t' : Tally) : Type 0 where
  pub data_sources : t'.data_sources ≡ t.data_sources + size is_data rs
  pub managed : t'.managed ≡ t.managed + size is_managed rs
  pub nulls : t'.nulls ≡ t.nulls + size (λ r. is_managed r && is_null_type r) rs
  pub types :
      (p : Bytes → Bool)
      → of_map p t'.types ≡ of_map p t.types + size (λ r. is_managed r && p r.typ) rs
  pub providers :
      (p : Bytes → Bool)
      → of_map p t'.providers
        ≡ of_map p t.providers
          + size (λ r. is_managed r && p (normalize_provider r.provider r.typ)) rs
  pub modules :
      (p : Bytes → Bool)
      → of_map p t'.modules
        ≡ of_map p t.modules + size (λ r. is_managed r && p (module_label r.mod_path)) rs

count_one-Grown : (r : Resource) (t : Tally) → Grown (r ∷ []) t (count_one r t)
count_one-Grown r t = record {
  data_sources = unfold count_one count_managed size in ground arith;
  managed = unfold count_one count_managed size in ground arith;
  nulls = unfold count_one count_managed size in ground arith;
  types = λ p.
      unfold count_one count_managed size in
      ground (arith, of_map-add_count p r.typ (length r.instances) t.types);
  providers = λ p.
      unfold count_one count_managed size in
      ground (
        arith,
        of_map-add_count p (normalize_provider r.provider r.typ) (length r.instances) t.providers,
      );
  modules = λ p.
      unfold count_one count_managed size in
      ground (arith, of_map-add_count p (module_label r.mod_path) (length r.instances) t.modules);
}

size-cons :
    (p : Resource → Bool) (r : Resource) (rs : List Resource)
    → size p (r ∷ rs) ≡ size p (r ∷ []) + size p rs
unfolding size
size-cons p r rs = ground arith

-- Two steps of growth are one.
chain : (a b c x y : ℕ) → b ≡ a + x → c ≡ b + y → c ≡ a + (x + y)
chain a b c x y h k = omega (arith, h, k)

joined :
    (p : Resource → Bool) (r : Resource) (rs : List Resource) (a b c : ℕ)
    → b ≡ a + size p (r ∷ [])
    → c ≡ b + size p rs
    → c ≡ a + size p (r ∷ rs)
joined p r rs a b c h k = rw (size-cons p r rs) (chain a b c (size p (r ∷ [])) (size p rs) h k)

count_all-cons :
    (r : Resource) (rs : List Resource) (t : Tally)
    → count_all (r ∷ rs) t ≡ count_all rs (count_one r t)
unfolding count_all
count_all-cons r rs t = refl

pub count_all-Grown : (rs : List Resource) (t : Tally) → Grown rs t (count_all rs t)
count_all-Grown [] t = record {
  data_sources = unfold count_all size in omega arith;
  managed = unfold count_all size in omega arith;
  nulls = unfold count_all size in omega arith;
  types = λ p. unfold count_all size in omega arith;
  providers = λ p. unfold count_all size in omega arith;
  modules = λ p. unfold count_all size in omega arith;
}
count_all-Grown (r ∷ rs) t =
    let one = count_one-Grown r t in
    let ih = count_all-Grown rs (count_one r t) in
    let step = count_all-cons r rs t in
    record {
      data_sources = rw step (joined is_data r rs _ _ _ one.data_sources ih.data_sources);
      managed = rw step (joined is_managed r rs _ _ _ one.managed ih.managed);
      nulls = rw step (joined (λ r. is_managed r && is_null_type r) r rs _ _ _ one.nulls ih.nulls);
      types = λ p.
          rw step (joined (λ r. is_managed r && p r.typ) r rs _ _ _ (one.types p) (ih.types p));
      providers = λ p. rw step (
          joined (λ r. is_managed r && p (normalize_provider r.provider r.typ)) r rs _ _ _
            (one.providers p) (ih.providers p));
      modules = λ p. rw step (
          joined (λ r. is_managed r && p (module_label r.mod_path)) r rs _ _ _ (one.modules p)
            (ih.modules p));
    }

pub size-split :
    (p q : Resource → Bool) (rs : List Resource)
    → size p rs ≡ size (λ r. p r && q r) rs + size (λ r. p r && not (q r)) rs
unfolding size
size-split p q [] = omega arith
size-split p q (r ∷ rs) = ground (arith, size-split p q rs)

-- The analysis of a state that passes the check.
