-- ===== src/Edits/Memory.antt =====
-- A backend in memory, without locks of its own and without failures, to run the handlers on: the
-- interface can be met.
use terraform_state_manager.Prelude.{
  true, false, Option, none, some, ◌≡◌, refl, ap, Bytes, arith, if◌then◌else◌, ◌&&◌, str_eq,
  str_eq_iff, str_eq_refl, Bool-cases, inl, inr, ◌⊎◌,
}
use terraform_state_manager.Edits.Store.{Store, Reply, found, missing, Deletion, deleted, absent}

abbrev pub Memory : Type 0
Memory = Bytes → Bytes → Option Bytes

abbrev pub reply_of : Option Bytes → Reply
reply_of none = missing
reply_of (some d) = found d

abbrev pub deletion_of : Option Bytes → Deletion
deletion_of none = absent
deletion_of (some d) = deleted

abbrev pub put : Option Bytes → Bytes → Bytes → Memory → Memory
put o s k m s2 k2 = if str_eq s s2 && str_eq k k2 then o else m s2 k2

pub reply_found : (o : Option Bytes) (d : Bytes) → reply_of o ≡ found d → o ≡ some d
reply_found none d h = cc
reply_found (some x) d h = cc

pub reply_missing : (o : Option Bytes) → reply_of o ≡ missing → o ≡ none
reply_missing none h = refl
reply_missing (some x) h = cc

pub put_there : (o : Option Bytes) (s k : Bytes) (m : Memory) → put o s k m s k ≡ o
put_there o s k m = rw (str_eq_refl s) (rw (str_eq_refl k) refl)

pub put_elsewhere :
    (o : Option Bytes) (s k : Bytes) (m : Memory) (s2 k2 : Bytes)
    → (◌≡◌ {A = Bytes × Bytes} (s, k) (s2, k2)) ⊎ (put o s k m s2 k2 ≡ m s2 k2)
put_elsewhere o s k m s2 k2 = elim (Bool-cases (str_eq s s2 && str_eq k k2)) [
  | inl same ↦
      let both : (s ≡ s2) × (k ≡ k2) = ground (arith, same, str_eq_iff s s2, str_eq_iff k k2) in
      inl (rw both.0 (rw both.1 refl))
  | inr other ↦ inr (rw other refl)
]

abbrev pub memory : Store Memory
memory = record {
  read = λ s k m. (reply_of (m s k), m);
  write = λ s k d m. (true, put (some d) s k m);
  delete = λ s k m. (deletion_of (m s k), put none s k m);
  is_locker = λ s. false;
  lock = λ s k m. (none, m);
  unlock = λ s k i m. m;
  place = λ s k. (s, k);
  content = λ s k m. m s k;
  content_of_place = λ s k s2 k2 m e. ap (λ p. m p.0 p.1) e;
  read_same = λ s k s2 k2 m. refl;
  read_found = λ s k d m h. reply_found (m s k) d h;
  read_missing = λ s k m h. reply_missing (m s k) h;
  lock_same = λ s k s2 k2 m. refl;
  unlock_same = λ s k i s2 k2 m. refl;
  write_there = λ s k d m h. put_there (some d) s k m;
  write_elsewhere = λ s k d s2 k2 m. put_elsewhere (some d) s k m s2 k2;
  delete_there = λ s k m h. put_there none s k m;
  delete_elsewhere = λ s k s2 k2 m. put_elsewhere none s k m s2 k2;
}
