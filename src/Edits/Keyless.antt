-- ===== src/Edits/Keyless.antt =====
-- statesource/httpbackend.go as far as the handlers see it: a source holds one state, whatever the
-- key. The interface of the connectors can be met by a backend in which locations share an object.
use terraform_state_manager.Prelude.{
  true, false, [], Option, none, some, ◌≡◌, refl, ap, Bytes, arith, if◌then◌else◌, str_eq,
  str_eq_iff, str_eq_refl, Bool-cases, inl, inr, ◌⊎◌,
}
use terraform_state_manager.Edits.Store.{Store}
use terraform_state_manager.Edits.Memory.{reply_of, deletion_of, reply_found, reply_missing}

abbrev pub Sources : Type 0
Sources = Bytes → Option Bytes

abbrev pub swap : Option Bytes → Bytes → Sources → Sources
swap o s m s2 = if str_eq s s2 then o else m s2

abbrev pub object : Bytes → Bytes → Bytes × Bytes
object s k = (s, [])

pub swap_there : (o : Option Bytes) (s : Bytes) (m : Sources) → swap o s m s ≡ o
swap_there o s m = rw (str_eq_refl s) refl

pub swap_elsewhere :
    (o : Option Bytes) (s k : Bytes) (m : Sources) (s2 k2 : Bytes)
    → (object s k ≡ object s2 k2) ⊎ (swap o s m s2 ≡ m s2)
swap_elsewhere o s k m s2 k2 = elim (Bool-cases (str_eq s s2)) [
  | inl same ↦ let e : s ≡ s2 = ground (arith, same, str_eq_iff s s2) in inl (ap (λ x. (x, [])) e)
  | inr other ↦ inr (rw other refl)
]

abbrev pub keyless : Store Sources
keyless = record {
  read = λ s k m. (reply_of (m s), m);
  write = λ s k d m. (true, swap (some d) s m);
  delete = λ s k m. (deletion_of (m s), swap none s m);
  is_locker = λ s. false;
  lock = λ s k m. (none, m);
  unlock = λ s k i m. m;
  place = object;
  content = λ s k m. m s;
  content_of_place = λ s k s2 k2 m e. ap (λ p. m p.0) e;
  read_same = λ s k s2 k2 m. refl;
  read_found = λ s k d m h. reply_found (m s) d h;
  read_missing = λ s k m h. reply_missing (m s) h;
  lock_same = λ s k s2 k2 m. refl;
  unlock_same = λ s k i s2 k2 m. refl;
  write_there = λ s k d m h. swap_there (some d) s m;
  write_elsewhere = λ s k d s2 k2 m. swap_elsewhere (some d) s k m s2 k2;
  delete_there = λ s k m h. swap_there none s m;
  delete_elsewhere = λ s k s2 k2 m. swap_elsewhere none s k m s2 k2;
}
