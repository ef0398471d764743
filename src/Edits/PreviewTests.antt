-- ===== src/Edits/PreviewTests.antt =====
-- Concrete previews, on states with one resource for each letter.
use terraform_state_manager.Prelude.{
  ℕ, List, [], ◌∷◌, ◌++◌, true, false, none, some, ◌≡◌, ◌≢◌, refl, All, Bytes, codes, length,
  str_eq, map, not, select, if◌then◌else◌, ok, err,
}
use terraform_state_manager.Prelude.Int.{pos}
use terraform_state_manager.Json.{Json, null, str}
use terraform_state_manager.Analyzer.Analyze.{analyze}
use terraform_state_manager.Analyzer.Legacy.{Resource}
use terraform_state_manager.Analyzer.Listing.{ResourceSummary}
use terraform_state_manager.Edits.World.{World, Call}
use terraform_state_manager.Edits.Guarded.{Codec, done, edit_state}
use terraform_state_manager.Edits.Store.{found, broken}
use terraform_state_manager.Edits.Memory.{Memory, memory}
use terraform_state_manager.Edits.Diff.{Preview, resource_key, diff_resources, edit_diff}
use terraform_state_manager.Edits.Previews.{
  has_key, last_of, is_recounted, IsChange, diff_resources_lem,
}
use terraform_state_manager.Edits.Reflected.{IsEmptyPreview, edit_diff-edit_state}

abbrev resource : Bytes → Resource
resource name = record {
  mod_path = [];
  mode = codes "managed";
  typ = codes "aws_vpc";
  name = name;
  provider = codes "provider.aws";
  instances = null ∷ [];
}

abbrev codec : Codec
codec = record {
  state_of = λ d. some (record {
    version = pos 4;
    terraform_version = codes "1.9.0";
    serial = pos (length d);
    lineage = codes "l";
    resources = map (λ c. resource (c ∷ [])) d;
    modules = [];
  });
  json_of = λ d. some null;
  bytes_of = λ v. codes "xxxx";
  float_eq = λ k i. false;
}

abbrev call : Call
call = record {
  now = 10;
  actor = codes "ann";
  is_admin = true;
  lock_id = codes "l1";
  backup_id = codes "b1";
  load_fails = false;
  lock_fails = false;
  backup_fails = false;
  purge_fails = false;
  record_fails = false;
  release_fails = false;
  error_text = codes "timeout";
}

abbrev start : World Memory
start = record {
  backend = λ s k. if str_eq s (codes "s") then some (codes "ab") else none;
  backups = [];
  edits = [];
  locks = [];
}

-- The text of keys: strings alone, with a space between.
abbrev sprint : List Json → Bytes
sprint [] = []
sprint (str t ∷ vs) = t ++ codes " " ++ sprint vs
sprint (_ ∷ vs) = codes "? " ++ sprint vs

abbrev row : Bytes → ℕ → List Json → ResourceSummary
row name n ks = record {
  mod_path = codes "root";
  mode = codes "managed";
  typ = codes "t";
  name = name;
  provider = codes "p";
  instances = n;
  instance_keys = ks;
}

abbrev before : List ResourceSummary
before = row (codes "a") 1 [] ∷ row (codes "b") 1 (str (codes "x") ∷ []) ∷ []

abbrev after : List ResourceSummary
after = row (codes "b") 1 (str (codes "y") ∷ []) ∷ row (codes "c") 2 [] ∷ []

buckets_test : diff_resources sprint after before ≡ record {
  added = row (codes "c") 2 [] ∷ [];
  changed = row (codes "b") 1 (str (codes "y") ∷ []) ∷ [];
  removed = row (codes "a") 1 [] ∷ [];
}
unfolding diff_resources str_eq
buckets_test = refl

diff_resources_lem_example :
    let d = diff_resources sprint after before in
    (d.added ≡ select (λ p. not (has_key (resource_key p) before)) after)
    × (d.removed ≡ select (λ r. not (has_key (resource_key r) after)) before)
    × All (λ p. IsChange p (last_of (resource_key p) before)) d.changed
    × (select (λ p. is_recounted p (last_of (resource_key p) before)) d.changed
        ≡ select (λ p. is_recounted p (last_of (resource_key p) before)) after)
diff_resources_lem_example = diff_resources_lem sprint after before

abbrev saved : World Memory
saved =
    (edit_state memory codec call false (codes "k") (some (codes "bcd")) (ok (codes "s")) start).0

edited :
    (edit_state memory codec call false (codes "k") (some (codes "bcd")) (ok (codes "s")) start).1
    ≡ done (some (codes "b1")) (some (pos 3))
unfolding edit_state str_eq analyze
edited = refl

found_ne_broken : {d : Bytes} → found d ≡ broken → ⊥
found_ne_broken h = cc

readable : (memory.read (codes "s") (codes "k") saved.backend).0 ≢ broken
unfolding edit_state str_eq analyze
readable h = found_ne_broken h

edit_diff-edit_state_example :
    (pv : Preview) × ((edit_diff sprint
        (λ v. none)
        codec
        memory
        (codes "k")
        (some (codes "bcd"))
        (ok (codes "s"))
        saved).1
      ≡ ok pv)
    × IsEmptyPreview pv
edit_diff-edit_state_example =
    edit_diff-edit_state sprint (λ v. none) codec memory call false (codes "s") (codes "k")
      (codes "bcd") start (some (codes "b1")) (some (pos 3)) edited readable

-- Without a key the draft is refused.
key_test :
    (edit_diff sprint (λ v. none) codec memory [] (some (codes "b")) (ok (codes "s")) start).1
    ≡ err 400
unfolding edit_diff
key_test = refl
