-- ===== src/Transfers/Tests.antt =====
-- Concrete transfers between backends in memory: the theorems at inputs that meet their hypotheses,
-- and runs.
use terraform_state_manager.Prelude.{
  [], ◌∷◌, true, false, none, some, ◌≡◌, refl, Bytes, codes, if◌then◌else◌, length, str_eq, str_lt,
  ◌&&◌,
}
use terraform_state_manager.Prelude.Int.{pos}
use terraform_state_manager.Json.{null}
use terraform_state_manager.Analyzer.Analyze.{analyze}
use terraform_state_manager.Edits.World.{World, Call}
use terraform_state_manager.Edits.Guarded.{Codec}
use terraform_state_manager.Edits.Memory.{Memory, memory}
use terraform_state_manager.Edits.Keyless.{keyless}
use terraform_state_manager.Transfers.Pair.{
  LockTarget, is_same_place, lock_order, counterparty_organizations,
}
use terraform_state_manager.Transfers.Transfer.{migrate, Setting, do_transfer}
use terraform_state_manager.Transfers.Ordering.{lock_order-either_way}

abbrev codec : Codec
codec = record {
  state_of = λ d. some (record {
    version = pos 4;
    terraform_version = codes "1.9.0";
    serial = pos (length d);
    lineage = codes "l";
    resources = [];
    modules = [];
  });
  json_of = λ d. some null;
  bytes_of = λ v. codes "empty";
  float_eq = λ k i. false;
}

abbrev call : Call
call = record {
  now = 10;
  actor = codes "ann";
  is_admin = true;
  lock_id = codes "l1";
  backup_id = codes "b1";
  load_fails = false;
  lock_fails = false;
  backup_fails = false;
  purge_fails = false;
  record_fails = false;
  release_fails = false;
  error_text = codes "timeout";
}

abbrev place : Bytes → LockTarget
place source_id = record { source_id = source_id; key = codes "k" }

abbrev setting : Setting
setting = record {
  mode = migrate;
  force = false;
  decommission = true;
  source = place (codes "s");
  target = place (codes "t");
  lock_call = λ t. call;
  call = call;
  save_fails = false;
}

abbrev start : World Memory
start = record {
  backend = λ s k. if str_eq s (codes "s") then some (codes "xx") else none;
  backups = [];
  edits = [];
  locks = [];
}

apart : is_same_place (place (codes "s")) (place (codes "t")) ≡ false
unfolding is_same_place str_eq
apart = refl

-- Another caller moves the state back.
abbrev way_back : Setting
way_back = record setting {
  source = place (codes "t");
  target = place (codes "s");
  call = record call { actor = codes "bob"; lock_id = codes "l2" };
  lock_call = λ t. record call { actor = codes "bob"; lock_id = codes "l2" };
}

lock_order-either_way_example :
    lock_order setting.source setting.target ≡ lock_order way_back.source way_back.target
lock_order-either_way_example = lock_order-either_way setting way_back refl refl apart

abbrev moved : World Memory
moved = (do_transfer memory codec setting (some (λ org. true)) [] start).0

-- The migration: the target has the state, the source is emptied.
moved_test :
    (moved.backend (codes "t") (codes "k") ≡ some (codes "xx"))
    × (moved.backend (codes "s") (codes "k") ≡ some (codes "empty"))
unfolding do_transfer str_eq str_lt analyze
moved_test = (refl, refl)

-- The target's own state is overwritten, and no backup of it is made.
overwritten_test :
    (do_transfer memory codec
      (record setting { decommission = false })
      (some (λ org. true))
      []
      (record start { backend = λ s k. some s })).0
    ≡ record start {
      backend =
          λ s k. if str_eq (codes "t") s && str_eq (codes "k") k then some (codes "s") else some s;
    }
unfolding do_transfer str_eq str_lt analyze
overwritten_test = refl

-- A migration of a location to itself with decommission empties it.
self_test :
    (do_transfer memory codec
        (record setting { target = place (codes "s") })
        (some (λ org. true))
        []
        start).0.backend
      (codes "s")
      (codes "k")
    ≡ some (codes "empty")
unfolding do_transfer str_eq str_lt analyze
self_test = refl

counterparty_test :
    counterparty_organizations (codes "a") (codes " b " ∷ codes "b" ∷ [] ∷ codes "a" ∷ [])
    ≡ codes "b" ∷ []
unfolding counterparty_organizations str_eq
counterparty_test = refl

-- On a source that ignores the key, two keys name one object: the migration empties what it wrote, and
-- says so.
keyless_test :
    (do_transfer keyless codec
        (record setting { target = record (place (codes "s")) { key = codes "x" } })
        (some (λ org. true))
        []
        (record {
          backend = λ s. some (codes "xx");
          backups = [];
          edits = [];
          locks = [];
        })).0.backend
      (codes "s")
    ≡ some (codes "empty")
unfolding do_transfer str_eq str_lt analyze
keyless_test = refl
