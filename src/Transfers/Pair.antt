-- ===== src/Transfers/Pair.antt =====
-- transfer.go: acquireTransferLocks, transferEndpointsReachable and counterpartyOrganizations.
use terraform_state_manager.Prelude.{
  ℕ, List, [], ◌∷◌, Bool, Option, none, some, Bytes, if◌then◌else◌, ◌&&◌, ◌||◌, str_eq, str_lt,
  member, trim_space,
}
use terraform_state_manager.Analyzer.Labels.{is_blank}
use terraform_state_manager.Edits.Store.{Store}
use terraform_state_manager.Edits.World.{World, Call, Release, acquire_lock, release_lock}

-- A lockTarget, whose connector follows from the source.
pub record LockTarget : Type 0 where
  pub source_id : Bytes
  pub key : Bytes

unfoldable pub is_same_place : LockTarget → LockTarget → Bool
is_same_place a b = str_eq a.source_id b.source_id && str_eq a.key b.key

-- The test for the swap.
unfoldable pub comes_later : LockTarget → LockTarget → Bool
comes_later first second =
    str_lt second.source_id first.source_id
    || (str_eq second.source_id first.source_id && str_lt second.key first.key)

-- The targets in the order in which they are locked.
unfoldable pub lock_order : LockTarget → LockTarget → List LockTarget
unfolding is_same_place comes_later
lock_order a b =
    if is_same_place a b then a ∷ [] else if comes_later a b then b ∷ a ∷ [] else a ∷ b ∷ []

-- The locks held, the last one first.
abbrev pub Locked : Type 0
Locked = List (LockTarget × Release)

-- What the surroundings give to the acquisition of each lock is a parameter.
module _ {B : Type 0} (store : Store B) (calls : LockTarget → Call) where
  -- The release function.
  unfoldable pub release_all : Locked → World B → World B
  unfolding release_lock
  release_all [] w = w
  release_all ((t, r) ∷ locked) w =
      release_all locked (release_lock store (calls t) t.source_id t.key r w)

  abbrev pub step_locked : LockTarget → Locked → Option Release × World B → Option Locked × World B
  step_locked t locked (none, w) = (none, release_all locked w)
  step_locked t locked (some r, w) = (some ((t, r) ∷ locked), w)

  -- One more lock after the ones held, which are given back when it is refused.
  unfoldable pub acquire_next : LockTarget → Option Locked × World B → Option Locked × World B
  unfolding release_all acquire_lock
  acquire_next t (none, w) = (none, w)
  acquire_next t (some locked, w) =
      step_locked t locked (acquire_lock store (calls t) t.source_id t.key w)

  unfoldable pub acquire_all : List LockTarget → Option Locked × World B → Option Locked × World B
  unfolding acquire_next
  acquire_all [] run = run
  acquire_all (t ∷ ts) run = acquire_all ts (acquire_next t run)

  unfoldable pub acquire_transfer_locks :
      LockTarget → LockTarget → World B → Option Locked × World B
  unfolding lock_order acquire_all
  acquire_transfer_locks a b w = acquire_all (lock_order a b) (some [], w)

-- transferEndpointsReachable: the status of the refusal; the scope is the organizations that the
-- caller may act on, `none` when it was not resolved.
unfoldable pub unreachable : Option (Bytes → Bool) → List Bytes → Option ℕ
unreachable none ends = some 500
unreachable (some permits) [] = none
unreachable (some permits) (org ∷ ends) =
    let rest = unreachable (some permits) ends in
    if is_blank org then rest else if permits org then rest else some 404

-- counterpartyOrganizations, on the organizations of the ends; `seen` holds the acting one and the
-- empty one.
unfoldable pub distinct_organizations : List Bytes → List Bytes → List Bytes
unfolding member trim_space
distinct_organizations seen [] = []
distinct_organizations seen (e ∷ ends) =
    let org = trim_space e in
    let skipped = distinct_organizations seen ends in
    let kept = org ∷ distinct_organizations (org ∷ seen) ends in
    if member org seen then skipped else kept

unfoldable pub counterparty_organizations : Bytes → List Bytes → List Bytes
unfolding distinct_organizations
counterparty_organizations acting ends = distinct_organizations (trim_space acting ∷ [] ∷ []) ends
