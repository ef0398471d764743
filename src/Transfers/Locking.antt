-- ===== src/Transfers/Locking.antt =====
-- transfer.go: taking and giving back the two locks changes no state and no backup.
use terraform_state_manager.Prelude.{List, [], ◌∷◌, Option, none, some}
use terraform_state_manager.Edits.Store.{Store}
use terraform_state_manager.Edits.World.{World, Call, Release, acquire_lock, release_lock}
use terraform_state_manager.Edits.Recovery.{
  IsSame, IsSame-refl, IsSame-trans, acquire_lock-IsSame, release_lock-IsSame,
}
use terraform_state_manager.Transfers.Pair.{
  LockTarget, Locked, release_all, step_locked, acquire_next, acquire_all,
}

module _ {B : Type 0} (store : Store B) (calls : LockTarget → Call) where
  pub release_all-IsSame :
      (locked : Locked) (w : World B) → IsSame store w (release_all store calls locked w)
  unfolding release_all
  release_all-IsSame [] w = IsSame-refl store w
  release_all-IsSame ((t, r) ∷ locked) w =
      let next = release_lock store (calls t) t.source_id t.key r w in
      IsSame-trans store w next (release_all store calls locked next)
        (release_lock-IsSame store (calls t) t.source_id t.key r w) (release_all-IsSame locked next)

  step_locked-IsSame :
      (t : LockTarget) (locked : Locked) (run : Option Release × World B)
      → IsSame store run.1 (step_locked store calls t locked run).1
  step_locked-IsSame t locked (none, w) = release_all-IsSame locked w
  step_locked-IsSame t locked (some r, w) = IsSame-refl store w

  acquire_next-IsSame :
      (t : LockTarget) (run : Option Locked × World B)
      → IsSame store run.1 (acquire_next store calls t run).1
  unfolding acquire_next
  acquire_next-IsSame t (none, w) = IsSame-refl store w
  acquire_next-IsSame t (some locked, w) =
      let taken = acquire_lock store (calls t) t.source_id t.key w in
      IsSame-trans store w taken.1 (step_locked store calls t locked taken).1
        (acquire_lock-IsSame store (calls t) t.source_id t.key w)
        (step_locked-IsSame t locked taken)

  pub acquire_all-IsSame :
      (ts : List LockTarget) (run : Option Locked × World B)
      → IsSame store run.1 (acquire_all store calls ts run).1
  unfolding acquire_all
  acquire_all-IsSame [] run = IsSame-refl store run.1
  acquire_all-IsSame (t ∷ ts) run =
      IsSame-trans store run.1 (acquire_next store calls t run).1 _ (acquire_next-IsSame t run)
        (acquire_all-IsSame ts (acquire_next store calls t run))
