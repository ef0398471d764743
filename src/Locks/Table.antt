-- ===== src/Locks/Table.antt =====
-- lock_repository.go: the statements on state_locks, each one step, on the list of its rows. A time is a
-- number of seconds; the clock is that of the database.
use terraform_state_manager.Prelude.{
  ℕ, ◌+◌, ◌*◌, List, [], ◌∷◌, Bool, Option, none, some, Bytes, if◌then◌else◌, ltb, ◌&&◌, not,
  str_eq, select, any, map, Result, ok, err,
}

-- A row of state_locks.
pub record Lock : Type 0 where
  pub id : Bytes
  pub source_id : Bytes
  pub state_key : Bytes
  pub actor : Bytes
  pub acquired_at : ℕ
  pub renewed_at : ℕ

-- staleLockTTL, 15 minutes, and LockRenewInterval, 5 minutes.
abbrev pub stale_lock_ttl : ℕ
stale_lock_ttl = 15 * 60

abbrev pub lock_renew_interval : ℕ
lock_renew_interval = 5 * 60

-- ErrLocked with the holder.
pub record Held : Type 0 where
  pub holder : Bytes
  pub since : ℕ

-- `source_id = $1 AND state_key = $2`
unfoldable pub is_on : Bytes → Bytes → Lock → Bool
is_on source_id key l = str_eq l.source_id source_id && str_eq l.state_key key

-- `renewed_at < now() - $3::interval`
unfoldable pub is_stale : ℕ → Lock → Bool
is_stale now l = ltb (l.renewed_at + stale_lock_ttl) now

unfoldable pub is_lock : Bytes → Bytes → Bytes → Lock → Bool
unfolding is_on
is_lock source_id key lock_id l = str_eq l.id lock_id && is_on source_id key l

unfoldable pub reap : ℕ → Bytes → Bytes → List Lock → List Lock
unfolding is_on is_stale
reap now source_id key locks = select (λ l. not (is_on source_id key l && is_stale now l)) locks

unfoldable pub find_lock : (Lock → Bool) → List Lock → Option Lock
find_lock p [] = none
find_lock p (l ∷ ls) = let rest = find_lock p ls in if p l then some l else rest

-- The insert: UNIQUE (source_id, state_key) of 000007_state_locks.up.sql refuses it when a row is
-- there, and Acquire then names the holder.
unfoldable pub insert_lock : Lock → Option Lock → List Lock → Result Held (List Lock)
insert_lock l none locks = ok (l ∷ locks)
insert_lock l (some held) locks = err (record { holder = held.actor; since = held.acquired_at })

-- Acquire; `id` is the one that the database gives to the new row. When it is refused, the reap has
-- removed nothing: the key has one row, and that row is live.
unfoldable pub acquire : ℕ → Bytes → Bytes → Bytes → Bytes → List Lock → Result Held (List Lock)
unfolding reap find_lock insert_lock is_on
acquire now id source_id key actor locks =
    let live = reap now source_id key locks in
    insert_lock
      (record {
        id = id;
        source_id = source_id;
        state_key = key;
        actor = actor;
        acquired_at = now;
        renewed_at = now;
      })
      (find_lock (is_on source_id key) live) live

abbrev pub renewed : ℕ → Lock → Lock
renewed now l = record l { renewed_at = now }

-- Renew: the rows, and whether there was one.
unfoldable pub renew : ℕ → Bytes → Bytes → Bytes → List Lock → List Lock × Bool
unfolding is_lock
renew now source_id key lock_id locks = (
  map (λ l. if is_lock source_id key lock_id l then renewed now l else l) locks,
  any (is_lock source_id key lock_id) locks,
)

unfoldable pub release : Bytes → Bytes → Bytes → List Lock → List Lock
unfolding is_lock
release source_id key lock_id locks = select (λ l. not (is_lock source_id key lock_id l)) locks

unfoldable pub force_release : Bytes → Bytes → List Lock → List Lock × Bool
unfolding is_on
force_release source_id key locks =
    (select (λ l. not (is_on source_id key l)) locks, any (is_on source_id key) locks)

-- KeepAlive over the times of its ticks, each with whether the database fails; it ends when the row
-- is gone.
unfoldable pub keep_alive : Bytes → Bytes → Bytes → List (ℕ × Bool) → List Lock → List Lock
unfolding renew
keep_alive source_id key lock_id [] locks = locks
keep_alive source_id key lock_id ((now, fails) ∷ ticks) locks =
    let (next, alive) = renew now source_id key lock_id locks in
    let failed = keep_alive source_id key lock_id ticks locks in
    let went_on = keep_alive source_id key lock_id ticks next in
    if fails then failed else if alive then went_on else next
