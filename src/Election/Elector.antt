-- ===== src/Election/Elector.antt =====
-- elector.go: run, tryAcquire, hold and release as steps of a state machine. What the database and
-- the channels answer is the input of a step, and what the elector does is its list of actions.
use terraform_state_manager.Prelude.{List, [], ◌∷◌, ◌++◌, Option, none, some, ◌≡◌}

-- Where the loop of run stands: before tryAcquire, in hold, in the select at the end, or returned.
pub data Phase : Type 0 where
  campaigning : Phase
  leading : Phase
  standing_by : Phase
  returned : Phase

-- What tryAcquire finds, and which case of a select is taken.
pub data Input : Type 0 where
  no_connection : Input
  query_failed : Input
  lock_taken : Input
  lock_granted : Input
  ping_answered : Input
  ping_failed : Input
  timer : Input
  stop_requested : Input

pub data Action : Type 0 where
  open_session : Action
  close_session : Action
  start_workers : Action
  stop_workers : Action
  unlock : Action

-- tryAcquire, then start when the lock is granted.
unfoldable pub try_acquire : Input → Option (Phase × List Action)
try_acquire no_connection = some (standing_by, [])
try_acquire query_failed = some (standing_by, open_session ∷ close_session ∷ [])
try_acquire lock_taken = some (standing_by, open_session ∷ close_session ∷ [])
try_acquire lock_granted = some (leading, open_session ∷ start_workers ∷ [])
try_acquire _ = none

abbrev pub release : List Action
release = unlock ∷ close_session ∷ []

-- A round of hold; when it returns, the workers are stopped and the session released.
unfoldable pub hold : Input → Option (Phase × List Action)
hold ping_answered = some (leading, [])
hold ping_failed = some (standing_by, stop_workers ∷ release)
hold stop_requested = some (returned, stop_workers ∷ release)
hold _ = none

-- The select at the end of a round.
unfoldable pub stand_by : Input → Option (Phase × List Action)
stand_by timer = some (campaigning, [])
stand_by stop_requested = some (returned, [])
stand_by _ = none

-- One step of run; `none` for an input that the phase does not wait for.
unfoldable pub step : Phase → Input → Option (Phase × List Action)
unfolding try_acquire hold stand_by
step campaigning i = try_acquire i
step leading i = hold i
step standing_by i = stand_by i
step returned i = none

-- The runs of the loop with the actions they take.
pub data Runs : Phase → List Action → Type 0 where
  begin : Runs campaigning []
  next :
      {p q : Phase} {done more : List Action}
      → Runs p done
      → (i : Input) → step p i ≡ some (q, more)
      → Runs q (done ++ more)
