-- ===== src/Election/Tests.antt =====
-- elector.go on a concrete run: a term as leader that ends with the session, then a stop.
use terraform_state_manager.Prelude.{List, [], ◌∷◌, ◌++◌, some, ◌≡◌, refl}
use terraform_state_manager.Election.Elector.{
  campaigning, leading, standing_by, returned, lock_granted, ping_failed, stop_requested, Action,
  open_session, close_session, start_workers, stop_workers, unlock, step, Runs, begin, next,
}
use terraform_state_manager.Election.Bracketing.{closed, replay, world_of, Runs-replay}

won : step campaigning lock_granted ≡ some (leading, open_session ∷ start_workers ∷ [])
unfolding step
won = refl

lost : step leading ping_failed ≡ some (standing_by, stop_workers ∷ unlock ∷ close_session ∷ [])
unfolding step
lost = refl

stopped : step standing_by stop_requested ≡ some (returned, [])
unfolding step
stopped = refl

abbrev actions : List Action
actions =
    (([] ++ open_session ∷ start_workers ∷ []) ++ stop_workers ∷ unlock ∷ close_session ∷ []) ++ []

term_run : Runs returned actions
term_run = next (next (next begin lock_granted won) ping_failed lost) stop_requested stopped

Runs-replay_example : replay actions closed ≡ some (world_of returned)
Runs-replay_example = Runs-replay returned actions term_run
