-- ===== src/Election/Bracketing.antt =====
-- elector.go: when the workers run, and which sessions are open.
use terraform_state_manager.Prelude.{
  List, [], ◌∷◌, ◌++◌, Option, none, some, some_inj, none_ne_some, Option-cases, inl, inr, subst,
  ◌≡◌, refl, ◌∙◌,
}
use mathlib.Core.Option
use terraform_state_manager.Election.Elector.{
  Phase, campaigning, leading, standing_by, returned, Input, no_connection, query_failed,
  lock_taken, lock_granted, ping_answered, ping_failed, timer, stop_requested, Action, open_session,
  close_session, start_workers, stop_workers, unlock, step, Runs, begin, next,
}

-- What a replica holds: no session, a session, or a session and running workers.
pub data World : Type 0 where
  closed : World
  opened : World
  working : World

-- Workers are started on an open session and stopped before it is unlocked or closed, and a session
-- is opened when there is none; `none` for anything else.
unfoldable pub apply : Action → World → Option World
apply open_session closed = some opened
apply close_session opened = some closed
apply start_workers opened = some working
apply stop_workers working = some opened
apply unlock opened = some opened
apply _ _ = none

unfoldable pub replay : List Action → World → Option World
unfolding apply
replay [] w = some w
replay (a ∷ as') w = Option.bind (apply a w) (λ v. replay as' v)

unfoldable pub world_of : Phase → World
world_of leading = working
world_of _ = closed

-- A step from a phase replays from the world of the phase to that of the next one.
SoundStep : Phase → Option (Phase × List Action) → Type 0
SoundStep p none = Unit
SoundStep p (some (q, more)) = replay more (world_of p) ≡ some (world_of q)

step-SoundStep : (p : Phase) (i : Input) → SoundStep p (step p i)
unfolding SoundStep step replay world_of Option.bind
step-SoundStep campaigning no_connection = refl
step-SoundStep campaigning query_failed = refl
step-SoundStep campaigning lock_taken = refl
step-SoundStep campaigning lock_granted = refl
step-SoundStep campaigning ping_answered = tt
step-SoundStep campaigning ping_failed = tt
step-SoundStep campaigning timer = tt
step-SoundStep campaigning stop_requested = tt
step-SoundStep leading no_connection = tt
step-SoundStep leading query_failed = tt
step-SoundStep leading lock_taken = tt
step-SoundStep leading lock_granted = tt
step-SoundStep leading ping_answered = refl
step-SoundStep leading ping_failed = refl
step-SoundStep leading timer = tt
step-SoundStep leading stop_requested = refl
step-SoundStep standing_by no_connection = tt
step-SoundStep standing_by query_failed = tt
step-SoundStep standing_by lock_taken = tt
step-SoundStep standing_by lock_granted = tt
step-SoundStep standing_by ping_answered = tt
step-SoundStep standing_by ping_failed = tt
step-SoundStep standing_by timer = refl
step-SoundStep standing_by stop_requested = refl
step-SoundStep returned i = tt

step-replay :
    (p q : Phase) (i : Input) (more : List Action)
    → step p i ≡ some (q, more)
    → replay more (world_of p) ≡ some (world_of q)
unfolding SoundStep
step-replay p q i more h = subst (λ r. SoundStep p r) h (step-SoundStep p i)

replay-append :
    (xs ys : List Action) (w v : World) → replay xs w ≡ some v → replay (xs ++ ys) w ≡ replay ys v
unfolding replay Option.bind
replay-append [] ys w v h = rw (some_inj h) refl
replay-append (a ∷ xs) ys w v h = elim (Option-cases (apply a w)) [
  | inl e ↦ absurd (none_ne_some (rw e at h))
  | inr (u, e) ↦ rw e (replay-append xs ys u v (rw e at h))
]

-- In every run of the loop, sessions are opened one at a time and each is closed, the workers start
-- only on an open session and stop before it is unlocked or closed, and after any number of steps they
-- run exactly when the elector is leading. Once it has returned they are stopped and no session is open.
pub Runs-replay :
    (p : Phase) (done : List Action) → Runs p done → replay done closed ≡ some (world_of p)
Runs-replay p done begin = unfold replay world_of in refl
Runs-replay p done (next {p = before} {done = earlier} {more} runs i h) =
    replay-append earlier more closed (world_of before) (Runs-replay before earlier runs)
    ∙ step-replay before p i more h
