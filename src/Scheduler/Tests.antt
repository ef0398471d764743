-- ===== src/Scheduler/Tests.antt =====
-- scheduler.go on a concrete schedule: the theorem at an input that meets its hypotheses, and runs.
use terraform_state_manager.Prelude.{
  ℕ, ◌+◌, ◌*◌, ◌≤◌, [], ◌∷◌, true, false, none, some, ◌≡◌, refl, codes, str_eq, has_prefix,
  trim_prefix, trim_space, length,
}
use terraform_state_manager.Scheduler.Runner.{
  Schedule, World, Env, compute_next_run, is_at, check_due, minute,
}
use terraform_state_manager.Scheduler.Firing.{fire_each, fire_each-at_most_once}

-- No cron expression, one duration, no more than two runs in flight.
abbrev env : Env
env = record {
  cron_next = λ e t. none;
  parse_duration = λ d. some (15 * minute);
  in_flight = some (λ ds. some (length ds));
  max_in_flight = 2;
  claim_fails = λ id. false;
  record_fails = λ id. false;
  dispatch = λ s. record { run_id = codes "r"; status = codes "success"; is_err = false };
}

abbrev due : Schedule
due = record {
  id = codes "s";
  cron_expr = codes "every 15m";
  next_run_at = some 5;
  enabled = true;
  organization_id = codes "o";
  last_status = [];
  last_run_id = [];
}

abbrev world : World
world = record { table = (codes "s", due) ∷ []; dispatches = [] }

next_test : compute_next_run env (codes "every 15m") 7 ≡ some (7 + 15 * minute)
unfolding compute_next_run str_eq has_prefix trim_prefix trim_space
next_test = refl

moves : (now : ℕ) → now ≡ 7 → is_at (compute_next_run env (codes "every 15m") now) 5 ≡ false
unfolding compute_next_run str_eq has_prefix trim_prefix trim_space
moves now h = rw h refl

fire_each-at_most_once_example : length (fire_each env due (7 ∷ 7 ∷ []) world).dispatches ≤ 0 + 1
fire_each-at_most_once_example =
    fire_each-at_most_once env due 5 refl (7 ∷ 7 ∷ []) world (moves 7 refl, (moves 7 refl, tt))

backlog_test :
    (check_due env (some ((7, due) ∷ (7, due) ∷ [])) world).0.dispatches
    ≡ record { schedule_id = codes "s"; organization_id = codes "o" } ∷ []
unfolding check_due str_eq has_prefix trim_prefix trim_space
backlog_test = refl
