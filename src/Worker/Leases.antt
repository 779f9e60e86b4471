-- ===== src/Worker/Leases.antt =====
-- What the worker makes of its lease (worker_service.py, `_lease_loop`, `_run_cancellable`). The
-- pauses between renewals are left out.
use ephy_worker.Prelude.{Bool, true, false, ◌||◌, ◌==◌, List, [], ◌∷◌}
use ephy_worker.Manager.Tables.{
  State, Code, Error, refused, invalid, diverges, Result, ok, err, unknown_job, lease_conflict,
  lease_expired, is_terminal,
}
use ephy_worker.Manager.Lease.{LeaseState, ended, deadline_passed, renewed}

-- The two events: `cancel_event` and `lost_event`.
pub record Events : Type 0 where
  pub cancel : Bool
  pub lost : Bool

unfoldable pub no_events : Events
no_events = record { cancel = false; lost = false }

-- What one answer to a renewal does: set an event and end the loop, or go on.
pub data Heard : Type 0 where
  hear_cancel hear_loss hear_nothing : Heard

unfoldable pub is_loss_code : Code → Bool
is_loss_code unknown_job = true
is_loss_code lease_conflict = true
is_loss_code lease_expired = true
is_loss_code _ = false

-- The `except` clause, on code and status.
unfoldable pub hear_error : Error → Heard
unfolding is_loss_code
hear_error (refused c status) = elim (status == 404 || status == 410 || is_loss_code c) [
  | true ↦ hear_loss
  | false ↦ hear_nothing
]
hear_error invalid = hear_nothing
hear_error diverges = hear_nothing

unfoldable pub hear_state : State → Heard
hear_state State.cancel_requested = hear_cancel
hear_state s = elim (is_terminal s) [ true ↦ hear_loss | false ↦ hear_nothing ]

-- An answer that the HTTP layer gives with status 410 comes as an error without a known code.
unfoldable pub hear : Result LeaseState → Heard
unfolding hear_error hear_state
hear (err e) = hear_error e
hear (ok (ended s)) = hear_loss
hear (ok deadline_passed) = hear_loss
hear (ok (renewed s until)) = hear_state s

-- The loop over the answers that come while the stage runs.
unfoldable pub lease_loop : List (Result LeaseState) → Events → Events
unfolding hear
lease_loop [] e = e
lease_loop (answer ∷ answers) e = elim e.lost [
  | true ↦ e
  | false ↦ elim (hear answer) [
    | hear_cancel ↦ record e { cancel = true }
    | hear_loss ↦ record e { lost = true }
    | hear_nothing ↦ lease_loop answers e
  ]
]
