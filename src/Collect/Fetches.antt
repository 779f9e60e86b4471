-- ===== src/Collect/Fetches.antt =====
-- The extract stage keeps the limits of its budget.
use ephy_worker.Collect.Budget.{Budget}
use ephy_worker.Collect.Search.{Ended, returned, raised, interrupted}
use ephy_worker.Collect.Allowance.{IsWithin}

-- A stage that came back with its result or was cancelled, within its budget, and let no other exception
-- through.
abbrev pub EndsWithin : {R : Type 0} → Ended R → Type 0
EndsWithin (returned r b) = IsWithin b
EndsWithin (raised r b) = ⊥
EndsWithin (interrupted r b) = IsWithin b
