-- ===== src/Remote/Polling.antt =====
-- The loop of `_run_job` ends.
use ephy_worker.Prelude.{
  ℕ, zero, suc, ◌+◌, ◌≤◌, ◌≡◌, ◌≢◌, ◌<◌, Option-cases, Option, none, some, inl, inr, arith,
}
use ephy_worker.Contract.Result.{ResultEnvelope}
use ephy_worker.Manager.Tables.{State}
use ephy_worker.Remote.Collector.{
  Collector, Poll, Ran, undecided, look, take_result, poll_job, run_job, wait_of,
}

-- Between two polls the collector sleeps, so that the clock is a millisecond on at least.
abbrev pub IsClocked : ℕ → (ℕ → Option Poll) → Type 0
IsClocked started polls = (n : ℕ) (p : Poll) → polls n ≡ some p → started + n ≤ p.now

look_decides :
    (state : State) (deadline : ℕ) (p : Poll) (c : Collector)
    → look state deadline p c ≡ none
    → p.now < deadline
unfolding look
look_decides state deadline p c e = ground arith

take_result_answers : (p : Poll) (c : Collector) → take_result p c ≢ undecided
unfolding take_result
take_result_answers p c e = ground arith

look_answers :
    (state : State) (deadline : ℕ) (p : Poll) (c : Collector) (answer : Ran ResultEnvelope)
    → look state deadline p c ≡ some answer
    → answer ≢ undecided
unfolding look
look_answers state deadline p c answer e q = ground (arith, take_result_answers p c)

poll_job_ends :
    (fuel n started wait : ℕ) (polls : ℕ → Option Poll) (c : Collector)
    → IsClocked started polls
    → n + fuel ≡ suc wait
    → 1 ≤ fuel
    → poll_job fuel n (started + wait) polls c ≢ undecided
unfolding poll_job
poll_job_ends zero n started wait polls c clock e h = absurd (omega (arith, h))
poll_job_ends (suc fuel) n started wait polls c clock e h = elim (Option-cases (polls n)) [
  | inl silent ↦ rw (poll_job, silent) (λ q. cc q)
  | inr (p, there) ↦ elim (Option-cases (look p.state (started + wait) p c)) [
    | inr (answer, decided) ↦
        rw (poll_job, there, decided) (look_answers p.state (started + wait) p c answer decided)
    | inl open' ↦
        let early : p.now < started + wait = look_decides p.state (started + wait) p c open' in
        rw (poll_job, there, open')
          (poll_job_ends fuel (suc n) started wait polls c clock (omega (arith, e))
            (omega (arith, e, early, clock n p there)))
  ]
]

-- The wait for a job ends. If the clock moves on by a millisecond at least between two polls, then
-- `_run_job` comes to a result or to an error within its fuel: one poll for each millisecond of its
-- deadline, and one more.
pub run_job_ends :
    (started : ℕ) (polls : ℕ → Option Poll) (c : Collector)
    → IsClocked started polls
    → run_job started polls c ≢ undecided
unfolding run_job
run_job_ends started polls c clock =
    poll_job_ends (suc (wait_of c)) 0 started (wait_of c) polls c clock (omega arith) (omega arith)
