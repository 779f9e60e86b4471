-- ===== src/Repair/Writes.antt =====
-- What each call of the store may write: a property of stores holds after the call if it holds before
-- and after each of the writes that the call may come to.
use Prim.Native.String.{String}
use ephy_worker.Prelude.{
  ℕ, ◌≡◌, ◌<◌, Bool, Bool-cases, Option-cases, true, not, ◌&&◌, ◌==◌, leb, length, List, Option,
  none, inl, inr, arith, str_eq,
}
use ephy_worker.Prelude.Table.{find, update, insert}
use ephy_worker.Bridge.Context.{Context}
use ephy_worker.Repair.Rows.{
  owner_user_id, Identity, Field, Store, snowflakes, text_valid, previous_valid, same_text,
}
use ephy_worker.Repair.Intakes.{
  capture_intake, store_intake, new_intake, given_valid, same_intake, intake_is, claim_intake,
  hold_intake, is_held_by_other,
}
use ephy_worker.Repair.Jobs.{
  enqueue, store_repair, new_repair, job_is, transition, set_stage, is_terminal_stage,
}
use ephy_worker.Repair.Outbox.{confirm, delivered, finish, freeze}
use ephy_worker.Repair.Machine.{after, or_old}

-- What an identity and a text have passed when they come into a table.
pub record IsAccepted (who : Identity) (text : String) : Type 0 where
  pub owner : who.author_id ≡ owner_user_id
  pub numbers : snowflakes who ≡ true
  pub directive : text_valid text ≡ true

accepted :
    (who : Identity) (text : String)
    → (who.author_id == owner_user_id) ≡ true
    → snowflakes who ≡ true
    → text_valid text ≡ true
    → IsAccepted who text
accepted who text owner fit right = record {
  owner = ground arith;
  numbers = fit;
  directive = right;
}

module _ (P : Store → Type 0) (identify : Identity → String) where
  after-store_intake :
      (who : Identity) (text : String) (previous : Option String) (context : Option Context)
      (now : ℕ) (s : Store)
      → P s
      → (find (intake_is (identify who)) s.intakes ≡ none
          → length s.intakes < 10000
          → P (record s {
            intakes = insert (new_intake (identify who) who text previous context now) s.intakes;
          }))
      → P (after s (store_intake (identify who) who text previous context now s))
  unfolding store_intake
  after-store_intake who text previous context now s h added =
      elim (Option-cases (find (intake_is (identify who)) s.intakes)) [
        | inr (old, e) ↦ elim (Bool-cases (same_intake text previous context old)) [
          | inl same ↦ rw (store_intake, e, same) h
          | inr differ ↦ rw (store_intake, e, differ) h
        ]
        | inl new ↦ elim (Bool-cases (leb 10000 (length s.intakes))) [
          | inl full ↦ rw (store_intake, new, full) h
          | inr room ↦ rw (store_intake, new, room) (added new (ground arith))
        ]
      ]

  after-store_repair :
      (who : Identity) (text : String) (previous : Option String) (now : ℕ) (s : Store)
      → P s
      → (find (job_is (identify who)) s.jobs ≡ none
          → length s.jobs < 10000
          → P (record s { jobs = insert (new_repair (identify who) who text previous now) s.jobs }))
      → P (after s (store_repair (identify who) who text previous now s))
  unfolding store_repair
  after-store_repair who text previous now s h added =
      elim (Option-cases (find (job_is (identify who)) s.jobs)) [
        | inr (old, e) ↦
            elim (Bool-cases (str_eq old.text text && same_text old.previous previous)) [
              | inl same ↦ rw (store_repair, e, same) h
              | inr differ ↦ rw (store_repair, e, differ) h
            ]
        | inl new ↦ elim (Bool-cases (leb 10000 (length s.jobs))) [
          | inl full ↦ rw (store_repair, new, full) h
          | inr room ↦ rw (store_repair, new, room) (added new (ground arith))
        ]
      ]

  pub after-capture_intake :
      (who : Identity) (text : String) (previous : Option String) (context : Option Context)
      (now : ℕ) (s : Store)
      → P s
      → (IsAccepted who text
          → find (intake_is (identify who)) s.intakes ≡ none
          → length s.intakes < 10000
          → P (record s {
            intakes = insert (new_intake (identify who) who text previous context now) s.intakes;
          }))
      → P (after s (capture_intake identify who text previous context now s))
  unfolding capture_intake store_intake
  after-capture_intake who text previous context now s h added =
      elim (Bool-cases (who.author_id == owner_user_id)) [
        | inr other ↦ rw (capture_intake, other) h
        | inl owner ↦
            elim (Bool-cases (snowflakes who && text_valid text && previous_valid previous)) [
              | inr bad ↦ rw (capture_intake, owner, bad) h
              | inl fit ↦ elim (Bool-cases (given_valid context)) [
                | inr wrong ↦ rw (capture_intake, owner, fit, wrong) h
                | inl right ↦
                    rw (capture_intake, owner, fit, right)
                      (after-store_intake who text previous context now s h
                        (added (accepted who text owner (ground arith) (ground arith))))
              ]
            ]
      ]

  pub after-enqueue :
      (who : Identity) (text : String) (previous : Option String) (now : ℕ) (s : Store)
      → P s
      → (IsAccepted who text
          → find (job_is (identify who)) s.jobs ≡ none
          → length s.jobs < 10000
          → P (record s { jobs = insert (new_repair (identify who) who text previous now) s.jobs }))
      → P (after s (enqueue identify who text previous now s))
  unfolding enqueue store_repair
  after-enqueue who text previous now s h added =
      elim (Bool-cases (who.author_id == owner_user_id)) [
        | inr other ↦ rw (enqueue, other) h
        | inl owner ↦ elim (Bool-cases (snowflakes who)) [
          | inr bad ↦ rw (enqueue, owner, bad) h
          | inl fit ↦ elim (Bool-cases (text_valid text)) [
            | inr wrong ↦ rw (enqueue, owner, fit, wrong) h
            | inl right ↦ elim (Bool-cases (previous_valid previous)) [
              | inr long ↦ rw (enqueue, owner, fit, right, long) h
              | inl short ↦
                  rw (enqueue, owner, fit, right, short)
                    (after-store_repair who text previous now s h
                      (added (accepted who text owner fit right)))
            ]
          ]
        ]
      ]

module _ (P : Store → Type 0) where
  pub after-claim_intake :
      (alive : String → Bool) (id consumer : String) (s : Store)
      → P s
      → P (hold_intake id consumer s)
      → P (claim_intake alive id consumer s).0
  unfolding claim_intake
  after-claim_intake alive id consumer s h held =
      elim (Option-cases (find (λ i. intake_is id i && not i.finished) s.intakes)) [
        | inl nothing ↦ rw (claim_intake, nothing) h
        | inr (i, e) ↦ elim (Bool-cases (is_held_by_other alive consumer i.consumer)) [
          | inl other ↦ rw (claim_intake, e, other) h
          | inr free ↦ rw (claim_intake, e, free) held
        ]
      ]

  pub after-transition :
      (id stage : String) (fields : List Field) (now : ℕ) (s : Store)
      → P s
      → P (record s { jobs = update (job_is id) (set_stage stage fields now) s.jobs })
      → P (or_old s (transition id stage fields now s))
  unfolding transition
  after-transition id stage fields now s h moved = elim (Option-cases (find (job_is id) s.jobs)) [
    | inl nothing ↦ rw (transition, nothing) h
    | inr (j, e) ↦ rw (transition, e) moved
  ]

  pub after-finish :
      (id stage : String) (parts : List String) (fields : List Field) (now : ℕ) (s : Store)
      → P s
      → P (record s {
        jobs = update (job_is id) (set_stage stage fields now) s.jobs;
        outbox = freeze id parts s.outbox;
      })
      → P (or_old s (finish id stage parts fields now s))
  unfolding finish
  after-finish id stage parts fields now s h moved = elim (Bool-cases (is_terminal_stage stage)) [
    | inr on_way ↦ rw (finish, on_way) h
    | inl terminal ↦ elim (Option-cases (find (job_is id) s.jobs)) [
      | inl nothing ↦ rw (finish, terminal, nothing) h
      | inr (j, e) ↦ rw (finish, terminal, e) moved
    ]
  ]

  pub after-delivered :
      (id : String) (ordinal message_id : ℕ) (s : Store)
      → P s
      → P (record s { outbox = confirm id ordinal message_id s.outbox })
      → P (or_old s (delivered id ordinal message_id s))
  unfolding delivered
  after-delivered id ordinal message_id s h sent_one = elim (Bool-cases (message_id == 0)) [
    | inl bad ↦ rw (delivered, bad) h
    | inr good ↦ rw (delivered, good) sent_one
  ]
