-- ===== src/Bridge/Guests.antt =====
-- Only messages of the allowed users in the allowed channels come into the inbox.
use Prim.Native.String.{String}
use ephy_worker.Prelude.{
  ℕ, ◌≡◌, subst, Bool, Bool-cases, Option-cases, true, false, ◌&&◌, member, not, none, is_some,
  if◌then◌else◌, All, Option, some, inl, inr, arith,
}
use ephy_worker.Prelude.Table.{update, All-update, All-delete, All-insert}
use ephy_worker.Bridge.Context.{question_not_public, Outcome, done, failed, Context}
use ephy_worker.Bridge.Ledger.{
  Ledger, InboxRow, message_is, prune_inbox, close_row, clear, set_receipt, set_done, set_free,
  enqueue, new_row, add_row, check_admission,
}
use ephy_worker.Bridge.Machine.{after}
use ephy_worker.Bridge.Writes.{Outcome-cases, after-enqueue, after-inbox_update}
use ephy_worker.Bridge.Desk.{
  Settings, allows_channel, Desk, Act, go_on, leave, raised, ◌>>=◌, Reply, got, lost, set_ledger,
  set_store, bridge, crashed,
}
use ephy_worker.Bridge.Inbox.{note_row}
use ephy_worker.Bridge.Answers.{previous_context}
use ephy_worker.Bridge.Admission.{
  Arrival, is_welcome, from_ledger, admit, acknowledge, enqueued, put_in_inbox, capture, handle,
  is_owner_route, community_of, guild_number,
}
use ephy_worker.Repair.Rows
use ephy_worker.Repair.Rows.{Store}
use ephy_worker.Repair.Intakes.{capture_intake}

-- A row of an allowed user in an allowed channel.
abbrev pub IsGuest : Settings → InboxRow → Type 0
IsGuest s r = (allows_channel s r.guild r.channel && member r.user s.allowed_user_ids) ≡ true

abbrev pub AllGuests : Settings → Ledger → Type 0
AllGuests s l = All (IsGuest s) l.inbox

-- The desk of a step, however it ends.
abbrev pub desk_of : {A : Type 0} → Act A → Desk
desk_of (go_on d a) = d
desk_of (leave d) = d
desk_of (raised d why) = d

module _ (s : Settings) where
  AllGuests-bind :
      {A B : Type 0} (act : Act A) (next : Desk → A → Act B)
      → AllGuests s (desk_of act).ledger
      → ((d : Desk) (a : A) → AllGuests s d.ledger → AllGuests s (desk_of (next d a)).ledger)
      → AllGuests s (desk_of (act >>= next)).ledger
  AllGuests-bind (go_on d a) next h k = k d a h
  AllGuests-bind (leave d) next h k = h
  AllGuests-bind (raised d why) next h k = h

  note_row-AllGuests :
      (message : ℕ) (receipt finished release : Bool) (d : Desk)
      → AllGuests s d.ledger
      → AllGuests s (note_row message receipt finished release d).ledger
  unfolding note_row set_ledger set_receipt set_done set_free prune_inbox close_row clear
  note_row-AllGuests message receipt finished release d h =
      after-inbox_update (AllGuests s) message receipt finished release d.ledger h
        (λ l k. All-update (IsGuest s) (message_is message) _ l.inbox (λ r _ g. g) k)
        (λ l k.
          All-delete (IsGuest s) _ (update (message_is message) close_row l.inbox)
            (All-update (IsGuest s) (message_is message) close_row l.inbox (λ r _ g. g) k))
        (λ l k. All-update (IsGuest s) (message_is message) _ l.inbox (λ r _ g. g) k)

  from_ledger-AllGuests :
      {A : Type 0} (o : Outcome A) (d : Desk)
      → AllGuests s d.ledger
      → AllGuests s (desk_of (from_ledger o d)).ledger
  unfolding from_ledger
  from_ledger-AllGuests (done a) d h = h
  from_ledger-AllGuests (failed code) d h = h

  admit-AllGuests :
      (a : Arrival) (d : Desk) → AllGuests s d.ledger → AllGuests s (desk_of (admit a d)).ledger
  unfolding admit
  admit-AllGuests a d h = elim (Option-cases (check_admission a.event.message_id d.ledger)) [
    | inl free ↦ rw (admit, free) h
    | inr full ↦ rw (admit, full.1) h
  ]

  acknowledge-AllGuests :
      (a : Arrival) (d : Desk)
      → AllGuests s d.ledger
      → AllGuests s (desk_of (acknowledge a d)).ledger
  unfolding acknowledge
  acknowledge-AllGuests a d h = acknowledged a.receipt
    where
      acknowledged :
          (r : Reply (Unit {0}))
          → AllGuests s (desk_of (acknowledge (record a { receipt = r }) d)).ledger
      acknowledged (got x) =
          note_row-AllGuests a.event.message_id false false true
            (note_row a.event.message_id true false false d)
            (note_row-AllGuests a.event.message_id true false false d h)
      acknowledged (lost why) = note_row-AllGuests a.event.message_id false false true d h

  enqueued-AllGuests :
      (a : Arrival) (d : Desk) (fresh : Bool)
      → AllGuests s d.ledger
      → AllGuests s (desk_of (enqueued a d fresh)).ledger
  unfolding enqueued
  enqueued-AllGuests a d false h = h
  enqueued-AllGuests a d true h = elim (Bool-cases a.draining) [
    | inl drain ↦ rw (enqueued, drain) (note_row-AllGuests a.event.message_id false false true d h)
    | inr on ↦ rw (enqueued, on) (acknowledge-AllGuests a d h)
  ]

  put_in_inbox-AllGuests :
      (a : Arrival) (previous : Option String) (community : Option Context) (intake : Option String)
      (d : Desk)
      → is_welcome s a.event ≡ true
      → AllGuests s d.ledger
      → AllGuests s (desk_of (put_in_inbox a previous community intake d)).ledger
  unfolding put_in_inbox is_welcome add_row new_row from_ledger set_ledger
  put_in_inbox-AllGuests a previous community intake d welcome h =
      let o = enqueue a.event a.question previous intake (some a.consumer) community d.ledger in
      let written : AllGuests s (after d.ledger o) =
        after-enqueue (AllGuests s) a.event a.question previous intake (some a.consumer) community
          d.ledger h
          (λ context _ _. All-insert (IsGuest s) _ d.ledger.inbox h (ground (arith, welcome))) in
      elim (Outcome-cases o) [
        | inr bad ↦ rw (put_in_inbox, bad.1) h
        | inl (answer, e) ↦
            rw (put_in_inbox, e)
              (enqueued-AllGuests a (set_ledger answer.0 d) answer.1
                (subst (λ x. AllGuests s (after d.ledger x)) e written))
      ]

  capture-AllGuests :
      (a : Arrival) (previous : Option String) (community : Option Context) (d : Desk)
      → AllGuests s d.ledger
      → AllGuests s (desk_of (capture s a previous community d)).ledger
  unfolding capture set_store
  capture-AllGuests a previous community d h =
      captured (is_owner_route s a.event)
        (capture_intake a.identify
          (record {
            guild_id = guild_number a.event.guild_id;
            channel_id = a.event.channel_id;
            message_id = a.event.message_id;
            author_id = a.event.user_id;
          })
          a.question previous community a.now d.store)
        (not (is_some community) && not a.is_public)
    where
      captured :
          (owner : Bool) (o : ephy_worker.Repair.Rows.Outcome (Store × String)) (secret : Bool)
          → AllGuests s
              (desk_of (
                if owner
                then elim o [
                  | ephy_worker.Repair.Rows.failed code ↦ raised d crashed
                  | ephy_worker.Repair.Rows.done answer ↦
                      go_on (set_store answer.0 d) (some answer.1)
                ]
                else if secret
                then raised d (bridge question_not_public)
                else go_on d none)).ledger
      captured true (ephy_worker.Repair.Rows.failed code) b = h
      captured true (ephy_worker.Repair.Rows.done answer) b = h
      captured false o true = h
      captured false o false = h

-- Whatever a message asks, a step that handles it keeps the inbox to messages
-- of allowed users in allowed channels, also where the step ends early or fails.
pub handle-AllGuests :
    (s : Settings) (a : Arrival) (d : Desk)
    → AllGuests s d.ledger
    → AllGuests s (desk_of (handle s a d)).ledger
unfolding handle
handle-AllGuests s a d h = elim (Bool-cases (is_welcome s a.event)) [
  | inr unwelcome ↦ rw (handle, unwelcome) h
  | inl welcome ↦
      rw (handle, welcome)
        (AllGuests-bind s (from_ledger (previous_context a.now a.again a.event d.ledger) d) _
          (from_ledger-AllGuests s (previous_context a.now a.again a.event d.ledger) d h)
          (λ d1 found' h1.
            asked welcome d1 found'.0 found'.1 h1
              (not a.event.mentioned && not (is_some found'.0))))
]
  where
    asked :
        is_welcome s a.event ≡ true
        → (d1 : Desk) (previous : Option String) (found : Option Context) → AllGuests s d1.ledger
        → (quiet : Bool)
        → AllGuests s
            (desk_of (
              if quiet
              then go_on d1 false
              else (admit a d1 >>= λ d2 _.
                  capture s a previous (community_of s a found) d2 >>= λ d3 intake.
                  put_in_inbox a previous (community_of s a found) intake d3))).ledger
    asked welcome d1 previous found h1 true = h1
    asked welcome d1 previous found h1 false =
        AllGuests-bind s (admit a d1) _ (admit-AllGuests s a d1 h1) (λ d2 _ h2.
          AllGuests-bind s (capture s a previous (community_of s a found) d2) _
            (capture-AllGuests s a previous (community_of s a found) d2 h2)
            (λ d3 intake h3.
              put_in_inbox-AllGuests s a previous (community_of s a found) intake d3 welcome h3))
