-- ===== src/Tests/Desks.antt =====
-- The work of the bridge at a concrete input.
use ephy_worker.Prelude.{ℕ, ◌≡◌, refl, true, false, none, some, List, [], ◌∷◌, Bool, Option}
use ephy_worker.Bridge.Ledger.{Ledger, inbox_pending}
use ephy_worker.Bridge.Machine.{opens}
use ephy_worker.Bridge.Desk.{Desk, Settings, Visit, got, lost, crashed}
use ephy_worker.Bridge.Inbox.{Round}
use ephy_worker.Bridge.Steps.{IsOnce}
use ephy_worker.Bridge.Executions.{Happening, round, intakes, ledger_call, work, work_asks-IsOnce}
use ephy_worker.Repair.Rows.{empty_store, repair}
use ephy_worker.Bridge.Admission.{Arrival, handle}
use ephy_worker.Bridge.Guests.{AllGuests, desk_of, handle-AllGuests}
use ephy_worker.Tests.Bridges.{first_ledger, question_event}

abbrev some_settings : Settings
some_settings = record {
  guild_id = 1;
  allowed_channel_ids = 2 ∷ [];
  allowed_user_ids = 3 ∷ [];
  additional_channels = [];
  community_guild_ids = [];
  has_repairs = false;
}

-- The answer has two parts, and its delivery breaks off.
abbrev some_visit : Visit
some_visit = record {
  alive = λ text. false;
  receipt = got tt;
  classified = got repair;
  is_limited = false;
  identify = λ who. "repair-1";
  intent = none;
  is_public = true;
  gateway = got (
      record { text = "one"; answer_id = some 60 }
      ∷ record { text = "two"; answer_id = none }
      ∷ []);
  delivery = lost crashed;
  notice = got tt;
  now = 1000;
}

abbrev some_round : Round
some_round = record { draining = false; has_sender = true; visit = some_visit }

abbrev some_work : List Happening
some_work =
    round some_round
    ∷ ledger_call opens
    ∷ intakes (λ i. record { stopped = false; visit = some_visit; told = got tt })
    ∷ round some_round
    ∷ []

work_asks-IsOnce_example : IsOnce (
    work some_settings "9:9:9" some_work
      (record { ledger = first_ledger; store = empty_store; recorded = false; asked = [] }))
work_asks-IsOnce_example = work_asks-IsOnce some_settings "9:9:9" some_work first_ledger empty_store

-- The question goes to the gateway, and the row is done.
asked_seven :
    (work some_settings "9:9:9" some_work
      (record { ledger = first_ledger; store = empty_store; recorded = false; asked = [] })).asked
    ≡ 7 ∷ []
unfolding work ephy_worker.Bridge.Inbox.recover_round ephy_worker.Prelude.Table.find
    ephy_worker.Bridge.Machine.perform ephy_worker.Bridge.Ledger.open_ledger
    ephy_worker.Prelude.Table.delete ephy_worker.Prelude.Table.update
    ephy_worker.Bridge.Ledger.enqueue ephy_worker.Prelude.Table.count
    ephy_worker.Prelude.Table.insert ephy_worker.Bridge.Recovery.recover_intakes inbox_pending
    ephy_worker.Repair.Intakes.pending_intakes ephy_worker.Prelude.Table.select
asked_seven = refl

none_pending :
    inbox_pending none
      (work some_settings "9:9:9" some_work (record {
        ledger = first_ledger;
        store = empty_store;
        recorded = false;
        asked = [];
      })).ledger
    ≡ false
unfolding inbox_pending ephy_worker.Prelude.Table.find work ephy_worker.Bridge.Inbox.recover_round
    ephy_worker.Bridge.Machine.perform ephy_worker.Bridge.Ledger.open_ledger
    ephy_worker.Prelude.Table.delete ephy_worker.Prelude.Table.update
    ephy_worker.Bridge.Ledger.enqueue ephy_worker.Prelude.Table.count
    ephy_worker.Prelude.Table.insert ephy_worker.Bridge.Recovery.recover_intakes
    ephy_worker.Repair.Intakes.pending_intakes ephy_worker.Prelude.Table.select
none_pending = refl

abbrev some_arrival : Arrival
some_arrival = record {
  event = record question_event { message_id = 9 };
  question = "what else is new";
  intent = none;
  is_public = true;
  identify = λ who. "repair-2";
  consumer = "9:9:9";
  draining = false;
  receipt = got tt;
  now = 1000;
  again = 1000;
}

abbrev some_desk : Desk
some_desk = record { ledger = first_ledger; store = empty_store; recorded = false; asked = [] }

-- The message is put in.
handles_nine :
    inbox_pending (some 9) (desk_of (handle some_settings some_arrival some_desk)).ledger ≡ true
unfolding inbox_pending ephy_worker.Prelude.Table.find handle ephy_worker.Bridge.Machine.perform
    ephy_worker.Prelude.Table.count ephy_worker.Prelude.Table.insert
    ephy_worker.Prelude.Table.update
handles_nine = refl

handle-AllGuests_example :
    AllGuests some_settings (desk_of (handle some_settings some_arrival some_desk)).ledger
unfolding ephy_worker.Bridge.Machine.perform ephy_worker.Bridge.Ledger.enqueue
    ephy_worker.Prelude.Table.find ephy_worker.Prelude.Table.count ephy_worker.Prelude.Table.insert
    ephy_worker.Bridge.Desk.allows_channel
handle-AllGuests_example = handle-AllGuests some_settings some_arrival some_desk (refl, tt)
