-- ===== src/Tests/Repairs.antt =====
-- The owner's store at concrete inputs.
use Prim.Native.String.{String}
use ephy_worker.Prelude.{
  ℕ, ◌≡◌, ◌≢◌, refl, true, false, none, some, List, [], ◌∷◌, arith, Bool, Option,
}
use ephy_worker.Prelude.Table.{find}
use ephy_worker.Repair.Rows.{owner_user_id, Identity, Intake, Store, empty_store, Route, repair}
use ephy_worker.Repair.Intakes.{claim_intake, hold_intake, update_intake, new_intake}
use ephy_worker.Repair.Outbox.{claim_delivery, notify}
use ephy_worker.Repair.Machine.{
  Call, captures, enqueues, notifies, delivers, finishes, claims, holds, run,
}
use ephy_worker.Repair.Owner.{IsOwned, all-IsOwned}
use ephy_worker.Repair.Once.{delivery_once}
use ephy_worker.Repair.Frozen.{texts_of, notify_freezes}
use ephy_worker.Repair.Resumption.{intake_once}

-- Every identity has the same id here: the store tells apart what it can.
abbrev one_id : Identity → String
one_id who = "repair-1"

abbrev owner_message : Identity
owner_message = record { guild_id = 1; channel_id = 2; message_id = 7; author_id = owner_user_id }

abbrev first_calls : List Call
first_calls =
    captures owner_message "please fix it" none none 100
    ∷ enqueues owner_message "please fix it" none 101
    ∷ notifies "repair-1" ("part one" ∷ "part two" ∷ [])
    ∷ []

abbrev first_store : Store
first_store = run one_id first_calls empty_store

all-IsOwned_example : IsOwned (run one_id first_calls empty_store)
all-IsOwned_example = all-IsOwned one_id first_calls

abbrev later_calls : List Call
later_calls =
    delivers "repair-1" 0 99
    ∷ finishes "repair-1" "failed" ("other text" ∷ []) [] 200
    ∷ claims "repair-1" 0
    ∷ []

first_delivery :
    claim_delivery "repair-1" 0 first_store ≡ ((claim_delivery "repair-1" 0 first_store).0, true)
unfolding claim_delivery ephy_worker.Prelude.Table.count run ephy_worker.Repair.Machine.perform
    notify find ephy_worker.Repair.Jobs.enqueue ephy_worker.Repair.Rows.snowflakes
    ephy_worker.Repair.Rows.text_valid ephy_worker.Repair.Rows.previous_valid
    ephy_worker.Repair.Intakes.capture_intake
first_delivery = refl

delivery_once_example :
    (claim_delivery "repair-1" 0
      (run one_id later_calls (claim_delivery "repair-1" 0 first_store).0)).1
    ≡ false
delivery_once_example =
    delivery_once one_id "repair-1" 0 first_store (claim_delivery "repair-1" 0 first_store).0
      later_calls first_delivery

abbrev two_parts : List String
two_parts = "part one" ∷ "part two" ∷ []

has_parts : two_parts ≢ []
has_parts e = cc

notify_freezes_example :
    texts_of "repair-1"
      (run one_id
        (enqueues owner_message "please fix it" none 101 ∷ later_calls)
        (notify "repair-1" two_parts empty_store)).outbox
    ≡ two_parts
unfolding find
notify_freezes_example =
    notify_freezes one_id "repair-1" two_parts empty_store
      (enqueues owner_message "please fix it" none 101 ∷ later_calls) has_parts refl

abbrev the_intake : Intake
the_intake = new_intake "repair-1" owner_message "please fix it" none none 100

abbrev held_store : Store
held_store = hold_intake "repair-1" "9:9" first_store

first_hold :
    claim_intake (λ text. true) "repair-1" "9:9" first_store ≡ (held_store, some the_intake)
unfolding claim_intake find run ephy_worker.Repair.Machine.perform notify
    ephy_worker.Repair.Jobs.enqueue ephy_worker.Repair.Rows.snowflakes
    ephy_worker.Repair.Rows.text_valid ephy_worker.Repair.Rows.previous_valid
    ephy_worker.Repair.Intakes.capture_intake ephy_worker.Prelude.Table.insert
first_hold = refl

intake_once_example :
    (claim_intake
      (λ text. false)
      "repair-1"
      "8:8"
      (run one_id
        (captures owner_message "please fix it" none none 300 ∷ [])
        (update_intake "repair-1" "9:9" (some repair) false true true held_store))).1
    ≡ none
intake_once_example =
    intake_once one_id (λ text. true) (λ text. false) "repair-1" "9:9" "8:8" (some repair) false
      true the_intake first_store held_store
      (captures owner_message "please fix it" none none 300 ∷ []) first_hold
