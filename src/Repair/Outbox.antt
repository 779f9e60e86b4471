-- ===== src/Repair/Outbox.antt =====
-- The outgoing messages of `RepairStore` (owner_repair.py): `notify`, `finish`, `pending`,
-- `claim_delivery`, `delivered`. The parts of a text are an argument: `safe_final` and
-- `split_discord_text` make them before the transaction.
use Prim.Native.String.{String}
use ephy_worker.Prelude.{
  ℕ, suc, Bool, true, false, not, ◌&&◌, ◌||◌, ◌==◌, ltb, List, [], ◌∷◌, ◌++◌, none, some, is_some,
  member, sort, if◌then◌else◌, str_eq,
}
use ephy_worker.Prelude.Table.{find, select, count, update}
use ephy_worker.Repair.Rows.{
  owner_user_id, Delivery, pending, sending, sent, Outgoing, RepairJob, Field, Store, Outcome, done,
  failed, not_found, terminal_stage_required, delivery_message_invalid,
}
use ephy_worker.Repair.Jobs.{job_is, is_terminal_stage, set_stage}

abbrev pub is_pending : Delivery → Bool
is_pending pending = true
is_pending _ = false

abbrev pub is_sending : Delivery → Bool
is_sending sending = true
is_sending _ = false

abbrev pub goes_for : String → Outgoing → Bool
goes_for id o = str_eq o.job id

unfoldable pub parts_from : String → ℕ → List String → List Outgoing
parts_from id n [] = []
parts_from id n (part ∷ parts) =
    record { job = id; ordinal = n; text = part; state = pending; message = none }
    ∷ parts_from id (suc n) parts

-- The messages of a job are written once.
unfoldable pub freeze : String → List String → List Outgoing → List Outgoing
unfolding parts_from
freeze id parts outbox =
    if is_some (find (goes_for id) outbox) then outbox else outbox ++ parts_from id 0 parts

-- `notify`.
unfoldable pub notify : String → List String → Store → Store
unfolding freeze
notify id parts s = record s { outbox = freeze id parts s.outbox }

-- `finish`.
unfoldable pub finish : String → String → List String → List Field → ℕ → Store → Outcome Store
unfolding set_stage freeze
finish id stage parts fields now s =
    if not (is_terminal_stage stage)
    then failed terminal_stage_required
    else elim (find (job_is id) s.jobs) [
      | none ↦ failed not_found
      | some j ↦ done (record s {
        jobs = update (job_is id) (set_stage stage fields now) s.jobs;
        outbox = freeze id parts s.outbox;
      })
    ]

-- A row of the join in `pending`.
pub record Parcel : Type 0 where
  pub row : Outgoing
  pub request : RepairJob

-- FROM outbox o JOIN jobs j ON j.id=o.job WHERE o.state='pending'; the ids of jobs are unique.
unfoldable pub parcels : List RepairJob → List Outgoing → List Parcel
parcels jobs [] = []
parcels jobs (o ∷ os) =
    let rest = parcels jobs os in
    elim (find (job_is o.job) jobs) [
      | none ↦ rest
      | some j ↦ if is_pending o.state then record { row = o; request = j } ∷ rest else rest
    ]

-- ORDER BY j.created, o.ordinal.
abbrev pub sooner : Parcel → Parcel → Bool
sooner a b =
    ltb a.request.created b.request.created
    || (a.request.created == b.request.created && ltb a.row.ordinal b.row.ordinal)

abbrev pub may_go : ℕ → List ℕ → Parcel → Bool
may_go guild_id channel_ids p =
    p.request.guild == guild_id
    && member p.request.channel channel_ids
    && p.request.author == owner_user_id

-- `pending`.
unfoldable pub pending_parcels : ℕ → List ℕ → Store → List Parcel
unfolding parcels
pending_parcels guild_id channel_ids s =
    select (may_go guild_id channel_ids) (sort sooner (parcels s.jobs s.outbox))

abbrev pub is_part : String → ℕ → Outgoing → Bool
is_part id ordinal o = goes_for id o && o.ordinal == ordinal

abbrev pub waits : String → ℕ → Outgoing → Bool
waits id ordinal o = is_part id ordinal o && is_pending o.state

-- `claim_delivery`: whether the UPDATE changed one row.
unfoldable pub claim_delivery : String → ℕ → Store → Store × Bool
claim_delivery id ordinal s = (
  record s { outbox = update (waits id ordinal) (λ o. record o { state = sending }) s.outbox },
  count (waits id ordinal) s.outbox == 1,
)

unfoldable pub confirm : String → ℕ → ℕ → List Outgoing → List Outgoing
confirm id ordinal message_id outbox =
    update (λ o. is_part id ordinal o && is_sending o.state)
      (λ o. record o { state = sent; message = some message_id }) outbox

-- `delivered`.
unfoldable pub delivered : String → ℕ → ℕ → Store → Outcome Store
unfolding confirm
delivered id ordinal message_id s =
    if message_id == 0
    then failed delivery_message_invalid
    else done (record s { outbox = confirm id ordinal message_id s.outbox })
