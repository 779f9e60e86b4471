-- ===== src/Bridge/Recovery.antt =====
-- The intakes that wait (discord_runtime.py, `RuntimeDiscordBridge`: `recover_intakes`, behind its call of
-- `recover_inbox`). What the channel and the gateway do to each intake is an argument.
use Prim.Native.String.{String}
use ephy_worker.Prelude.{
  Bool, Bool-cases, true, false, List, [], ◌∷◌, none, if◌then◌else◌, inl, inr,
}
use ephy_worker.Bridge.Ledger.{inbox_has, inbox_pending}
use ephy_worker.Bridge.Desk.{
  Settings, Desk, bridge, crashed, cancelled, Act, go_on, leave, raised, Visit, Reply, got, lost,
}
use ephy_worker.Bridge.Intakes.{process_intake}
use ephy_worker.Bridge.Steps.{IsOnce}
use ephy_worker.Bridge.Working.{Holds, process_intake-Holds}
use ephy_worker.Repair.Rows.{Intake}
use ephy_worker.Repair.Intakes.{pending_intakes}

-- What meets the work on one intake: the drain marker or two works in progress, then the visit, and
-- whether a failure could be told.
pub record IntakeTurn : Type 0 where
  pub stopped : Bool
  pub visit : Visit
  pub told : Reply (Unit {0})

-- How the loop goes on behind an intake: a `BridgeError` is told to its author, which may itself fail,
-- other exceptions are passed over, and a cancellation ends the loop.
unfoldable pub after_intake : IntakeTurn → Act (Unit {0}) → Desk × Bool
after_intake t (go_on d a) = (d, true)
after_intake t (leave d) = (d, true)
after_intake t (raised d crashed) = (d, true)
after_intake t (raised d cancelled) = (d, false)
after_intake t (raised d (bridge code)) = elim t.told [ got a ↦ (d, true) | lost why ↦ (d, false) ]

-- The loop over the intakes that were pending when it began.
unfoldable pub work_intakes : Settings → String → (Intake → IntakeTurn) → List Intake → Desk → Desk
unfolding process_intake after_intake
work_intakes s consumer turn [] d = d
work_intakes s consumer turn (i ∷ rest) d =
    let worked = after_intake (turn i) (process_intake s (turn i).visit consumer i.id d) in
    let skipped = work_intakes s consumer turn rest d in
    let went = work_intakes s consumer turn rest worked.0 in
    if inbox_has i.message d.ledger
    then skipped
    else if (turn i).stopped
    then d
    else if worked.1
    then went
    else worked.0

-- `recover_intakes`, where the inbox has been worked through.
unfoldable pub recover_intakes : Settings → String → (Intake → IntakeTurn) → Desk → Desk
unfolding work_intakes
recover_intakes s consumer turn d =
    if inbox_pending none d.ledger
    then d
    else work_intakes s consumer turn (pending_intakes s.guild_id s.allowed_channel_ids d.store) d

after_intake-IsOnce :
    (t : IntakeTurn) (act : Act (Unit {0})) → Holds act → IsOnce (after_intake t act).0
unfolding after_intake
after_intake-IsOnce t (go_on d a) h = h
after_intake-IsOnce t (leave d) h = h
after_intake-IsOnce t (raised d crashed) h = h
after_intake-IsOnce t (raised d cancelled) h = h
after_intake-IsOnce t (raised d (bridge code)) h = told t.told
  where
    told :
        (r : Reply (Unit {0}))
        → IsOnce (after_intake (record t { told = r }) (raised d (bridge code))).0
    told (got a) = h
    told (lost why) = h

work_intakes-IsOnce :
    (s : Settings) (consumer : String) (turn : Intake → IntakeTurn) (rows : List Intake) (d : Desk)
    → IsOnce d
    → IsOnce (work_intakes s consumer turn rows d)
unfolding work_intakes
work_intakes-IsOnce s consumer turn [] d h = h
work_intakes-IsOnce s consumer turn (i ∷ rest) d h =
    let act = process_intake s (turn i).visit consumer i.id d in
    let k : IsOnce (after_intake (turn i) act).0 =
      after_intake-IsOnce (turn i) act (process_intake-Holds s (turn i).visit consumer i.id d h) in
    elim (Bool-cases (inbox_has i.message d.ledger)) [
      | inl there ↦ rw (work_intakes, there) (work_intakes-IsOnce s consumer turn rest d h)
      | inr gone ↦ elim (Bool-cases (turn i).stopped) [
        | inl stop ↦ rw (work_intakes, gone, stop) h
        | inr go ↦ elim (Bool-cases (after_intake (turn i) act).1) [
          | inl on ↦
              rw (work_intakes, gone, go, on)
                (work_intakes-IsOnce s consumer turn rest (after_intake (turn i) act).0 k)
          | inr over ↦ rw (work_intakes, gone, go, over) k
        ]
      ]
    ]

pub recover_intakes-IsOnce :
    (s : Settings) (consumer : String) (turn : Intake → IntakeTurn) (d : Desk)
    → IsOnce d
    → IsOnce (recover_intakes s consumer turn d)
unfolding recover_intakes
recover_intakes-IsOnce s consumer turn d h = elim (Bool-cases (inbox_pending none d.ledger)) [
  | inl busy ↦ rw (recover_intakes, busy) h
  | inr idle ↦
      rw (recover_intakes, idle)
        (work_intakes-IsOnce s consumer turn
          (pending_intakes s.guild_id s.allowed_channel_ids d.store) d h)
]
