-- ===== src/Bridge/Working.antt =====
-- The work on an intake keeps that each question went to the gateway once, behind its claim.
use Prim.Native.String.{String}
use ephy_worker.Prelude.{
  ℕ, ◌≡◌, refl, Bool, Bool-cases, Option-cases, true, false, ◌&&◌, List, Option, none, some,
  is_some, inl, inr, ◌⊎◌,
}
use ephy_worker.Prelude.Table.{find}
use ephy_worker.Bridge.Context.{Context}
use ephy_worker.Bridge.Ledger.{seen}
use ephy_worker.Bridge.Machine.{perform, updates}
use ephy_worker.Bridge.Once.{perform-Keeps}
use ephy_worker.Bridge.Desk.{
  Settings, Desk, bridge, crashed, cancelled, Act, go_on, leave, raised, ◌>>=◌, Reply, Part, Visit,
  await, set_store, ask_intake, send_parts, event_of, claim_request,
}
use ephy_worker.Bridge.Intakes.{
  note_intake, close_intake, note_route, find_route, tell_if, identity_of, repair_intake,
  answer_intake, follow_route, send_receipt, work_intake, is_unclassified, except_intake,
  release_intake, process_intake,
}
use ephy_worker.Bridge.Inbox.{note_row}
use ephy_worker.Bridge.Steps.{
  IsOnce, AllActs, AllActs-bind, ledger-IsOnce, await-AllActs, Claimed, claim_request-AllActs,
  send_parts-AllActs, ask_intake-AllActs,
}
use ephy_worker.Repair.Rows
use ephy_worker.Repair.Rows.{Store, Intake, Route, repair, conversation}
use ephy_worker.Repair.Intakes.{claim_intake}
use ephy_worker.Repair.Jobs.{enqueue, job_is}

-- A step whose desk holds, whatever it gives.
abbrev pub Holds : {A : Type 0} → Act A → Type 0
Holds act = AllActs (λ d _. IsOnce d) act

pub Holds-bind :
    {A B : Type 0} (act : Act A) (next : Desk → A → Act B)
    → Holds act
    → ((d : Desk) (a : A) → IsOnce d → Holds (next d a))
    → Holds (act >>= next)
Holds-bind act next h k = AllActs-bind (λ d _. IsOnce d) (λ d _. IsOnce d) act next h k

pub Holds-await : {A : Type 0} (r : Reply A) (d : Desk) → IsOnce d → Holds (await r d)
Holds-await r d h = await-AllActs IsOnce (λ d' k. k) r d h

pub store-IsOnce : (d : Desk) (s : Store) → IsOnce d → IsOnce (set_store s d)
unfolding set_store
store-IsOnce d s h = record { distinct = h.distinct; recorded = h.recorded }

note_intake-IsOnce :
    (id consumer : String) (route : Option Route) (receipt finished release : Bool) (d : Desk)
    → IsOnce d
    → IsOnce (note_intake id consumer route receipt finished release d)
unfolding note_intake
note_intake-IsOnce id consumer route receipt finished release d h = store-IsOnce d _ h

pub note_row-IsOnce :
    (message : ℕ) (receipt finished release : Bool) (d : Desk)
    → IsOnce d
    → IsOnce (note_row message receipt finished release d)
unfolding note_row perform
note_row-IsOnce message receipt finished release d h =
    ledger-IsOnce d (perform (updates message receipt finished release) d.ledger)
      (λ m. perform-Keeps m (updates message receipt finished release) d.ledger) h

note_route-Holds :
    (consumer : String) (i : Intake) (d : Desk) (route : Route)
    → IsOnce d
    → Holds (note_route consumer i d route)
unfolding note_route
note_route-Holds consumer i d conversation h =
    note_intake-IsOnce i.id consumer (some conversation) false false false d h
note_route-Holds consumer i d repair h = h

find_route-Holds :
    (v : Visit) (consumer : String) (i : Intake) (d : Desk)
    → IsOnce d
    → Holds (find_route v consumer i d)
unfolding find_route
find_route-Holds v consumer i d h = elim (Option-cases i.route) [
  | inr known ↦ rw (find_route, known.1) h
  | inl unknown ↦
      rw (find_route, unknown)
        (Holds-bind (await v.classified d) (λ d' route. note_route consumer i d' route)
          (Holds-await v.classified d h) (λ d' route k. note_route-Holds consumer i d' route k))
]

send_receipt-Holds :
    (v : Visit) (consumer : String) (i : Intake) (d : Desk)
    → IsOnce d
    → Holds (send_receipt v consumer i d)
unfolding send_receipt
send_receipt-Holds v consumer i d h = elim (Bool-cases i.receipt) [
  | inl sent' ↦ rw (send_receipt, sent') h
  | inr first ↦
      rw (send_receipt, first)
        (Holds-bind (await v.receipt d)
          (λ d' _. go_on (note_intake i.id consumer none true false false d') tt)
          (Holds-await v.receipt d h)
          (λ d' _ k. note_intake-IsOnce i.id consumer none true false false d' k))
]

Stored-cases {ℓ} :
    {A : Type ℓ} (o : Rows.Outcome A)
    → ((a : A) × (o ≡ Rows.done a)) ⊎ ((code : Rows.RepairCode) × (o ≡ Rows.failed code))
Stored-cases (Rows.done a) = inl (a, refl)
Stored-cases (Rows.failed code) = inr (code, refl)

tell_if-Holds :
    (v : Visit) (consumer : String) (i : Intake) (d : Desk) (fresh : Bool)
    → Claimed i.message d fresh
    → Holds (tell_if v consumer i d fresh)
unfolding tell_if
tell_if-Holds v consumer i d false h = note_intake-IsOnce i.id consumer none false true false d h
tell_if-Holds v consumer i d true h =
    Holds-await v.notice (close_intake i.id consumer d)
      (note_intake-IsOnce i.id consumer none false true false d h.once)

repair_intake-Holds :
    (v : Visit) (consumer : String) (i : Intake) (d : Desk)
    → IsOnce d
    → Holds (repair_intake v consumer i d)
unfolding repair_intake
repair_intake-Holds v consumer i d h = elim (Bool-cases v.is_limited) [
  | inl limited ↦
      rw (repair_intake, limited)
        (Holds-bind (await v.notice d) (λ d' _. go_on (close_intake i.id consumer d') tt)
          (Holds-await v.notice d h)
          (λ d' _ k. note_intake-IsOnce i.id consumer none false true false d' k))
  | inr free ↦
      elim (Stored-cases (enqueue v.identify (identity_of i) i.text i.previous v.now d.store)) [
        | inr bad ↦ rw (repair_intake, free, bad.1) h
        | inl (answer, stored) ↦
            rw (repair_intake, free, stored)
              (AllActs-bind (Claimed i.message) (λ d' _. IsOnce d')
                (claim_request i.message (set_store answer.0 d))
                (λ d1 fresh. tell_if v consumer i d1 fresh)
                (claim_request-AllActs i.message (set_store answer.0 d) (store-IsOnce d answer.0 h))
                (λ d1 fresh k. tell_if-Holds v consumer i d1 fresh k))
      ]
]

answer_intake-Holds :
    (v : Visit) (consumer : String) (i : Intake) (d : Desk)
    (answer : Option (Option Context × List Part))
    → IsOnce d
    → Holds (answer_intake v consumer i d answer)
unfolding answer_intake
answer_intake-Holds v consumer i d none h =
    Holds-await v.notice (close_intake i.id consumer d)
      (note_intake-IsOnce i.id consumer none false true false d h)
answer_intake-Holds v consumer i d (some answer) h =
    Holds-bind
      (send_parts v (event_of i.message (some i.guild) i.channel i.author i.text) answer.0 answer.1
        d)
      (λ d' _. go_on (close_intake i.id consumer d') tt)
      (send_parts-AllActs v (event_of i.message (some i.guild) i.channel i.author i.text) answer.0
        answer.1 d h)
      (λ d' _ k. note_intake-IsOnce i.id consumer none false true false d' k)

follow_route-Holds :
    (s : Settings) (v : Visit) (consumer : String) (i : Intake) (d : Desk) (route : Route)
    → IsOnce d
    → Holds (follow_route s v consumer i d route)
unfolding follow_route
follow_route-Holds s v consumer i d repair h = repair_intake-Holds v consumer i d h
follow_route-Holds s v consumer i d conversation h =
    Holds-bind (ask_intake s v i d) (λ d' answer. answer_intake v consumer i d' answer)
      (ask_intake-AllActs s v i d h) (λ d' answer k. answer_intake-Holds v consumer i d' answer k)

work_intake-Holds :
    (s : Settings) (v : Visit) (consumer : String) (i : Intake) (d : Desk)
    → IsOnce d
    → Holds (work_intake s v consumer i d)
unfolding work_intake
work_intake-Holds s v consumer i d h =
    elim (Bool-cases (seen i.message d.ledger && is_some (find (job_is i.id) d.store.jobs))) [
      | inl there ↦
          rw (work_intake, there) (note_intake-IsOnce i.id consumer none false true false d h)
      | inr new ↦
          rw (work_intake, new)
            (Holds-bind (send_receipt v consumer i d)
              (λ d1 _.
                find_route v consumer i d1 >>= λ d2 route. follow_route s v consumer i d2 route)
              (send_receipt-Holds v consumer i d h)
              (λ d1 _ k.
                Holds-bind (find_route v consumer i d1)
                  (λ d2 route. follow_route s v consumer i d2 route)
                  (find_route-Holds v consumer i d1 k)
                  (λ d2 route k'. follow_route-Holds s v consumer i d2 route k')))
    ]

except_intake-Holds :
    (id consumer : String) (act : Act (Unit {0}))
    → Holds act
    → Holds (except_intake id consumer act)
unfolding except_intake
except_intake-Holds id consumer (go_on d a) h = h
except_intake-Holds id consumer (leave d) h = h
except_intake-Holds id consumer (raised d crashed) h = h
except_intake-Holds id consumer (raised d cancelled) h = h
except_intake-Holds id consumer (raised d (bridge code)) h =
    elim (Bool-cases (is_unclassified code)) [
      | inl later ↦ rw (except_intake, later) h
      | inr over ↦
          rw (except_intake, over) (note_intake-IsOnce id consumer none false true false d h)
    ]

release_intake-Holds :
    (id consumer : String) (act : Act (Unit {0}))
    → Holds act
    → Holds (release_intake id consumer act)
unfolding release_intake
release_intake-Holds id consumer (go_on d a) h =
    note_intake-IsOnce id consumer none false false true d h
release_intake-Holds id consumer (leave d) h =
    note_intake-IsOnce id consumer none false false true d h
release_intake-Holds id consumer (raised d why) h =
    note_intake-IsOnce id consumer none false false true d h

pub process_intake-Holds :
    (s : Settings) (v : Visit) (consumer id : String) (d : Desk)
    → IsOnce d
    → Holds (process_intake s v consumer id d)
unfolding process_intake
process_intake-Holds s v consumer id d h =
    elim (Option-cases (claim_intake v.alive id consumer d.store).1) [
      | inl nothing ↦
          rw (process_intake, nothing)
            (store-IsOnce d (claim_intake v.alive id consumer d.store).0 h)
      | inr (i, e) ↦
          let store = (claim_intake v.alive id consumer d.store).0 in
          rw (process_intake, e)
            (release_intake-Holds id consumer
              (except_intake id consumer (work_intake s v consumer i (set_store store d)))
              (except_intake-Holds id consumer (work_intake s v consumer i (set_store store d))
                (work_intake-Holds s v consumer i (set_store store d) (store-IsOnce d store h))))
    ]
