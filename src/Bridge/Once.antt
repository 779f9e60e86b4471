-- ===== src/Bridge/Once.antt =====
-- The claims of the ledger (discord_runtime.py, `BridgeLedger`: `claim`, `enqueue`, `claim_next`).
use Prim.Native.String.{String}
use ephy_worker.Prelude.{
  ℕ, ◌≤◌, ◌<◌, ◌≡◌, refl, subst, sym, ap, Bool, Bool-cases, Option-cases, true, false, not, ◌&&◌,
  leb, member, ==_refl, List, [], ◌∷◌, Option, some, length, arith, inl, inr, All,
}
use ephy_worker.Prelude.Table.{find, count, count_of_found, find-holds, All-map}
use ephy_worker.Bridge.Context.{Event, done, Context, community_context}
use ephy_worker.Bridge.Ledger.{
  InboxRow, Ledger, is_pending, is_reserved, message_is, open_ledger, is_known, seen, enqueue,
  add_row, inbox_pending, claim_next, hand_over, is_held, set_receipt, set_done, set_free, claim,
}
use ephy_worker.Bridge.Answers.{store_answer}
use ephy_worker.Bridge.Machine.{
  Call, opens, enqueues, claims_next, updates, claims, remembers, perform, run, Reach,
}
use ephy_worker.Bridge.Writes.{
  after-enqueue, after-claim, after-claim_next, after-inbox_update, after-remember,
}
use ephy_worker.Bridge.Sound.{request_of, Ordered}
use ephy_worker.Bridge.Bounds.{Reach-IsWell, pending_row}

-- What every call keeps of the requests.
abbrev pub Keeps : ℕ → Ledger → Ledger → Type 0
Keeps message l l' = member message l.requests ≡ true → member message l'.requests ≡ true

pub perform-Keeps : (message : ℕ) (call : Call) (l : Ledger) → Keeps message l (perform call l)
unfolding perform open_ledger add_row hand_over set_receipt set_done set_free store_answer
perform-Keeps message opens l h = h
perform-Keeps message (enqueues event question previous intake consumer given) l h =
    after-enqueue (Keeps message l) event question previous intake consumer given l (λ e. e)
      (λ _ _ _ e. e) h
perform-Keeps message (claims_next alive consumer) l h =
    after-claim_next (Keeps message l) alive consumer l (λ e. e) (λ _ e. e) h
perform-Keeps message (updates other receipt finished release) l h =
    after-inbox_update (Keeps message l) other receipt finished release l (λ e. e) (λ _ k. k)
      (λ _ k. k) (λ _ k. k) h
perform-Keeps message (claims other) l h =
    after-claim (Keeps message l) other l (λ e. e) (λ _ _ e. ground (arith, e)) h
perform-Keeps message (remembers answer_id event content given now) l h =
    after-remember (Keeps message l) answer_id event content given now l (λ e. e) (λ _ e. e) h

run-Keeps : (message : ℕ) (calls : List Call) (l : Ledger) → Keeps message l (run calls l)
unfolding run
run-Keeps message [] l h = h
run-Keeps message (call ∷ calls) l h =
    run-Keeps message calls (perform call l) (perform-Keeps message call l h)

-- A message is executed at most once. After a claim of it was accepted as a new one, and whatever calls
-- follow, a claim of it is answered "not new", and so is `enqueue` with a valid context; both write nothing.
pub claim_once :
    (message : ℕ) (l l' : Ledger) (calls : List Call) (event : Event) (question : String)
    (previous intake consumer : Option String) (given context : Option Context)
    → claim message l ≡ done (l', true)
    → event.message_id ≡ message
    → community_context given ≡ done context
    → (claim message (run calls l') ≡ done (run calls l', false))
      × (enqueue event question previous intake consumer given (run calls l')
          ≡ done (run calls l', false))
unfolding claim enqueue is_known seen
claim_once message l l' calls event question previous intake consumer given context e same valid =
    let first : member message l'.requests ≡ true = ground (arith, ==_refl message) in
    let there : member message (run calls l').requests ≡ true = run-Keeps message calls l' first in
    let there' : member event.message_id (run calls l').requests ≡ true = rw same there in
    (ground (arith, there), ground (arith, there', valid))

-- In a bridge without a store for repairs the reserve is enough: in every ledger that its calls reach, the
-- claim of a pending message never fails for want of room, and it is answered "new" unless the message was
-- claimed before.
pub claim_pending :
    (l : Ledger) (message : ℕ)
    → Reach false l
    → inbox_pending (some message) l ≡ true
    → (l' : Ledger) × (claim message l ≡ done (l', not (seen message l))) × (seen message l' ≡ true)
unfolding claim seen
claim_pending l message reach there = elim (Bool-cases (member message l.requests)) [
  | inl again ↦ rw (claim, again) (l, refl, again)
  | inr new ↦
      let (r, e) = pending_row message l there in
      let waits : 1 ≤ count (is_reserved l.requests) l.inbox =
        count_of_found (is_reserved l.requests) (λ x. is_pending x && message_is message x) l.inbox
          r e
          (request_of l.requests message r new
            (find-holds (λ x. is_pending x && message_is message x) l.inbox r e)).0 in
      let room : leb 10000 (length l.requests) ≡ false =
        ground (arith, (Reach-IsWell false l reach).reserve refl, waits) in
      rw (claim, new, room) (_, refl, ground (arith, ==_refl message))
]

first-IsOldest :
    (rs : List InboxRow) (r : InboxRow)
    → Ordered rs
    → find is_pending rs ≡ some r
    → All (λ x. x.finished ≡ false → r.sequence ≤ x.sequence) rs
unfolding find
first-IsOldest [] r h e = tt
first-IsOldest (x ∷ xs) r h e = elim (Bool-cases x.finished) [
  | inl over ↦
      let rest : find is_pending xs ≡ some r = ground (arith, over) in
      (λ open'. cc (over, open'), first-IsOldest xs r h.1 rest)
  | inr free ↦
      let same : x ≡ r = ground (arith, free) in
      subst (λ a. All (λ y. y.finished ≡ false → a.sequence ≤ y.sequence) (x ∷ xs)) same
        (
          λ _. omega arith,
          All-map (λ y. x.sequence < y.sequence) (λ y. y.finished ≡ false → x.sequence ≤ y.sequence)
              xs (λ y lt _. omega (arith, lt)) h.0,
        )
]

-- What `claim_next` hands over in a ledger that the calls reach, with a store for repairs or without: a pending row that no running process
-- holds, and none of the pending rows is older. Only the consumers of the inbox change.
pub claim_next-IsOldest :
    (has_repairs : Bool) (l l' : Ledger) (alive : String → Bool) (consumer : String) (r : InboxRow)
    → Reach has_repairs l
    → claim_next alive consumer l ≡ (l', some r)
    → (r.finished ≡ false)
      × (is_held alive r.consumer ≡ false)
      × All (λ x. x.finished ≡ false → r.sequence ≤ x.sequence) l.inbox
      × (l' ≡ hand_over (some consumer) r.sequence l)
unfolding claim_next
claim_next-IsOldest has_repairs l l' alive consumer r reach e =
    elim (Option-cases (find is_pending l.inbox)) [
      | inl empty ↦ absurd (ground (arith, empty))
      | inr (r', found') ↦ elim (Bool-cases (is_held alive r'.consumer)) [
        | inl held ↦ absurd (ground (arith, found', held))
        | inr free ↦
            let parts : (r' ≡ r) × (hand_over (some consumer) r'.sequence l ≡ l') =
              ground (arith, found', free) in
            let there : find is_pending l.inbox ≡ some r = rw found' (ap some parts.0) in
            (
              ground (arith, find-holds is_pending l.inbox r there),
              subst (λ x. is_held alive x.consumer ≡ false) parts.0 free,
              first-IsOldest l.inbox r (Reach-IsWell has_repairs l reach).ordered there,
              subst (λ x. l' ≡ hand_over (some consumer) x.sequence l) parts.0 (sym parts.1),
            )
      ]
    ]
