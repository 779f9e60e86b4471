-- ===== src/Bridge/Writes.antt =====
-- What each call of the ledger may write: a property of ledgers holds after the call if it holds before
-- and after each of the writes that the call may come to.
use Prim.Native.String.{String}
use ephy_worker.Prelude.{
  arith, ◌<◌, ℕ, ◌≡◌, ◌⊎◌, refl, Bool, Bool-cases, Option-cases, true, false, Option, none, some,
  inl, inr, length, leb, member, if◌then◌else◌, ◌∷◌,
}
use ephy_worker.Prelude.Table.{find}
use ephy_worker.Bridge.Context.{
  Event, BridgeCode, Outcome, done, failed, Context, community_context,
}
use ephy_worker.Bridge.Ledger.{
  Ledger, is_pending, check_capacity, is_known, enqueue, new_row, add_row, claim_next, hand_over,
  is_held, inbox_update, set_receipt, set_done, set_free, claim,
}
use ephy_worker.Bridge.Answers.{remember, store_answer, new_answer}
use ephy_worker.Bridge.Machine.{after, or_old}

pub Outcome-cases {ℓ} :
    {A : Type ℓ} (o : Outcome A)
    → ((a : A) × (o ≡ done a)) ⊎ ((code : BridgeCode) × (o ≡ failed code))
Outcome-cases (done a) = inl (a, refl)
Outcome-cases (failed code) = inr (code, refl)

module _ (P : Ledger → Type 0) where
  either : (b : Bool) (l l' : Ledger) → P l → P l' → P (if b then l else l')
  either true l l' h k = h
  either false l l' h k = k

  pub after-enqueue :
      (event : Event) (question : String) (previous intake consumer : Option String)
      (given : Option Context) (l : Ledger)
      → P l
      → ((context : Option Context)
          → is_known event.message_id l ≡ false
          → check_capacity l ≡ none
          → P (add_row (new_row event question previous intake consumer context) l))
      → P (after l (enqueue event question previous intake consumer given l))
  unfolding enqueue
  after-enqueue event question previous intake consumer given l h added =
      elim (Outcome-cases (community_context given)) [
        | inr bad ↦ rw (enqueue, bad.1) h
        | inl (context, e) ↦ elim (Bool-cases (is_known event.message_id l)) [
          | inl again ↦ rw (enqueue, e, again) h
          | inr new ↦ elim (Option-cases (check_capacity l)) [
            | inr full ↦ rw (enqueue, e, new, full.1) h
            | inl room ↦ rw (enqueue, e, new, room) (added context new room)
          ]
        ]
      ]

  pub after-claim :
      (message : ℕ) (l : Ledger)
      → P l
      → (member message l.requests ≡ false
          → length l.requests < 10000
          → P (record l { requests = message ∷ l.requests }))
      → P (after l (claim message l))
  unfolding claim
  after-claim message l h added = elim (Bool-cases (member message l.requests)) [
    | inl again ↦ rw (claim, again) h
    | inr new ↦ elim (Bool-cases (leb 10000 (length l.requests))) [
      | inl full ↦ rw (claim, new, full) h
      | inr room ↦ rw (claim, new, room) (added new (ground (arith, room)))
    ]
  ]

  pub after-claim_next :
      (alive : String → Bool) (consumer : String) (l : Ledger)
      → P l
      → ((sequence : ℕ) → P (hand_over (some consumer) sequence l))
      → P (claim_next alive consumer l).0
  unfolding claim_next
  after-claim_next alive consumer l h handed = elim (Option-cases (find is_pending l.inbox)) [
    | inl empty ↦ rw (claim_next, empty) h
    | inr (r, e) ↦ elim (Bool-cases (is_held alive r.consumer)) [
      | inl held ↦ rw (claim_next, e, held) h
      | inr free ↦ rw (claim_next, e, free) (handed r.sequence)
    ]
  ]

  pub after-inbox_update :
      (message : ℕ) (receipt finished release : Bool) (l : Ledger)
      → P l
      → ((l' : Ledger) → P l' → P (set_receipt message l'))
      → ((l' : Ledger) → P l' → P (set_done message l'))
      → ((l' : Ledger) → P l' → P (set_free message l'))
      → P (inbox_update message receipt finished release l)
  unfolding inbox_update
  after-inbox_update message receipt finished release l h received closed freed =
      let l' = if receipt then set_receipt message l else l in
      let l'' = if finished then set_done message l' else l' in
      let h' : P l' = either receipt (set_receipt message l) l (received l h) h in
      let h'' : P l'' = either finished (set_done message l') l' (closed l' h') h' in
      either release (set_free message l'') l'' (freed l'' h'') h''

  pub after-remember :
      (answer_id : ℕ) (event : Event) (content : String) (given : Option Context) (now : ℕ)
      (l : Ledger)
      → P l
      → ((context : Option Context)
          → P (store_answer (new_answer answer_id event content context now) l))
      → P (or_old l (remember answer_id event content given now l))
  unfolding remember
  after-remember answer_id event content given now l h stored =
      elim (Outcome-cases (community_context given)) [
        | inl good ↦ rw (remember, good.1) (stored good.0)
        | inr bad ↦ rw (remember, bad.1) h
      ]
