-- ===== src/Repair/Kept.antt =====
-- What every call keeps of the outbox.
use Prim.Native.String.{String}
use ephy_worker.Prelude.{ℕ, ◌+◌, ◌≡◌, refl, Bool, true, List, [], ◌∷◌, ◌++◌, is_some, arith}
use ephy_worker.Prelude.Table.{find, count, update}
use ephy_worker.Repair.Rows.{Identity, Outgoing, Store, sending}
use ephy_worker.Repair.Outbox.{waits, freeze, notify, claim_delivery, confirm}
use ephy_worker.Repair.Intakes.{hold_intake, update_intake, mark_receipt}
use ephy_worker.Repair.Machine.{
  Call, captures, holds, marks, updates, enqueues, transitions, notifies, finishes, claims,
  delivers, perform, run,
}
use ephy_worker.Repair.Writes.{
  after-capture_intake, after-enqueue, after-claim_intake, after-transition, after-finish,
  after-delivered,
}

-- A property of the outbox that its four writes keep is kept by every call.
pub record IsKept (P : List Outgoing → Type 0) : Type 0 where
  pub freezes :
      (id : String) (parts : List String) (outbox : List Outgoing)
      → P outbox
      → P (freeze id parts outbox)
  pub claimed :
      (id : String) (ordinal : ℕ) (outbox : List Outgoing)
      → P outbox
      → P (update (waits id ordinal) (λ o. record o { state = sending }) outbox)
  pub confirmed :
      (id : String) (ordinal message_id : ℕ) (outbox : List Outgoing)
      → P outbox
      → P (confirm id ordinal message_id outbox)

module _ (P : List Outgoing → Type 0) (k : IsKept P) (identify : Identity → String) where
  perform-outbox : (call : Call) (s : Store) → P s.outbox → P (perform identify call s).outbox
  unfolding perform hold_intake update_intake mark_receipt notify claim_delivery
  perform-outbox (captures who text previous context now) s h =
      after-capture_intake (λ x. P x.outbox) identify who text previous context now s h (λ _ _ _. h)
  perform-outbox (enqueues who text previous now) s h =
      after-enqueue (λ x. P x.outbox) identify who text previous now s h (λ _ _ _. h)
  perform-outbox (holds alive id consumer) s h =
      after-claim_intake (λ x. P x.outbox) alive id consumer s h h
  perform-outbox (marks id) s h = h
  perform-outbox (updates id consumer route receipt finished release) s h = h
  perform-outbox (transitions id stage fields now) s h =
      after-transition (λ x. P x.outbox) id stage fields now s h h
  perform-outbox (notifies id parts) s h = k.freezes id parts s.outbox h
  perform-outbox (finishes id stage parts fields now) s h =
      after-finish (λ x. P x.outbox) id stage parts fields now s h (k.freezes id parts s.outbox h)
  perform-outbox (claims id ordinal) s h = k.claimed id ordinal s.outbox h
  perform-outbox (delivers id ordinal message_id) s h =
      after-delivered (λ x. P x.outbox) id ordinal message_id s h
        (k.confirmed id ordinal message_id s.outbox h)

  pub run-outbox : (calls : List Call) (s : Store) → P s.outbox → P (run identify calls s).outbox
  unfolding run
  run-outbox [] s h = h
  run-outbox (call ∷ calls) s h =
      run-outbox calls (perform identify call s) (perform-outbox call s h)

pub count-append :
    (p : Outgoing → Bool) (xs ys : List Outgoing) → count p (xs ++ ys) ≡ count p xs + count p ys
unfolding count
count-append p [] ys = omega arith
count-append p (x ∷ xs) ys = omega (arith, count-append p xs ys)

pub is_some-append :
    {A : Type 0} (p : A → Bool) (xs ys : List A)
    → is_some (find p xs) ≡ true
    → is_some (find p (xs ++ ys)) ≡ true
unfolding find
is_some-append p [] ys h = cc h
is_some-append p (x ∷ xs) ys h = ground (arith, h, is_some-append p xs ys)

pub is_some-update :
    {A : Type 0} (p q : A → Bool) (f : A → A) (rs : List A)
    → ((r : A) → p (f r) ≡ p r)
    → is_some (find p (update q f rs)) ≡ is_some (find p rs)
unfolding find update
is_some-update p q f [] h = refl
is_some-update p q f (r ∷ rs) h = ground (arith, h r, is_some-update p q f rs h)
