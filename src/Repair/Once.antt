-- ===== src/Repair/Once.antt =====
-- A message goes out at most once, with the text that was frozen for it, and an intake that is done is
-- not taken up again.
use Prim.Native.String.{String}
use ephy_worker.Prelude.{
  ℕ, suc, ◌≤◌, ◌≡◌, refl, subst, ap, ◌∙◌, Bool-cases, true, false, ◌&&◌, ◌==◌, List, [], ◌∷◌, some,
  is_some, arith, inl, inr, str_eq, eq_iff,
}
use ephy_worker.Prelude.Table.{find, count, update}
use ephy_worker.Prelude.Counts.{count-update_le}
use ephy_worker.Repair.Rows.{Identity, Outgoing, Store, sending, sent}
use ephy_worker.Repair.Outbox.{
  goes_for, is_part, waits, is_sending, parts_from, freeze, claim_delivery, confirm,
}
use ephy_worker.Repair.Machine.{Call, run}
use ephy_worker.Repair.Kept.{IsKept, run-outbox, is_some-append, is_some-update, count-append}

-- The messages of a job are there, and the part is not waiting.
abbrev IsTaken : String → ℕ → List Outgoing → Type 0
IsTaken id n outbox = (is_some (find (goes_for id) outbox) ≡ true) × (count (waits id n) outbox ≡ 0)

other_parts :
    (id other : String) (n m : ℕ) (parts : List String)
    → str_eq other id ≡ false
    → count (waits id n) (parts_from other m parts) ≡ 0
unfolding count parts_from
other_parts id other n m [] h = refl
other_parts id other n m (part ∷ parts) h =
    ground (arith, h, other_parts id other n (suc m) parts h)

freeze-IsTaken :
    (id : String) (n : ℕ) (other : String) (parts : List String) (outbox : List Outgoing)
    → IsTaken id n outbox
    → IsTaken id n (freeze other parts outbox)
unfolding freeze
freeze-IsTaken id n other parts outbox h =
    elim (Bool-cases (is_some (find (goes_for other) outbox))) [
      | inl there ↦ rw (freeze, there) h
      | inr new ↦ elim (Bool-cases (str_eq other id)) [
        | inl same ↦
            let e : other ≡ id = (eq_iff other id).0 same in
            absurd (cc (h.0, subst (λ x. is_some (find (goes_for x) outbox) ≡ false) e new))
        | inr differ ↦
            rw (freeze, new)
              (
                is_some-append (goes_for id) outbox (parts_from other 0 parts) h.0,
                omega (
                  arith,
                  h.1,
                  count-append (waits id n) outbox (parts_from other 0 parts),
                  other_parts id other n 0 parts differ,
                ),
              )
      ]
    ]

IsTaken-IsKept : (id : String) (n : ℕ) → IsKept (IsTaken id n)
unfolding confirm
IsTaken-IsKept id n = record {
  freezes = freeze-IsTaken id n;
  claimed = λ other m outbox h. (
    is_some-update (goes_for id) (waits other m) _ outbox (λ r. refl) ∙ h.0,
    omega (
      arith,
      h.1,
      count-update_le (waits id n) (waits other m) (λ o. record o { state = sending }) outbox
          (λ r _ e. ground arith),
    ),
  );
  confirmed = λ other m message_id outbox h. (
    is_some-update (goes_for id) _ _ outbox (λ r. refl) ∙ h.0,
    omega (
      arith,
      h.1,
      count-update_le (waits id n) (λ o. is_part other m o && is_sending o.state)
          (λ o. record o { state = sent; message = some message_id }) outbox
          (λ r _ e. ground arith),
    ),
  );
}

count_taken :
    (id : String) (n : ℕ) (outbox : List Outgoing)
    → count (waits id n) (update (waits id n) (λ o. record o { state = sending }) outbox) ≡ 0
unfolding count update
count_taken id n [] = refl
count_taken id n (o ∷ os) = ground (arith, count_taken id n os)

counted_there :
    (id : String) (n : ℕ) (outbox : List Outgoing)
    → 1 ≤ count (waits id n) outbox
    → is_some (find (goes_for id) outbox) ≡ true
unfolding count find
counted_there id n [] h = absurd (omega (arith, h))
counted_there id n (o ∷ os) h = ground (arith, h, counted_there id n os)

-- A part of a job's messages is delivered at most once: after a claim of it succeeded, and whatever calls
-- follow, from any process, another claim of it fails.
pub delivery_once :
    (identify : Identity → String) (id : String) (ordinal : ℕ) (s s' : Store) (calls : List Call)
    → claim_delivery id ordinal s ≡ (s', true)
    → (claim_delivery id ordinal (run identify calls s')).1 ≡ false
unfolding claim_delivery
delivery_once identify id ordinal s s' calls e =
    let one : (count (waits id ordinal) s.outbox == 1) ≡ true = ap (λ x. x.1) e in
    let now : IsTaken id ordinal s'.outbox =
      subst (λ x. IsTaken id ordinal x.0.outbox) e
        (
          is_some-update (goes_for id) (waits id ordinal) _ s.outbox (λ r. refl)
              ∙ counted_there id ordinal s.outbox (ground arith),
          count_taken id ordinal s.outbox,
        ) in
    let later : IsTaken id ordinal (run identify calls s').outbox =
      run-outbox (IsTaken id ordinal) (IsTaken-IsKept id ordinal) identify calls s' now in
    ground (arith, later.1)
