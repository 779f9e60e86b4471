-- ===== src/Repair/Resumption.antt =====
-- An intake that is done is not taken up again.
use Prim.Native.String.{String}
use text.Mathlib.TextPositions.{eq_refl}
use ephy_worker.Prelude.{
  ◌≡◌, refl, subst, sym, ◌∙◌, ap, Bool, Bool-cases, Option-cases, true, not, ◌&&◌, List, [], ◌∷◌,
  Option, some, none, is_some, All, arith, inl, inr, str_eq, eq_iff,
}
use ephy_worker.Prelude.Table.{find, update, insert, All-update, All-insert}
use ephy_worker.Repair.Rows.{Identity, Intake, Store, Route, same_text}
use ephy_worker.Repair.Outbox.{notify, claim_delivery}
use ephy_worker.Repair.Intakes.{
  intake_is, new_intake, claim_intake, hold_intake, is_held_by_other, is_held_by, update_intake,
  change_intake, mark_receipt,
}
use ephy_worker.Repair.Machine.{
  Call, captures, holds, marks, updates, enqueues, transitions, notifies, finishes, claims,
  delivers, perform, run,
}
use ephy_worker.Repair.Writes.{
  after-capture_intake, after-enqueue, after-claim_intake, after-transition, after-finish,
  after-delivered,
}
use ephy_worker.Repair.Kept.{is_some-update, is_some-append}

-- The intake is there, and each row of it is done.
abbrev IsOver : String → Store → Type 0
IsOver id s =
    (is_some (find (intake_is id) s.intakes) ≡ true)
    × All (λ i. intake_is id i ≡ true → i.finished ≡ true) s.intakes

-- An UPDATE that leaves the ids and undoes nothing.
over_after :
    (id : String) (q : Intake → Bool) (f : Intake → Intake) (s : Store)
    → ((i : Intake) → ((f i).id ≡ i.id) × (i.finished ≡ true → (f i).finished ≡ true))
    → IsOver id s
    → IsOver id (record s { intakes = update q f s.intakes })
over_after id q f s k h = (
  is_some-update (intake_is id) q f s.intakes (λ i. ap (λ x. str_eq x id) (k i).0) ∙ h.0,
  All-update (λ i. intake_is id i ≡ true → i.finished ≡ true) q f s.intakes
      (λ i _ over same. (k i).1 (over (ap (λ x. str_eq x id) (sym (k i).0) ∙ same))) h.1,
)

over-insert :
    (id : String) (i : Intake) (s : Store)
    → find (intake_is i.id) s.intakes ≡ none
    → IsOver id s
    → IsOver id (record s { intakes = insert i s.intakes })
unfolding insert
over-insert id i s new h = elim (Bool-cases (str_eq i.id id)) [
  | inl same ↦
      let e : i.id ≡ id = (eq_iff i.id id).0 same in
      absurd (cc (h.0, subst (λ x. find (intake_is x) s.intakes ≡ none) e new))
  | inr differ ↦ (
    is_some-append (intake_is id) s.intakes (i ∷ []) h.0,
    All-insert (λ x. intake_is id x ≡ true → x.finished ≡ true) i s.intakes h.1
        (λ same. cc (differ, same)),
  )
]

perform-IsOver :
    (identify : Identity → String) (id : String) (call : Call) (s : Store)
    → IsOver id s
    → IsOver id (perform identify call s)
unfolding perform hold_intake update_intake mark_receipt notify claim_delivery change_intake
    new_intake
perform-IsOver identify id (captures who text previous context now) s h =
    after-capture_intake (IsOver id) identify who text previous context now s h
      (λ _ new _. over-insert id (new_intake (identify who) who text previous context now) s new h)
perform-IsOver identify id (enqueues who text previous now) s h =
    after-enqueue (IsOver id) identify who text previous now s h (λ _ _ _. h)
perform-IsOver identify id (holds alive other consumer) s h =
    after-claim_intake (IsOver id) alive other consumer s h
      (over_after id _ _ s (λ i. (refl, λ e. e)) h)
perform-IsOver identify id (marks other) s h = over_after id _ _ s (λ i. (refl, λ e. e)) h
perform-IsOver identify id (updates other consumer route receipt finished release) s h =
    over_after id _ _ s (λ i. (refl, λ e. ground (arith, e))) h
perform-IsOver identify id (transitions other stage fields now) s h =
    after-transition (IsOver id) other stage fields now s h h
perform-IsOver identify id (notifies other parts) s h = h
perform-IsOver identify id (finishes other stage parts fields now) s h =
    after-finish (IsOver id) other stage parts fields now s h h
perform-IsOver identify id (claims other ordinal) s h = h
perform-IsOver identify id (delivers other ordinal message_id) s h =
    after-delivered (IsOver id) other ordinal message_id s h h

run-IsOver :
    (identify : Identity → String) (id : String) (calls : List Call) (s : Store)
    → IsOver id s
    → IsOver id (run identify calls s)
unfolding run
run-IsOver identify id [] s h = h
run-IsOver identify id (call ∷ calls) s h =
    run-IsOver identify id calls (perform identify call s) (perform-IsOver identify id call s h)

none_open :
    (id : String) (is : List Intake)
    → All (λ i. intake_is id i ≡ true → i.finished ≡ true) is
    → find (λ i. intake_is id i && not i.finished) is ≡ none
unfolding find
none_open id [] h = refl
none_open id (i ∷ is) h = ground (arith, h.0, none_open id is h.1)

-- After the holder has reported an intake as done, no row of it is open.
closed-All :
    (id consumer : String) (route : Option Route) (receipt release : Bool) (is : List Intake)
    → All
        (λ i. intake_is id i ≡ true → i.finished ≡ true)
        (update
          (λ i. intake_is id i && is_held_by consumer i)
          (change_intake route receipt true release)
          (update (intake_is id) (λ i. record i { consumer = some consumer }) is))
unfolding update change_intake is_held_by same_text
closed-All id consumer route receipt release [] = tt
closed-All id consumer route receipt release (i ∷ is) = (
  λ same. ground (arith, same, eq_refl consumer),
  closed-All id consumer route receipt release is,
)

ended :
    (id consumer : String) (route : Option Route) (receipt release : Bool) (s : Store)
    → is_some (find (intake_is id) s.intakes) ≡ true
    → IsOver id (update_intake id consumer route receipt true release (hold_intake id consumer s))
unfolding update_intake hold_intake change_intake
ended id consumer route receipt release s there = (
  is_some-update (intake_is id) _ (change_intake route receipt true release)
        (update (intake_is id) (λ i. record i { consumer = some consumer }) s.intakes) (λ i. refl)
      ∙ is_some-update (intake_is id) (intake_is id) _ s.intakes (λ i. refl)
      ∙ there,
  closed-All id consumer route receipt release s.intakes,
)

found_there :
    (id : String) (is : List Intake) (i : Intake)
    → find (λ x. intake_is id x && not x.finished) is ≡ some i
    → is_some (find (intake_is id) is) ≡ true
unfolding find
found_there id [] i e = cc e
found_there id (x ∷ is) i e = ground (arith, e, found_there id is i)

-- What a successful claim has done.
claim_holds :
    (alive : String → Bool) (id consumer : String) (i : Intake) (s s' : Store)
    → claim_intake alive id consumer s ≡ (s', some i)
    → (hold_intake id consumer s ≡ s') × (is_some (find (intake_is id) s.intakes) ≡ true)
unfolding claim_intake
claim_holds alive id consumer i s s' e =
    elim (Option-cases (find (λ x. intake_is id x && not x.finished) s.intakes)) [
      | inl nothing ↦ absurd (ground (arith, nothing))
      | inr (i', e') ↦ elim (Bool-cases (is_held_by_other alive consumer i'.consumer)) [
        | inl other ↦ absurd (ground (arith, e', other))
        | inr free ↦ (ground (arith, e', free), found_there id s.intakes i' e')
      ]
    ]

-- A consumer that has taken an intake and reports it as done ends it: whatever calls follow, from any
-- process, the intake is never handed out again.
pub intake_once :
    (identify : Identity → String) (alive alive' : String → Bool) (id consumer consumer' : String)
    (route : Option Route) (receipt release : Bool) (i : Intake) (s s' : Store) (calls : List Call)
    → claim_intake alive id consumer s ≡ (s', some i)
    → (claim_intake alive' id consumer'
        (run identify calls (update_intake id consumer route receipt true release s'))).1
      ≡ none
unfolding claim_intake
intake_once identify alive alive' id consumer consumer' route receipt release i s s' calls e =
    let (held, there) = claim_holds alive id consumer i s s' e in
    let now : IsOver id (update_intake id consumer route receipt true release s') =
      subst (λ x. IsOver id (update_intake id consumer route receipt true release x)) held
        (ended id consumer route receipt release s there) in
    let later =
      run-IsOver identify id calls (update_intake id consumer route receipt true release s') now in
    rw
      (
        claim_intake,
        none_open id
            (run identify calls (update_intake id consumer route receipt true release s')).intakes
            later.1,
      )
      refl
