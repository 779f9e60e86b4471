-- ===== src/Repair/Frozen.antt =====
-- The messages of a job are frozen when they are first written.
use Prim.Native.String.{String}
use text.Mathlib.TextPositions.{eq_refl}
use ephy_worker.Prelude.{
  ℕ, suc, ◌≡◌, ◌≢◌, refl, subst, ◌∙◌, Bool, Bool-cases, true, false, List, [], ◌∷◌, ◌++◌, none,
  is_some, arith, inl, inr, str_eq, eq_iff, map,
}
use ephy_worker.Prelude.Table.{find, select, update}
use ephy_worker.Repair.Rows.{Identity, Outgoing, Store}
use ephy_worker.Repair.Outbox.{goes_for, waits, parts_from, freeze, notify, confirm}
use ephy_worker.Repair.Machine.{Call, run}
use ephy_worker.Repair.Kept.{IsKept, run-outbox, is_some-append, is_some-update}

-- What the messages of a job say, in the order of the table.
unfoldable pub texts_of : String → List Outgoing → List String
texts_of id outbox = map (λ o. o.text) (select (goes_for id) outbox)

-- The messages of a job are there, with these texts.
abbrev IsFrozen : String → List String → List Outgoing → Type 0
IsFrozen id texts outbox =
    (is_some (find (goes_for id) outbox) ≡ true) × (texts_of id outbox ≡ texts)

texts_of-update :
    (id : String) (q : Outgoing → Bool) (f : Outgoing → Outgoing) (outbox : List Outgoing)
    → ((o : Outgoing) → ((f o).job ≡ o.job) × ((f o).text ≡ o.text))
    → texts_of id (update q f outbox) ≡ texts_of id outbox
unfolding texts_of update select
texts_of-update id q f [] h = refl
texts_of-update id q f (o ∷ os) h = ground (arith, h o, texts_of-update id q f os h)

other_texts :
    (id other : String) (n : ℕ) (parts : List String) (outbox : List Outgoing)
    → str_eq other id ≡ false
    → texts_of id (outbox ++ parts_from other n parts) ≡ texts_of id outbox
unfolding texts_of select parts_from
other_texts id other n [] [] h = refl
other_texts id other n (part ∷ parts) [] h =
    ground (arith, h, other_texts id other (suc n) parts [] h)
other_texts id other n parts (o ∷ os) h = ground (arith, other_texts id other n parts os h)

own_texts :
    (id : String) (n : ℕ) (parts : List String) (outbox : List Outgoing)
    → find (goes_for id) outbox ≡ none
    → texts_of id (outbox ++ parts_from id n parts) ≡ parts
unfolding texts_of select parts_from find
own_texts id n [] [] h = refl
own_texts id n (part ∷ parts) [] h = ground (arith, eq_refl id, own_texts id (suc n) parts [] refl)
own_texts id n parts (o ∷ os) h = ground (arith, h, own_texts id n parts os)

freeze-IsFrozen :
    (id : String) (texts : List String) (other : String) (parts : List String)
    (outbox : List Outgoing)
    → IsFrozen id texts outbox
    → IsFrozen id texts (freeze other parts outbox)
unfolding freeze
freeze-IsFrozen id texts other parts outbox h =
    elim (Bool-cases (is_some (find (goes_for other) outbox))) [
      | inl there ↦ rw (freeze, there) h
      | inr new ↦ elim (Bool-cases (str_eq other id)) [
        | inl same ↦
            let e : other ≡ id = (eq_iff other id).0 same in
            absurd (cc (h.0, subst (λ x. is_some (find (goes_for x) outbox) ≡ false) e new))
        | inr differ ↦
            rw (freeze, new)
              (
                is_some-append (goes_for id) outbox (parts_from other 0 parts) h.0,
                other_texts id other 0 parts outbox differ ∙ h.1,
              )
      ]
    ]

IsFrozen-IsKept : (id : String) (texts : List String) → IsKept (IsFrozen id texts)
unfolding confirm
IsFrozen-IsKept id texts = record {
  freezes = freeze-IsFrozen id texts;
  claimed = λ other m outbox h. (
    is_some-update (goes_for id) (waits other m) _ outbox (λ r. refl) ∙ h.0,
    texts_of-update id (waits other m) _ outbox (λ o. (refl, refl)) ∙ h.1,
  );
  confirmed = λ other m message_id outbox h. (
    is_some-update (goes_for id) _ _ outbox (λ r. refl) ∙ h.0,
    texts_of-update id _ _ outbox (λ o. (refl, refl)) ∙ h.1,
  );
}

has_part :
    (id part : String) (parts : List String) (outbox : List Outgoing)
    → is_some (find (goes_for id) (outbox ++ parts_from id 0 (part ∷ parts))) ≡ true
unfolding find parts_from
has_part id part parts [] = ground (arith, eq_refl id)
has_part id part parts (o ∷ os) = ground (arith, has_part id part parts os)

first_parts :
    (id : String) (parts : List String) (outbox : List Outgoing)
    → parts ≢ []
    → find (goes_for id) outbox ≡ none
    → IsFrozen id parts (freeze id parts outbox)
unfolding freeze parts_from
first_parts id [] outbox some_part new = absurd (some_part refl)
first_parts id (part ∷ parts) outbox some_part new =
    rw (freeze, new) (has_part id part parts outbox, own_texts id 0 (part ∷ parts) outbox new)

-- The first notice of a job fixes what its messages say: whatever calls follow, later notices and the
-- end of the job included, they are the parts of that first notice, in their order.
pub notify_freezes :
    (identify : Identity → String) (id : String) (parts : List String) (s : Store)
    (calls : List Call)
    → parts ≢ []
    → find (goes_for id) s.outbox ≡ none
    → texts_of id (run identify calls (notify id parts s)).outbox ≡ parts
unfolding notify
notify_freezes identify id parts s calls some_part new =
    (run-outbox (IsFrozen id parts) (IsFrozen-IsKept id parts) identify calls (notify id parts s)
      (first_parts id parts s.outbox some_part new)).1
