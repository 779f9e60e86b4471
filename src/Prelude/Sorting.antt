-- ===== src/Prelude/Sorting.antt =====
-- What `sort` gives: an order, the same predicates on the entries, and the first that passes a test.
use mathlib.Core.Option
use mathlib.Core.Path.{◌≡◌, sym, subst}
use mathlib.Core.Logic.{inl, inr}
use mathlib.Core.Bool.{Bool, true, false}
use mathlib.Core.Option.{Option, none, some}
use mathlib.Core.List.{List, [], ◌∷◌}
use ephy_worker.Prelude.Tests.{Bool-cases}
use ephy_worker.Prelude.Lists.{All, sort, insert_sorted}
use ephy_worker.Prelude.Table.{find, select, All-map}

module _ {ℓ} {A : Type ℓ} where
  pub All-select {κ} :
      (P : A → Type κ) (p : A → Bool) (rs : List A)
      → ((r : A) → p r ≡ true → P r)
      → All P (select p rs)
  unfolding select
  All-select P p [] k = tt
  All-select P p (r ∷ rs) k = elim (Bool-cases (p r)) [
    | inl hit ↦ rw hit (k r hit, All-select P p rs k)
    | inr miss ↦ rw miss (All-select P p rs k)
  ]

  -- What holds of the selected rows holds of all rows under the condition.
  pub All-of_select {κ} :
      (P : A → Type κ) (p : A → Bool) (rs : List A)
      → All P (select p rs)
      → All (λ r. p r ≡ true → P r) rs
  unfolding select
  All-of_select P p [] h = tt
  All-of_select P p (r ∷ rs) h = elim (Bool-cases (p r)) [
    | inl hit ↦
        let k : P r × All P (select p rs) = rw hit at h in (λ _. k.0, All-of_select P p rs k.1)
    | inr miss ↦ (λ yes'. cc, All-of_select P p rs (rw miss at h))
  ]

module _ {ℓ} {A : Type ℓ} (before : A → A → Bool) where
  All-insert_sorted {κ} :
      (P : A → Type κ) (x : A) (ys : List A) → P x → All P ys → All P (insert_sorted before x ys)
  unfolding insert_sorted
  All-insert_sorted P x [] h k = (h, tt)
  All-insert_sorted P x (y ∷ ys) h k = elim (Bool-cases (before y x)) [
    | inl later ↦ rw later (k.0, All-insert_sorted P x ys h k.1)
    | inr first ↦ rw first (h, (k.0, k.1))
  ]

  pub All-sort {κ} : (P : A → Type κ) (xs : List A) → All P xs → All P (sort before xs)
  unfolding sort
  All-sort P [] h = tt
  All-sort P (x ∷ xs) h = All-insert_sorted P x (sort before xs) h.0 (All-sort P xs h.1)

  All-of_insert_sorted {κ} :
      (P : A → Type κ) (x : A) (ys : List A) → All P (insert_sorted before x ys) → P x × All P ys
  unfolding insert_sorted
  All-of_insert_sorted P x [] h = (h.0, tt)
  All-of_insert_sorted P x (y ∷ ys) h = elim (Bool-cases (before y x)) [
    | inl later ↦
        let k : P y × All P (insert_sorted before x ys) = rw later at h in
        let (hx, rest) = All-of_insert_sorted P x ys k.1 in (hx, (k.0, rest))
    | inr first ↦ let k : P x × (P y × All P ys) = rw first at h in (k.0, k.1)
  ]

  pub All-of_sort {κ} : (P : A → Type κ) (xs : List A) → All P (sort before xs) → All P xs
  unfolding sort
  All-of_sort P [] h = tt
  All-of_sort P (x ∷ xs) h =
      let (hx, rest) = All-of_insert_sorted P x (sort before xs) h in (hx, All-of_sort P xs rest)

  -- No entry stands behind one that it should stand before.
  abbrev pub IsSorted : List A → Type 0
  IsSorted [] = Unit
  IsSorted (x ∷ xs) = All (λ y. before y x ≡ false) xs × IsSorted xs

  module _ (asym : (x y : A) → before y x ≡ true → before x y ≡ false)
      (trans : (x y z : A) → before z y ≡ false → before y x ≡ false → before z x ≡ false) where
    insert_sorted-IsSorted :
        (x : A) (ys : List A) → IsSorted ys → IsSorted (insert_sorted before x ys)
    unfolding insert_sorted
    insert_sorted-IsSorted x [] h = (tt, tt)
    insert_sorted-IsSorted x (y ∷ ys) h = elim (Bool-cases (before y x)) [
      | inl later ↦ rw later (
        All-insert_sorted (λ z. before z y ≡ false) x ys (asym x y later) h.0,
        insert_sorted-IsSorted x ys h.1,
      )
      | inr first ↦ rw first (
        (
          first,
          All-map (λ z. before z y ≡ false) (λ z. before z x ≡ false) ys
              (λ z e. trans x y z e first) h.0,
        ),
        (h.0, h.1),
      )
    ]

    pub sort-IsSorted : (xs : List A) → IsSorted (sort before xs)
    unfolding sort
    sort-IsSorted [] = tt
    sort-IsSorted (x ∷ xs) = insert_sorted-IsSorted x (sort before xs) (sort-IsSorted xs)

    find_first :
        (p : A → Bool) (xs : List A) (a : A)
        → IsSorted xs
        → find p xs ≡ some a
        → before a a ≡ false
        → All (λ x. p x ≡ true → before x a ≡ false) xs
    unfolding find
    find_first p [] a h e self = cc
    find_first p (x ∷ xs) a h e self = elim (Bool-cases (p x)) [
      | inl hit ↦
          let same : x ≡ a = Option.some-injective x a (rw hit at e) in
          subst (λ b. All (λ y. p y ≡ true → before y b ≡ false) (x ∷ xs)) same
            (
              λ _. subst (λ b. before b b ≡ false) (sym same) self,
              All-map (λ y. before y x ≡ false) (λ y. p y ≡ true → before y x ≡ false) xs
                  (λ y e' _. e') h.0,
            )
      | inr miss ↦ (λ hit. cc, find_first p xs a h.1 (rw miss at e) self)
    ]

    -- The entry that is found in the sorted list: none that passes the test should stand before it.
    pub find-sort :
        (p : A → Bool) (xs : List A) (a : A)
        → find p (sort before xs) ≡ some a
        → before a a ≡ false
        → All (λ x. p x ≡ true → before x a ≡ false) xs
    find-sort p xs a e self =
        All-of_sort (λ x. p x ≡ true → before x a ≡ false) xs
          (find_first p (sort before xs) a (sort-IsSorted xs) e self)
