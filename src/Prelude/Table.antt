-- ===== src/Prelude/Table.antt =====
-- A database table as the list of its rows, oldest first, and the SQL statements over it.
use Prim.Native.Nat.{ℕ, ◌+◌, ◌≤◌}
use mathlib.Core.Path.{◌≡◌, refl, subst}
use mathlib.Core.Logic.{inl, inr}
use mathlib.Core.Bool.{Bool, true, false}
use mathlib.Core.Option
use mathlib.Core.Option.{Option, none, some}
use mathlib.Core.List.{List, [], ◌∷◌, ◌++◌}
use native.Mathlib.Omega.{arith}
use ephy_worker.Prelude.Tests.{if◌then◌else◌, Bool-cases, ◌==◌, ==_refl}
use ephy_worker.Prelude.Lists.{All, All-append}

module _ {ℓ} {A : Type ℓ} where
  -- SELECT … WHERE p, first row.
  unfoldable pub find : (A → Bool) → List A → Option A
  find p [] = none
  find p (r ∷ rs) = if p r then some r else find p rs

  -- SELECT … WHERE p.
  unfoldable pub select : (A → Bool) → List A → List A
  select p [] = []
  select p (r ∷ rs) = let rest = select p rs in if p r then r ∷ rest else rest

  -- SELECT COUNT(*) … WHERE p; also the `rowcount` of an UPDATE with that condition.
  unfoldable pub count : (A → Bool) → List A → ℕ
  count p [] = 0
  count p (r ∷ rs) = (if p r then 1 else 0) + count p rs

  -- SELECT COALESCE(SUM(f), 0) … WHERE p.
  unfoldable pub sum : (A → Bool) → (A → ℕ) → List A → ℕ
  sum p f [] = 0
  sum p f (r ∷ rs) = (if p r then f r else 0) + sum p f rs

  -- UPDATE … SET f WHERE p.
  unfoldable pub update : (A → Bool) → (A → A) → List A → List A
  update p f [] = []
  update p f (r ∷ rs) = (if p r then f r else r) ∷ update p f rs

  -- DELETE … WHERE p.
  unfoldable pub delete : (A → Bool) → List A → List A
  delete p [] = []
  delete p (r ∷ rs) = let rest = delete p rs in if p r then rest else r ∷ rest

  -- INSERT.
  unfoldable pub insert : A → List A → List A
  insert r rs = rs ++ r ∷ []

  -- An update that leaves the condition's columns alone changes the row that is found.
  pub find-update :
      (p q : A → Bool) (f : A → A) (rs : List A)
      → ((r : A) → p (f r) ≡ p r)
      → find p (update q f rs) ≡ Option.map (λ r. if q r then f r else r) (find p rs)
  unfolding find update
  find-update p q f [] h = refl
  find-update p q f (r ∷ rs) h = ground (arith, h r, find-update p q f rs h)

  pub find-insert-some :
      (p : A → Bool) (r : A) (rs : List A) (a : A)
      → find p rs ≡ some a
      → find p (insert r rs) ≡ some a
  unfolding find insert
  find-insert-some p r [] a e = cc
  find-insert-some p r (x ∷ rs) a e = ground (arith, find-insert-some p r rs a)

  pub find-insert-none :
      (p : A → Bool) (r : A) (rs : List A)
      → find p rs ≡ none
      → find p (insert r rs) ≡ (if p r then some r else none)
  unfolding find insert
  find-insert-none p r [] e = refl
  find-insert-none p r (x ∷ rs) e = ground (arith, find-insert-none p r rs)

  pub find-insert :
      (p : A → Bool) (r : A) (rs : List A) → p r ≡ false → find p (insert r rs) ≡ find p rs
  unfolding find insert
  find-insert p r [] e = ground arith
  find-insert p r (x ∷ rs) e = ground (arith, find-insert p r rs e)

  -- Deleting rows of another key leaves the row that is found.
  pub find-delete :
      (p q : A → Bool) (rs : List A)
      → ((r : A) → p r ≡ true → q r ≡ false)
      → find p (delete q rs) ≡ find p rs
  unfolding find delete
  find-delete p q [] h = refl
  find-delete p q (r ∷ rs) h = ground (arith, h r, find-delete p q rs h)

  pub find-delete_self : (p : A → Bool) (rs : List A) → find p (delete p rs) ≡ none
  unfolding find delete
  find-delete_self p [] = refl
  find-delete_self p (r ∷ rs) = ground (arith, find-delete_self p rs)

  pub find-holds : (p : A → Bool) (rs : List A) (a : A) → find p rs ≡ some a → p a ≡ true
  unfolding find
  find-holds p [] a e = cc
  find-holds p (r ∷ rs) a e = ground (arith, find-holds p rs a)

  pub All-find {κ} :
      (P : A → Type κ) (p : A → Bool) (rs : List A) (a : A) → All P rs → find p rs ≡ some a → P a
  unfolding find
  All-find P p [] a h e = cc
  All-find P p (r ∷ rs) a h e = elim (Bool-cases (p r)) [
    | inl hit ↦ subst P (Option.some-injective r a (rw hit at e)) h.0
    | inr miss ↦ All-find P p rs a h.1 (rw miss at e)
  ]

  -- A predicate on rows is kept by an update that keeps it on the rows that it changes.
  pub All-update {κ} :
      (P : A → Type κ) (p : A → Bool) (f : A → A) (rs : List A)
      → ((r : A) → p r ≡ true → P r → P (f r))
      → All P rs
      → All P (update p f rs)
  unfolding update
  All-update P p f [] k h = tt
  All-update P p f (r ∷ rs) k h = elim (Bool-cases (p r)) [
    | inl hit ↦ rw hit (k r hit h.0, All-update P p f rs k h.1)
    | inr miss ↦ rw miss (h.0, All-update P p f rs k h.1)
  ]

  pub All-delete {κ} :
      (P : A → Type κ) (p : A → Bool) (rs : List A) → All P rs → All P (delete p rs)
  unfolding delete
  All-delete P p [] h = tt
  All-delete P p (r ∷ rs) h = elim (Bool-cases (p r)) [
    | inl hit ↦ rw hit (All-delete P p rs h.1)
    | inr miss ↦ rw miss (h.0, All-delete P p rs h.1)
  ]

  pub All-insert {κ} : (P : A → Type κ) (r : A) (rs : List A) → All P rs → P r → All P (insert r rs)
  unfolding insert
  All-insert P r rs h k = All-append P rs (r ∷ []) h (k, tt)

  pub All-map {κ μ} :
      (P : A → Type κ) (Q : A → Type μ) (rs : List A) → ((r : A) → P r → Q r) → All P rs → All Q rs
  All-map P Q [] k h = tt
  All-map P Q (r ∷ rs) k h = (k r h.0, All-map P Q rs k h.1)

  pub count-insert :
      (p : A → Bool) (r : A) (rs : List A)
      → count p (insert r rs) ≡ count p rs + (if p r then 1 else 0)
  unfolding count insert
  count-insert p r [] = ground arith
  count-insert p r (x ∷ rs) = ground (arith, count-insert p r rs)

  pub sum-insert :
      (p : A → Bool) (f : A → ℕ) (r : A) (rs : List A)
      → sum p f (insert r rs) ≡ sum p f rs + (if p r then f r else 0)
  unfolding sum insert
  sum-insert p f r [] = ground arith
  sum-insert p f r (x ∷ rs) = ground (arith, sum-insert p f r rs)

  -- A row that meets the condition is counted.
  pub count-find : (p : A → Bool) (rs : List A) (a : A) → find p rs ≡ some a → 1 ≤ count p rs
  unfolding count find
  count-find p [] a e = absurd (Option.none-ne-some a e)
  count-find p (r ∷ rs) a e = ground (arith, count-find p rs a)

module _ {ℓ} {A : Type ℓ} where
  -- A row that is found by one condition and meets another is counted by the other.
  pub count_of_found :
      (p q : A → Bool) (rs : List A) (a : A) → find q rs ≡ some a → p a ≡ true → 1 ≤ count p rs
  unfolding count find
  count_of_found p q [] a e h = absurd (Option.none-ne-some a e)
  count_of_found p q (r ∷ rs) a e h = ground (arith, count_of_found p q rs a)

module _ {ℓ} {A : Type ℓ} where
  -- An update that puts each row that it changes among the counted ones.
  pub count-update_into :
      (p q : A → Bool) (f : A → A) (rs : List A)
      → ((r : A) → q r ≡ true → (p r ≡ false) × (p (f r) ≡ true))
      → count p (update q f rs) ≡ count p rs + count q rs
  unfolding count update
  count-update_into p q f [] h = omega arith
  count-update_into p q f (r ∷ rs) h = ground (arith, h r, count-update_into p q f rs h)

  -- An update that leaves each row on its side of the condition.
  pub count-update_same :
      (p q : A → Bool) (f : A → A) (rs : List A)
      → ((r : A) → q r ≡ true → p (f r) ≡ p r)
      → count p (update q f rs) ≡ count p rs
  unfolding count update
  count-update_same p q f [] h = refl
  count-update_same p q f (r ∷ rs) h = ground (arith, h r, count-update_same p q f rs h)

-- No two rows have the same key.
module _ {ℓ} {A : Type ℓ} (key : A → ℕ) where
  abbrev pub Distinct : List A → Type 0
  Distinct [] = Unit
  Distinct (r ∷ rs) = All (λ x. (key x == key r) ≡ false) rs × Distinct rs

  pub Distinct-insert :
      (r : A) (rs : List A)
      → Distinct rs
      → find (λ x. key x == key r) rs ≡ none
      → Distinct (insert r rs)
  unfolding insert find
  Distinct-insert r [] h e = (tt, tt)
  Distinct-insert r (x ∷ rs) h e = (
    All-insert (λ y. (key y == key x) ≡ false) r rs h.0 (ground arith),
    Distinct-insert r rs h.1 (ground arith),
  )

  pub Distinct-update :
      (p : A → Bool) (f : A → A) (rs : List A)
      → ((r : A) → key (f r) ≡ key r)
      → Distinct rs
      → Distinct (update p f rs)
  unfolding update
  Distinct-update p f [] k h = tt
  Distinct-update p f (r ∷ rs) k h =
      let same : key (if p r then f r else r) ≡ key r = ground (arith, k r) in
      (
        rw same (All-update (λ x. (key x == key r) ≡ false) p f rs (λ x _ e. rw (k x) e) h.0),
        Distinct-update p f rs k h.1,
      )

  pub Distinct-delete : (p : A → Bool) (rs : List A) → Distinct rs → Distinct (delete p rs)
  unfolding delete
  Distinct-delete p [] h = tt
  Distinct-delete p (r ∷ rs) h = elim (Bool-cases (p r)) [
    | inl hit ↦ rw hit (Distinct-delete p rs h.1)
    | inr miss ↦
        rw miss (All-delete (λ x. (key x == key r) ≡ false) p rs h.0, Distinct-delete p rs h.1)
  ]

  -- A row that any condition finds is the one of its key.
  pub find-Distinct :
      (q : A → Bool) (rs : List A) (a : A)
      → Distinct rs
      → find q rs ≡ some a
      → find (λ r. key r == key a) rs ≡ some a
  unfolding find
  find-Distinct q [] a h e = cc
  find-Distinct q (r ∷ rs) a h e = elim (Bool-cases (q r)) [
    | inl hit ↦
        let same : r ≡ a = Option.some-injective r a (rw hit at e) in
        rw (← same) (ground (arith, ==_refl (key r)))
    | inr miss ↦
        let rest : find q rs ≡ some a = rw miss at e in
        let differ : (key a == key r) ≡ false =
          All-find (λ x. (key x == key r) ≡ false) q rs a h.0 rest in
        ground (arith, find-Distinct q rs a h.1 rest)
  ]
