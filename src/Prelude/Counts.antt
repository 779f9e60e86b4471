-- ===== src/Prelude/Counts.antt =====
-- How statements on a table change the number of rows under a condition.
use Prim.Native.Nat.{◌+◌, ◌≤◌}
use mathlib.Core.Path.{◌≡◌, refl}
use mathlib.Core.Bool.{Bool, true, false, ◌||◌}
use mathlib.Core.List.{List, [], ◌∷◌}
use native.Mathlib.Omega.{arith}
use ephy_worker.Prelude.Table.{count, update, delete}

module _ {ℓ} {A : Type ℓ} where
  pub count-update_le :
      (p q : A → Bool) (f : A → A) (rs : List A)
      → ((r : A) → q r ≡ true → p (f r) ≡ true → p r ≡ true)
      → count p (update q f rs) ≤ count p rs
  unfolding count update
  count-update_le p q f [] h = omega arith
  count-update_le p q f (r ∷ rs) h = ground (arith, h r, count-update_le p q f rs h)

  pub count-delete_le : (p q : A → Bool) (rs : List A) → count p (delete q rs) ≤ count p rs
  unfolding count delete
  count-delete_le p q [] = omega arith
  count-delete_le p q (r ∷ rs) = ground (arith, count-delete_le p q rs)

  pub count_mono :
      (p q : A → Bool) (rs : List A) → ((r : A) → p r ≡ true → q r ≡ true) → count p rs ≤ count q rs
  unfolding count
  count_mono p q [] h = omega arith
  count_mono p q (r ∷ rs) h = ground (arith, h r, count_mono p q rs h)

  -- Two conditions that exclude each other, under a third.
  pub count_disjoint :
      (p q s : A → Bool) (rs : List A)
      → ((r : A) → p r ≡ true → q r ≡ true)
      → ((r : A) → s r ≡ true → (q r ≡ true) × (p r ≡ false))
      → count p rs + count s rs ≤ count q rs
  unfolding count
  count_disjoint p q s [] h k = omega arith
  count_disjoint p q s (r ∷ rs) h k = ground (arith, h r, k r, count_disjoint p q s rs h k)

  pub count-delete_none :
      (p q : A → Bool) (rs : List A)
      → ((r : A) → q r ≡ true → p r ≡ false)
      → count p (delete q rs) ≡ count p rs
  unfolding count delete
  count-delete_none p q [] h = refl
  count-delete_none p q (r ∷ rs) h = ground (arith, h r, count-delete_none p q rs h)

  pub count_or :
      (p q : A → Bool) (rs : List A) → count (λ r. p r || q r) rs ≤ count p rs + count q rs
  unfolding count
  count_or p q [] = omega arith
  count_or p q (r ∷ rs) = ground (arith, count_or p q rs)

  pub count-false : (rs : List A) → count (λ _. false) rs ≡ 0
  unfolding count
  count-false [] = refl
  count-false (r ∷ rs) = ground (arith, count-false rs)
