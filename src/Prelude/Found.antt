-- ===== src/Prelude/Found.antt =====
-- What a lookup finds after rows have been updated or inserted.
use Prim.Native.Nat.{◌≤◌}
use mathlib.Core.Path.{◌≡◌, refl}
use mathlib.Core.Logic.{◌⊎◌, inl, inr}
use mathlib.Core.Bool.{Bool, true, false, ◌&&◌}
use mathlib.Core.Option.{none, some}
use mathlib.Core.List.{map, List, [], ◌∷◌}
use native.Mathlib.Omega.{arith}
use docflow_core.Prelude.Tables.{
  select, count_rows, to_list, exists_row, find_row, update_rows, insert_row, delete_rows,
}
use docflow_core.Prelude.Tests.{if◌then◌else◌, Bool-cases}

module _ {A : Type 0} (p : A → Bool) where
  pub find_row_holds : (xs : List A) (a : A) → find_row p xs ≡ some a → p a ≡ true
  find_row_holds [] a h = absurd (cc)
  find_row_holds (x ∷ xs) a h = ground (arith, find_row_holds xs a)

  -- An update that keeps what the lookup tests
  pub find_row-update :
      (q : A → Bool) (f : A → A) (xs : List A) (a : A)
      → ((x : A) → p (f x) ≡ p x)
      → find_row p xs ≡ some a
      → find_row p (update_rows q f xs) ≡ some (if q a then f a else a)
  find_row-update q f [] a same h = absurd (cc)
  find_row-update q f (x ∷ xs) a same h = ground (arith, same x, find_row-update q f xs a same)

  pub find_row-insert :
      (y : A) (xs : List A) (a : A) → find_row p xs ≡ some a → find_row p (insert_row y xs) ≡ some a
  find_row-insert y [] a h = absurd (cc)
  find_row-insert y (x ∷ xs) a h = ground (arith, find_row-insert y xs a)

  pub find_row-insert_cases :
      (y : A) (xs : List A) (a : A)
      → find_row p (insert_row y xs) ≡ some a
      → (find_row p xs ≡ some a) ⊎ (a ≡ y)
  find_row-insert_cases y [] a h = ground arith
  find_row-insert_cases y (x ∷ xs) a h = ground (arith, find_row-insert_cases y xs a)

  -- What is done to rows that the lookup does not look for
  pub find_row-delete_other :
      (q : A → Bool) (xs : List A)
      → ((x : A) → p x ≡ true → q x ≡ false)
      → find_row p (delete_rows q xs) ≡ find_row p xs
  find_row-delete_other q [] apart = refl
  find_row-delete_other q (x ∷ xs) apart = ground (arith, apart x, find_row-delete_other q xs apart)

  pub find_row-update_other :
      (q : A → Bool) (f : A → A) (xs : List A)
      → ((x : A) → p (f x) ≡ p x)
      → ((x : A) → p x ≡ true → q x ≡ false)
      → find_row p (update_rows q f xs) ≡ find_row p xs
  find_row-update_other q f [] same apart = refl
  find_row-update_other q f (x ∷ xs) same apart =
      ground (arith, same x, apart x, find_row-update_other q f xs same apart)

  pub find_row-deleted : (xs : List A) → find_row p (delete_rows p xs) ≡ none
  find_row-deleted [] = refl
  find_row-deleted (x ∷ xs) = ground (arith, find_row-deleted xs)

  pub find_row-updated :
      (f : A → A) (xs : List A) (a : A)
      → ((x : A) → p (f x) ≡ p x)
      → find_row p (update_rows p f xs) ≡ some a
      → (b : A) × (a ≡ f b)
  find_row-updated f [] a same h = absurd (cc)
  find_row-updated f (x ∷ xs) a same h = elim (Bool-cases (p x)) [
    | inl e ↦ (x, ground (arith, e, same x))
    | inr e ↦ find_row-updated f xs a same (ground (arith, e, same x))
  ]

  pub find_row-insert_new :
      (y : A) (xs : List A)
      → p y ≡ true
      → exists_row p xs ≡ false
      → find_row p (insert_row y xs) ≡ some y
  find_row-insert_new y [] h fresh = ground arith
  find_row-insert_new y (x ∷ xs) h fresh = ground (arith, find_row-insert_new y xs)

module _ {A : Type 0} (p : A → Bool) where
  select-none : (xs : List A) → count_rows p xs ≤ 0 → select p xs ≡ []
  select-none [] h = refl
  select-none (x ∷ xs) h = ground (arith, select-none xs)

  -- Where at most one row passes the test, the lookup tells all.
  pub select-key : (xs : List A) → count_rows p xs ≤ 1 → select p xs ≡ to_list (find_row p xs)
  select-key [] h = refl
  select-key (x ∷ xs) h = ground (arith, h, select-none xs, select-key xs)

module _ {A : Type 0} (p q : A → Bool) where
  pub exists-select : (xs : List A) → exists_row p (select q xs) ≡ exists_row q (select p xs)
  exists-select [] = refl
  exists-select (x ∷ xs) = ground (arith, exists-select xs)

  pub exists-both : (xs : List A) → exists_row (λ x. p x && q x) xs ≡ exists_row q (select p xs)
  exists-both [] = refl
  exists-both (x ∷ xs) = ground (arith, exists-both xs)

pub exists-map :
    {A B : Type 0} (p : B → Bool) (f : A → B) (xs : List A)
    → exists_row p (map f xs) ≡ exists_row (λ x. p (f x)) xs
exists-map p f [] = refl
exists-map p f (x ∷ xs) = ground (arith, exists-map p f xs)
