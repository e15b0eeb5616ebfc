-- ===== src/Prelude/Tables.antt =====
-- A table is the list of its rows, in the order of insertion. These are the forms of statement
-- that the repositories' SQL uses.
use Prim.Native.Nat.{ℕ, suc}
use mathlib.Core.Bool.{Bool, true, false}
use mathlib.Core.Option.{Option, none, some}
use mathlib.Core.List.{List, [], ◌∷◌, ◌++◌}
use docflow_core.Prelude.Tests.{if◌then◌else◌}

module _ {ℓ} {A : Type ℓ} where
  abbrev pub length : List A → ℕ
  length [] = 0
  length (_ ∷ xs) = suc (length xs)

  -- `SELECT … WHERE p`
  abbrev pub select : (A → Bool) → List A → List A
  select p [] = []
  select p (x ∷ xs) = let rest = select p xs in if p x then x ∷ rest else rest

  -- `QueryRow`: the first row, or none.
  abbrev pub find_row : (A → Bool) → List A → Option A
  find_row p [] = none
  find_row p (x ∷ xs) = let rest = find_row p xs in if p x then some x else rest

  -- `SELECT EXISTS (… WHERE p)`, and whether `RowsAffected` is not 0
  abbrev pub exists_row : (A → Bool) → List A → Bool
  exists_row p [] = false
  exists_row p (x ∷ xs) = let rest = exists_row p xs in if p x then true else rest

  -- `SELECT COUNT(*) … WHERE p`
  abbrev pub count_rows : (A → Bool) → List A → ℕ
  count_rows p [] = 0
  count_rows p (x ∷ xs) = let rest = count_rows p xs in if p x then suc rest else rest

  -- `UPDATE … SET f WHERE p`
  abbrev pub update_rows : (A → Bool) → (A → A) → List A → List A
  update_rows p f [] = []
  update_rows p f (x ∷ xs) = (if p x then f x else x) ∷ update_rows p f xs

  -- `DELETE … WHERE p`
  abbrev pub delete_rows : (A → Bool) → List A → List A
  delete_rows p [] = []
  delete_rows p (x ∷ xs) = let rest = delete_rows p xs in if p x then rest else x ∷ rest

  -- `INSERT`
  abbrev pub insert_row : A → List A → List A
  insert_row x xs = xs ++ (x ∷ [])

  -- `JOIN`: what f makes of the rows that have a partner
  abbrev pub inner_join {ℓ'} : {B : Type ℓ'} → (A → Option B) → List A → List B
  inner_join f [] = []
  inner_join f (x ∷ xs) =
      let rest = inner_join f xs in elim (f x) [ none ↦ rest | some b ↦ b ∷ rest ]

  -- `JOIN`: the rows that f makes of each row, in turn
  abbrev pub join_rows {ℓ'} : {B : Type ℓ'} → (A → List B) → List A → List B
  join_rows f [] = []
  join_rows f (x ∷ xs) = f x ++ join_rows f xs

  -- All rows satisfy P.
  abbrev pub Every {ℓ'} : (A → Type ℓ') → List A → Type ℓ'
  Every P [] = Unit
  Every P (x ∷ xs) = P x × Every P xs

abbrev pub to_list {ℓ} : {A : Type ℓ} → Option A → List A
to_list none = []
to_list (some a) = a ∷ []
