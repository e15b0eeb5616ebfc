-- ===== src/Prelude/Sorting.antt =====
-- `ORDER BY`: a stable insertion sort. Rows that the order does not tell apart, which SQL may return
-- in any order, stay in the order of the table.
use mathlib.Core.Path.{◌≡◌, refl, ap, ◌∙◌}
use mathlib.Core.Logic.{inl, inr}
use mathlib.Core.Bool.{Bool, true, false, not, ◌&&◌, ◌||◌}
use mathlib.Core.List.{List, [], ◌∷◌, map}
use native.Mathlib.Omega.{arith}
use docflow_core.Prelude.Tests.{if◌then◌else◌, Bool-cases}
use docflow_core.Prelude.Tables.{select, exists_row, Every}

module _ {A : Type 0} (before : A → A → Bool) where
  abbrev pub insert_by : A → List A → List A
  insert_by x [] = x ∷ []
  insert_by x (y ∷ ys) = let rest = insert_by x ys in if before y x then y ∷ rest else x ∷ y ∷ ys

  abbrev pub sort_by : List A → List A
  sort_by [] = []
  sort_by (x ∷ xs) = insert_by x (sort_by xs)

  exists-insert_by :
      (p : A → Bool) (x : A) (xs : List A)
      → exists_row p (insert_by x xs) ≡ (if p x then true else exists_row p xs)
  exists-insert_by p x [] = refl
  exists-insert_by p x (y ∷ ys) = ground (arith, exists-insert_by p x ys)

  -- Sorting neither adds nor drops a row.
  pub exists-sort_by : (p : A → Bool) (xs : List A) → exists_row p (sort_by xs) ≡ exists_row p xs
  exists-sort_by p [] = refl
  exists-sort_by p (x ∷ xs) =
      exists-insert_by p x (sort_by xs) ∙ ap (λ b. if p x then true else b) (exists-sort_by p xs)

  -- No row stands before one that goes ahead of it.
  abbrev pub IsSorted : List A → Type 0
  IsSorted [] = Unit
  IsSorted (x ∷ xs) = Every (λ y. before y x ≡ false) xs × IsSorted xs

  -- Rows that neither goes ahead of are grouped together by the order.
  abbrev pub IsWeakOrder : Type 0
  IsWeakOrder =
      ((x y z : A) → before y x ≡ false → before z y ≡ false → before z x ≡ false)
      × ((x y : A) → before x y ≡ true → before y x ≡ false)

  module _ (weak : IsWeakOrder) where
    all_after :
        (x y : A) (zs : List A)
        → before y x ≡ false
        → Every (λ z. before z y ≡ false) zs
        → Every (λ z. before z x ≡ false) zs
    all_after x y [] h hs = tt
    all_after x y (z ∷ zs) h (k, ks) = (weak.0 x y z h k, all_after x y zs h ks)

    Every-insert_by :
        (P : A → Type 0) (x : A) (ys : List A) → P x → Every P ys → Every P (insert_by x ys)
    Every-insert_by P x [] h hs = (h, tt)
    Every-insert_by P x (y ∷ ys) h (k, ks) =
        elim (before y x) as (λ b. Every P (if b then y ∷ insert_by x ys else x ∷ y ∷ ys)) [
          | true ↦ (k, Every-insert_by P x ys h ks)
          | false ↦ (h, (k, ks))
        ]

    placed :
        (x y : A) (ys : List A) (b : Bool)
        → before y x ≡ b
        → IsSorted (y ∷ ys)
        → IsSorted (insert_by x ys)
        → IsSorted (if b then y ∷ insert_by x ys else x ∷ y ∷ ys)
    placed x y ys true e (h, hs) rest =
        (Every-insert_by (λ z. before z y ≡ false) x ys (weak.1 y x e) h, rest)
    placed x y ys false e (h, hs) rest = ((e, all_after x y ys e h), (h, hs))

    insert_by-IsSorted : (x : A) (ys : List A) → IsSorted ys → IsSorted (insert_by x ys)
    insert_by-IsSorted x [] h = (tt, tt)
    insert_by-IsSorted x (y ∷ ys) h =
        placed x y ys (before y x) refl h (insert_by-IsSorted x ys h.1)

    pub sort_by-IsSorted : (xs : List A) → IsSorted (sort_by xs)
    sort_by-IsSorted [] = tt
    sort_by-IsSorted (x ∷ xs) = insert_by-IsSorted x (sort_by xs) (sort_by-IsSorted xs)

    insert_by-first :
        (p : A → Bool) (x : A) (ys : List A)
        → Every (λ y. before y x ≡ false) ys
        → insert_by x (select p ys) ≡ x ∷ select p ys
    insert_by-first p x [] h = refl
    insert_by-first p x (y ∷ ys) (h, hs) = ground (arith, h, insert_by-first p x ys hs)

    select-insert_by :
        (p : A → Bool) (x : A) (ys : List A)
        → IsSorted ys
        → select p (insert_by x ys) ≡ (if p x then insert_by x (select p ys) else select p ys)
    select-insert_by p x [] h = refl
    select-insert_by p x (y ∷ ys) (h, hs) = elim (Bool-cases (before y x)) [
      | inl e ↦ ground (arith, e, select-insert_by p x ys hs)
      | inr e ↦ ground (arith, e, insert_by-first p x ys (all_after x y ys e h))
    ]

    -- The rows selected from the sorted ones are the sorted selected ones.
    pub select-sort_by :
        (p : A → Bool) (xs : List A) → select p (sort_by xs) ≡ sort_by (select p xs)
    select-sort_by p [] = refl
    select-sort_by p (x ∷ xs) =
        select-insert_by p x (sort_by xs) (sort_by-IsSorted xs)
        ∙ ground (arith, select-sort_by p xs)

module _ {A : Type 0} (b c : A → A → Bool) where
  -- `ORDER BY b, c`
  abbrev pub lexicographic : A → A → Bool
  lexicographic x y = b x y || not (b y x) && c x y

  pub lexicographic-IsWeakOrder : IsWeakOrder b → IsWeakOrder c → IsWeakOrder lexicographic
  lexicographic-IsWeakOrder (b_weak, b_asym) (c_weak, c_asym) = (
    λ x y z h k. ground (arith, h, k, b_weak x y z, b_weak y z x, b_weak z x y, c_weak x y z),
    λ x y h. ground (arith, h, b_asym x y, c_asym x y),
  )

module _ {A B : Type 0} (before : A → A → Bool) (after : B → B → Bool) (f : A → B)
    (same : (x y : A) → after (f x) (f y) ≡ before x y) where
  insert_by-map :
      (x : A) (ys : List A) → insert_by after (f x) (map f ys) ≡ map f (insert_by before x ys)
  insert_by-map x [] = refl
  insert_by-map x (y ∷ ys) = ground (arith, same y x, insert_by-map x ys)

  -- The images of sorted rows are sorted where f keeps the order.
  pub sort_by-map : (xs : List A) → sort_by after (map f xs) ≡ map f (sort_by before xs)
  sort_by-map [] = refl
  sort_by-map (x ∷ xs) =
      ap (insert_by after (f x)) (sort_by-map xs) ∙ insert_by-map x (sort_by before xs)
