-- ===== src/Position/Rows.antt =====
-- MAX, MIN and ORDER BY over the positions of rows, as the repositories' SQL uses them. Rows of
-- equal positions, which SQL may return in any order, stay in the order of the table.
pub mod Extremes
use docflow_core.Prelude.{
  sort_by, insert_by, Bool, Option, none, some, List, [], ◌∷◌, if◌then◌else◌,
}
use docflow_core.Position.{Position, lt_pos}

-- The first of the positions that no other beats
abbrev pub extreme : (Position → Position → Bool) → List Position → Option Position
extreme beats [] = none
extreme beats (p ∷ ps) = elim (extreme beats ps) [
  | none ↦ some p
  | some q ↦ some (if beats p q then p else q)
]

-- `MAX(position)`
abbrev pub highest : List Position → Option Position
highest = extreme (λ p q. lt_pos q p)

-- `MIN(position)`
abbrev pub lowest : List Position → Option Position
lowest = extreme lt_pos

module _ {A : Type 0} (position : A → Position) where
  abbrev pub insert_in_order : A → List A → List A
  insert_in_order = insert_by (λ a b. lt_pos (position a) (position b))

  -- `ORDER BY position ASC`
  abbrev pub order_by : List A → List A
  order_by = sort_by (λ a b. lt_pos (position a) (position b))
