-- ===== src/Repo/Boards/Finding.antt =====
-- Looking a board up after the rows of boards have been changed.
use docflow_core.Prelude.{
  ℕ, ◌≡◌, refl, Bool, true, false, ◌==◌, some, List, [], ◌∷◌, arith, if◌then◌else◌, find_row,
  exists_row, insert_row, ◌||◌, update_rows, delete_rows,
}
use docflow_core.Model.{Board}

abbrev pub has_id : ℕ → Board → Bool
has_id id b = b.id == id

-- Whether there is a board with the id.
abbrev pub is_board : ℕ → List Board → Bool
is_board id = exists_row (has_id id)

pub is_board_of_found :
    (id : ℕ) (bs : List Board) (b : Board)
    → find_row (has_id id) bs ≡ some b
    → is_board id bs ≡ true
is_board_of_found id [] b h = cc
is_board_of_found id (x ∷ bs) b h = ground (arith, is_board_of_found id bs b)

pub is_board-update :
    (f : Board → Board) (id other : ℕ) (bs : List Board)
    → ((b : Board) → (f b).id ≡ b.id)
    → is_board other (update_rows (has_id id) f bs) ≡ is_board other bs
is_board-update f id other [] same = refl
is_board-update f id other (x ∷ bs) same =
    ground (arith, same x, is_board-update f id other bs same)

pub is_board-delete :
    (id other : ℕ) (bs : List Board)
    → is_board other (delete_rows (has_id id) bs)
      ≡ (if other == id then false else is_board other bs)
is_board-delete id other [] = ground arith
is_board-delete id other (x ∷ bs) = ground (arith, is_board-delete id other bs)

pub is_board-insert :
    (other : ℕ) (bs : List Board) (b : Board)
    → is_board other (insert_row b bs) ≡ (is_board other bs || b.id == other)
is_board-insert other [] b = ground arith
is_board-insert other (x ∷ bs) b = ground (arith, is_board-insert other bs b)
