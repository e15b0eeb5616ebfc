-- ===== src/Service/Boards/Creation.antt =====
-- CreateBoard in internal/services/boards.go, with Create of internal/repositories/boards.go.
use docflow_core.Prelude.{
  ◌≤◌, true, ℕ, suc, ◌≡◌, refl, false, String, Option, some, List, [], ◌∷◌, arith, find_row,
  count_rows, Bool, exists_row, get_or, none, insert_row,
}
use mathlib.Core.Path.{subst}
use docflow_core.Model.{Role, Visibility, Board, Membership}
use docflow_core.Model.Store.{ok, Store, World, BoardEvent}
use docflow_core.Exec.{execute, pure, ◌>>◌}
use docflow_core.Model.Store.{ok}
use docflow_core.Exec.Ensures.{Body, Ensures-pure}
use docflow_core.Exec.Ensures.{Body, Outcome, Ensures, Ensures-transaction, Ensures-execute_bind}
use docflow_core.Repo.Boards
use docflow_core.Repo.Boards.{find_board, find_row_of, is_row, insert_board, insert_member}
use docflow_core.Repo.Boards.Finding.{has_id, is_board, is_board-insert}
use docflow_core.Repo.Boards.Lookups.{HasRole}
use docflow_core.Repo.Boards.Owners.{is_owner_row, count_rows-append}
use docflow_core.Service.Boards.{create_board}
use docflow_core.Service.Boards.Ownership.{HasOneOwner, of_board, owners-le-of_board}

find_row-insert {ℓ} :
    {A : Type ℓ} (p : A → Bool) (xs : List A) (a : A)
    → exists_row p xs ≡ false
    → p a ≡ true
    → find_row p (insert_row a xs) ≡ some a
find_row-insert p [] a h e = ground arith
find_row-insert p (x ∷ xs) a h e = ground (arith, find_row-insert p xs a)

absent_of_board :
    (board user : ℕ) (ms : List Membership)
    → count_rows (of_board board) ms ≡ 0
    → exists_row (is_row board user) ms ≡ false
absent_of_board board user [] h = refl
absent_of_board board user (m ∷ ms) h = ground (arith, absent_of_board board user ms)

rows-le-of_board :
    (board user : ℕ) (ms : List Membership)
    → count_rows (is_row board user) ms ≤ count_rows (of_board board) ms
rows-le-of_board board user [] = omega arith
rows-le-of_board board user (m ∷ ms) = ground (arith, rows-le-of_board board user ms)

-- The tables with the new board's row and its owner's.
abbrev pub with_new : Board → ℕ → Store → Store
with_new b creator s =
    (insert_member b.id creator Role.owner
      (record s { boards = insert_row b s.boards; next_id = suc s.next_id })).1

module _ (s : Store) (inv : HasOneOwner s) (b : Board) (fresh : b.id ≡ s.next_id)
    (creator : ℕ) where
  abbrev owner_row : Membership
  owner_row = record { board_id = b.id; user_id = creator; role = Role.owner; added_at = s.now }

  no_rows : count_rows (of_board b.id) s.board_members ≡ 0
  no_rows = inv.fresh_rows b.id (omega (arith, fresh))

  with_new-HasOneOwner : HasOneOwner (with_new b creator s)
  unfolding insert_member
  with_new-HasOneOwner = record {
    one_row = λ c u. ground (
      arith,
      count_rows-append (is_row c u) s.board_members (owner_row ∷ []),
      inv.one_row c u,
      rows-le-of_board c u s.board_members,
      no_rows,
    );
    one_owner = λ c h. ground (
      arith,
      count_rows-append (is_owner_row c) s.board_members (owner_row ∷ []),
      is_board-insert c s.boards b,
      inv.one_owner c,
      owners-le-of_board c s.board_members,
      no_rows,
    );
    fresh_board = λ c h.
        ground (arith, is_board-insert c s.boards b, inv.fresh_board c (omega (arith, h)), fresh);
    fresh_rows = λ c h. ground (
      arith,
      count_rows-append (of_board c) s.board_members (owner_row ∷ []),
      inv.fresh_rows c (omega (arith, h)),
      fresh,
    );
  }

  found_new : find_board b.id (with_new b creator s) ≡ some b
  unfolding insert_member
  found_new =
      find_row-insert (has_id b.id) s.boards b (inv.fresh_board b.id (omega (arith, fresh)))
        (ground arith)

  found_owner : find_row_of b.id creator (with_new b creator s) ≡ some owner_row
  unfolding insert_member
  found_owner =
      find_row-insert (is_row b.id creator) s.board_members owner_row
        (absent_of_board b.id creator s.board_members no_rows) (ground arith)

-- The new board, where it can be found, and its owner.
abbrev pub Created :
    Store
    → List BoardEvent
    → ℕ
    → ℕ
    → String
    → Option Visibility
    → Board
    → Store
    → List BoardEvent
    → Type 0
Created s es workspace creator title visibility b t es' =
    (is_board b.id s.boards ≡ false)
    × (find_board b.id t ≡ some b)
    × (b.workspace_id ≡ workspace)
    × (b.title ≡ title)
    × (b.visibility ≡ get_or visibility Visibility.workspace)
    × HasRole b.id creator t Role.owner
    × HasOneOwner t
    × (es' ≡ es)

create_board-Ensures :
    (workspace creator : ℕ) (title : String) (visibility : Option Visibility) (s : Store)
    (es : List BoardEvent)
    → HasOneOwner s
    → Ensures
        (Outcome s es (Created s es workspace creator title visibility))
        s
        es
        (create_board workspace creator title visibility)
unfolding create_board Boards.create insert_board
create_board-Ensures workspace creator title visibility s es inv =
    Ensures-transaction after s es _ (
      Ensures-execute_bind _ s es _ _ refl (λ e h. cc)
        λ a e. subst insertion (inserted a e) (second))
  where
    new : Board
    new = record {
      id = s.next_id;
      workspace_id = workspace;
      title = title;
      visibility = get_or visibility Visibility.workspace;
      share_token = none;
      created_by = creator;
      created_at = s.now;
      updated_at = s.now;
    }

    after : Board → Store → List BoardEvent → Type 0
    after = Created s es workspace creator title visibility

    inserted : (a : Board) → ok new ≡ ok a → new ≡ a
    inserted a e = cc

    between : Store
    between = record s { boards = insert_row new s.boards; next_id = suc s.next_id }

    insertion : Board → Type 0
    insertion a =
        Ensures (Body es after) between es
          (execute (insert_member a.id creator Role.owner) >> pure a)

    second : insertion new
    second =
        Ensures-execute_bind _ between es _ _ refl (λ e h. cc)
          λ _ _. Ensures-pure (Body es after) (with_new new creator s) es new (
            (
              inv.fresh_board s.next_id (omega arith),
              found_new s inv new refl creator,
              refl,
              refl,
              refl,
              (owner_row s inv new refl creator, found_owner s inv new refl creator, refl),
              with_new-HasOneOwner s inv new refl creator,
              refl,
            ),
            refl,
          )

-- On a database in which every board has exactly one owner, no user has two rows on a board, and
-- no row has an identifier that is still to be given, CreateBoard either returns a board under an
-- identifier that no board had, with the title and the visibility, or `workspace` when none is
-- given, in the workspace, which can be found, whose creator is an owner of it, and the database
-- is such a one again; or it fails and the database is as before. No event is sent. This holds
-- whichever calls of the database driver fail.
pub create_board_founds :
    (workspace creator : ℕ) (title : String) (visibility : Option Visibility) (w : World)
    → HasOneOwner w.db
    → Outcome w.db w.events
        (Created w.db w.events workspace creator title visibility)
        (create_board workspace creator title visibility w).0
        (create_board workspace creator title visibility w).1.db
        (create_board workspace creator title visibility w).1.events
create_board_founds workspace creator title visibility w inv =
    (create_board-Ensures workspace creator title visibility w.db w.events inv).at w refl refl
