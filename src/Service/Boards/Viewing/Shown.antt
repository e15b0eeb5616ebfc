-- ===== src/Service/Boards/Viewing/Shown.antt =====
-- internal/services/boards.go: what GetBoardDetail shows to those who can see the board.
use docflow_core.Repo.Boards.Lists
use docflow_core.Repo.Boards.Detail.Columns.{answered-expected, expected_column}
use docflow_core.Repo.Columns.{has_column_id}
use docflow_core.Repo.Boards.Lists.{members_of}
use docflow_core.Repo.Boards.Detail
use docflow_core.Repo.Boards.Detail.{
  stored_detail, has_group_id, detail_rows, group_rows, detail_of,
}
use docflow_core.Service.Boards.Viewing.{get_board_detail}
use docflow_core.Service.Access.Sight.{CanSee}
use docflow_core.Exec.Answers.{
  IsUp, Answers-pure, Answers-if, Answers-missing_as, Answers-bind, Answers-query, Answers,
}
use docflow_core.Model.Views.{BoardDetailResponse}
use docflow_core.Repo.Boards.{find_board}
use docflow_core.Service.Access.{is_manager, check_access}
use docflow_core.Model.{not_found, is_workspace_visible, Visibility, Role, Board}
use docflow_core.Repo.Boards
use docflow_core.Prelude.{
  ◌≤◌, ℕ, ◌≡◌, refl, ap, ◌⊎◌, Bool, true, false, some, [], find_row, count_rows, arith,
}
use docflow_core.Model.Store.{Store, World, ok}
use docflow_core.Exec.{found}

module _ (s : Store) where
  pub find_by_id-Answers :
      (board : ℕ) (b : Board) → find_board board s ≡ some b → Answers s b (Boards.find_by_id board)
  unfolding Boards.find_by_id
  find_by_id-Answers board b e = Answers-query s _ b (ap found e)

  row_of_member :
      (b : Board) (role : Role) (exists : Bool)
      → (b.visibility ≡ Visibility.workspace)
        ⊎ (role ≡ Role.owner)
        ⊎ (role ≡ Role.admin)
        ⊎ (exists ≡ true)
      → is_workspace_visible b.visibility ≡ false
      → is_manager role ≡ false
      → exists ≡ true
  row_of_member b role exists why v m = ground (arith, why, v, m)

  pub check_access-Answers :
      (board user : ℕ) (role : Role)
      → CanSee s board user role
      → Answers s tt (check_access board user role)
  unfolding check_access Boards.is_member
  check_access-Answers board user role (b, here, why) =
      Answers-bind s b tt _ _ (Answers-missing_as s not_found _ b (find_by_id-Answers board b here))
        (Answers-if s tt (is_workspace_visible b.visibility) _ _ (λ v. Answers-pure s tt)
          λ v.
            Answers-if s tt (is_manager role) _ _ (λ m. Answers-pure s tt)
              λ m.
                Answers-bind s true tt _ _
                  (Answers-query s _ true (ap ok (row_of_member b role _ why v m)))
                  (Answers-pure s tt))

  pub detail-Answers :
      (board : ℕ) (b : Board)
      → find_board board s ≡ some b
      → Answers s (stored_detail board b s) (Detail.get_board_detail board)
  unfolding Detail.get_board_detail Lists.list_board_members
  detail-Answers board b e = Answers-bind s b _ _ _ (find_by_id-Answers board b e) (
      Answers-bind s (members_of board s) _ _ _ (Answers-query s _ _ refl) (
        Answers-bind s (group_rows board s (detail_rows board s) []) _ _ _
          (Answers-query s _ _ refl) (Answers-pure s _)))

-- While no call of the driver fails, GetBoardDetail answers everyone who can see the board. The
-- answer carries the board's fields, the caller's role and the members, and under each column id
-- that at most one row of the table has exactly what one lookup for that column would find: its
-- cards that are not archived, by position, or no column at all if the board has none with that id.
pub get_board_detail_shows :
    (board user : ℕ) (workspace_role board_role : Role) (id : ℕ) (w : World)
    → IsUp w
    → CanSee w.db board user workspace_role
    → count_rows (has_column_id id) w.db.columns ≤ 1
    → (b : Board) × (d : BoardDetailResponse) × (find_board board w.db ≡ some b)
      × ((get_board_detail board user workspace_role board_role w).0 ≡ ok d)
      × (d.id ≡ b.id)
      × (d.title ≡ b.title)
      × (d.visibility ≡ b.visibility)
      × (d.my_board_role ≡ board_role)
      × (d.is_public_view ≡ false)
      × (d.members ≡ members_of board w.db)
      × (find_row (has_group_id id) d.columns ≡ expected_column board w.db id)
unfolding get_board_detail
get_board_detail_shows board user role board_role id w up sees key =
    let (b, here, why) = sees in
    let shown = record (stored_detail board b w.db) { my_board_role = board_role } in
    let answers = Answers-bind w.db tt shown _ _ (check_access-Answers w.db board user role sees) (
      Answers-bind w.db (stored_detail board b w.db) shown _ _ (detail-Answers w.db board b here)
        (Answers-pure w.db shown)) in
    (
      b,
      shown,
      here,
      (answers.at w refl up).0,
      refl,
      refl,
      refl,
      refl,
      refl,
      refl,
      answered-expected board w.db id key,
    )
