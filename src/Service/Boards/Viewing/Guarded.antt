-- ===== src/Service/Boards/Viewing/Guarded.antt =====
-- internal/services/boards.go: to whom GetBoardDetail, ListBoardMembers and GetArchivedCards show a
-- board.
use docflow_core.Service.Access.{check_access}
use docflow_core.Repo.Boards.Lookups.{find_by_id-Reads}
use docflow_core.Service.Access.Sight.{check_access-Reads, CanSee}
use docflow_core.Repo.Boards.{find_board}
use docflow_core.Exec.Ensures.{Outcome}
use docflow_core.Model.{not_found, Role, Board}
use docflow_core.Repo.Boards.Lists.{archived_of, members_of}
use docflow_core.Model.Views.{BoardDetailResponse}
use docflow_core.Exec.Reads.{
  Reads-missing_as, Reads-pure, Reads-query, Reads-weaken, Reads-bind, Reads,
}
use docflow_core.Prelude.{ℕ, ◌≡◌, refl, ap, some, List, []}
use docflow_core.Model.Store.{Store, World, BoardEvent, Result, ok, err}
use docflow_core.Exec.{pure, ◌>>◌, ◌>>=◌, Exec}
use docflow_core.Repo.Boards.Lists
use docflow_core.Repo.Boards.Detail
use docflow_core.Repo.Boards.Detail.{detail_rows, group_rows, stored_detail}
use docflow_core.Service.Boards.Viewing.{get_board_detail, list_board_members, get_archived_cards}

pub list_board_members-Reads :
    (board : ℕ) → Reads (λ s ms. ms ≡ members_of board s) (Lists.list_board_members board)
unfolding Lists.list_board_members
list_board_members-Reads board =
    Reads-weaken _ _ _ (λ s ms e. cc) (Reads-query (λ s. ok (members_of board s)))

pub find_archived_cards-Reads :
    (board : ℕ) → Reads (λ s cs. cs ≡ archived_of board s) (Lists.find_archived_cards board)
unfolding Lists.find_archived_cards
find_archived_cards-Reads board =
    Reads-weaken _ _ _ (λ s cs e. cc) (Reads-query (λ s. ok (archived_of board s)))

-- The answer is made of the board's row and of the tables.
abbrev pub IsStored : ℕ → Store → BoardDetailResponse → Type 0
IsStored board s d = (b : Board) × (find_board board s ≡ some b) × (d ≡ stored_detail board b s)

pub detail-Reads : (board : ℕ) → Reads (IsStored board) (Detail.get_board_detail board)
unfolding Detail.get_board_detail
detail-Reads board = Reads-bind _ _ _ _ (find_by_id-Reads board) λ b.
    Reads-bind _ _ _ _ (list_board_members-Reads board) λ ms.
      Reads-bind (λ s columns. columns ≡ group_rows board s (detail_rows board s) []) _ _ _
        (Reads-weaken _ _ _ (λ s columns e. cc)
          (Reads-query (λ s. ok (group_rows board s (detail_rows board s) []))))
        λ columns. Reads-pure _ _ λ s k m here. (b, here, cc)

module _ {A : Type 0} (F : Store → A → Type 0) (m : Exec A) (w : World) where
  -- A method that reads leaves the tables and the events alone.
  abbrev Unchanged : A → Store → List BoardEvent → Type 0
  Unchanged a s es = F w.db a × (s ≡ w.db) × (es ≡ w.events)

  Outcome-Reads : Reads F m → Outcome w.db w.events Unchanged (m w).0 (m w).1.db (m w).1.events
  Outcome-Reads h = outcome (m w).0 (m w).1 (h.same_db w) (h.same_events w) (h.reads w)
    where
      outcome :
          (r : Result A) (v : World)
          → v.db ≡ w.db
          → v.events ≡ w.events
          → ((a : A) → r ≡ ok a → F w.db a)
          → Outcome w.db w.events Unchanged r v.db v.events
      outcome (ok a) v p q f = (f a refl, p, q)
      outcome (err e) v p q f = (p, q)

module _ (board user : ℕ) (workspace_role : Role) where
  -- What the caller was shown, if anything, comes of the tables and was theirs to see.
  abbrev pub Showing : {A : Type 0} → (Store → A → Type 0) → Exec A → World → Type 0
  Showing F m w =
      Outcome w.db w.events (Unchanged (λ s a. CanSee s board user workspace_role × F s a) m w)
        (m w).0 (m w).1.db (m w).1.events

  abbrev Sees : Store → Type 0
  Sees s = CanSee s board user workspace_role

  -- The stored detail with the caller's role
  abbrev pub IsAnswer : Role → Store → BoardDetailResponse → Type 0
  IsAnswer board_role s d =
      (b : Board) × (find_board board s ≡ some b)
      × (d ≡ record (stored_detail board b s) { my_board_role = board_role })

  seen : Reads (λ s _. Sees s) (check_access board user workspace_role)
  seen = check_access-Reads board user workspace_role

  guarded :
      {A : Type 0} (F : Store → A → Type 0) (m : Exec A)
      → Reads F m
      → Reads (λ s a. Sees s × F s a) (check_access board user workspace_role >> m)
  guarded F m h =
      Reads-bind _ _ _ _ seen
        (λ _. Reads-weaken F (λ s a. Sees s → Sees s × F s a) m (λ s a f sees. (sees, f)) h)

  IsAnswer-Reads :
      (board_role : Role)
      → Reads
          (IsAnswer board_role)
          (Detail.get_board_detail board >>= λ d. pure (record d { my_board_role = board_role }))
  IsAnswer-Reads board_role = Reads-bind _ (IsAnswer board_role) _ _ (detail-Reads board) λ d.
      Reads-pure _ _ λ s (b, here, e).
        (b, here, ap (λ (x : BoardDetailResponse). record x { my_board_role = board_role }) e)

  -- GetBoardDetail, ListBoardMembers and GetArchivedCards change nothing, whichever calls of the
  -- driver fail, and they return only for a caller who can see the board: the board's row with its
  -- members, its columns and the caller's role; the members; the archived cards.
  pub viewing_is_guarded :
      (board_role : Role) (w : World)
      → Showing (IsAnswer board_role) (get_board_detail board user workspace_role board_role) w
        × Showing (λ s ms. ms ≡ members_of board s) (list_board_members board user workspace_role) w
        × Showing
            (λ s cs. cs ≡ archived_of board s)
            (get_archived_cards board user workspace_role)
            w
  unfolding get_board_detail list_board_members get_archived_cards
  viewing_is_guarded board_role w = (
    Outcome-Reads _ _ w (guarded _ _ (IsAnswer-Reads board_role)),
    Outcome-Reads _ _ w (guarded _ _ (list_board_members-Reads board)),
    Outcome-Reads _ _ w
        (guarded _ _ (Reads-missing_as _ not_found _ (find_archived_cards-Reads board))),
  )
