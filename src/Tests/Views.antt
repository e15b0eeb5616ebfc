-- ===== src/Tests/Views.antt =====
-- The board of the other tests, shown, listed and shared.
use docflow_core.Repo.Boards.Detail.Columns.{expected_column}
use docflow_core.Repo.Boards.Detail.{has_group_id, stored_detail}
use docflow_core.Repo.Boards.Lists.{archived_of, members_of}
use docflow_core.Repo.Boards.{find_board}
use docflow_core.Model.Views.{BoardDetailResponse, BoardResponse}
use docflow_core.Model.{board_access_denied, Role, Board}
use docflow_core.Prelude.{
  ◌≡◌, ◌≢◌, refl, ◌⊎◌, inr, ◌==◌, true, false, some, List, [], ◌∷◌, find_row, exists_row, arith,
}
use docflow_core.Model.Store.{World, ok, err}
use docflow_core.Service.Boards.Viewing
use docflow_core.Service.Boards.Viewing.{get_public_board}
use docflow_core.Service.Boards
use docflow_core.Service.Boards.Viewing.Shown.{get_board_detail_shows}
use docflow_core.Service.Boards.Viewing.Guarded.{viewing_is_guarded, Showing, IsAnswer}
use docflow_core.Service.Boards.Viewing.Links.{revoked_link_closes, generated_link_opens}
use docflow_core.Handler.Boards.Views
use docflow_core.Handler.Boards.Listing.{listed_boards_open}
use docflow_core.Tests.Boards.{plans, world, in_workspace}
use docflow_core.Tests.Content.{full}

-- The column with its three cards.
get_board_detail_shows_example :
    (b : Board) × (d : BoardDetailResponse) × (find_board 1 full.db ≡ some b)
    × ((Viewing.get_board_detail 1 11 Role.member Role.editor full).0 ≡ ok d)
    × (d.id ≡ b.id)
    × (d.title ≡ b.title)
    × (d.visibility ≡ b.visibility)
    × (d.my_board_role ≡ Role.editor)
    × (d.is_public_view ≡ false)
    × (d.members ≡ members_of 1 full.db)
    × (find_row (has_group_id 20) d.columns ≡ expected_column 1 full.db 20)
get_board_detail_shows_example =
    get_board_detail_shows 1 11 Role.member Role.editor 20 full (λ n. refl)
      (plans, refl, inr (inr (inr refl))) (omega arith)

viewing_is_guarded_example :
    Showing 1 11 Role.member
      (IsAnswer 1 11 Role.member Role.editor)
      (Viewing.get_board_detail 1 11 Role.member Role.editor)
      full
    × Showing 1 11 Role.member
        (λ s ms. ms ≡ members_of 1 s)
        (Viewing.list_board_members 1 11 Role.member)
        full
    × Showing 1 11 Role.member
        (λ s cs. cs ≡ archived_of 1 s)
        (Viewing.get_archived_cards 1 11 Role.member)
        full
viewing_is_guarded_example = viewing_is_guarded 1 11 Role.member Role.editor full

listed_boards_open_example :
    (bs : List BoardResponse) × ((Views.list_boards 7 11 world).0 ≡ ok bs)
    × (((exists_row (λ r. r.id == 1) bs ≡ true)
          × (d : BoardDetailResponse) × ((Views.get_board_detail 1 11 world).0 ≡ ok d))
        ⊎ ((exists_row (λ r. r.id == 1) bs ≡ false)
            × ((Views.get_board_detail 1 11 world).0 ≡ err board_access_denied)))
listed_boards_open_example =
    listed_boards_open 1 11 plans (in_workspace 11 Role.member) world (λ n. refl) refl (omega arith)
      refl (omega arith)

-- A link is made, and then revoked while another board keeps its own.
abbrev shared : World
shared = (Boards.generate_share_link 1 10 Role.member Role.owner world).1

generated_link_opens_example :
    (d : BoardDetailResponse) × ((get_public_board 102 shared).0 ≡ ok d)
    × (d.id ≡ 1)
    × (d.is_public_view ≡ true)
    × (d.my_board_role ≡ Role.blank)
unfolding Boards.generate_share_link
generated_link_opens_example =
    generated_link_opens 1 10 Role.member Role.owner 102 world shared refl refl refl (λ n. refl)

abbrev open_plans : Board
open_plans = record plans { share_token = some 4 }

abbrev other : Board
other = record plans { id = 2; share_token = some 5 }

abbrev two_boards : World
two_boards = record world { db = record world.db { boards = open_plans ∷ other ∷ [] } }

abbrev revoked : World
revoked = (Boards.revoke_share_link 1 10 Role.member Role.owner two_boards).1

abbrev other_shown : BoardDetailResponse
other_shown = record (stored_detail 2 other revoked.db) { is_public_view = true }

revoked_link_closes_example : other_shown.id ≢ 1
unfolding Boards.revoke_share_link get_public_board
revoked_link_closes_example =
    revoked_link_closes 1 10 Role.member Role.owner 5 two_boards revoked other_shown refl refl refl
