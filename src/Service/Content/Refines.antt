-- ===== src/Service/Content/Refines.antt =====
-- internal/services/cards.go and internal/services/columns.go against the rules of Rules.
use docflow_core.Prelude.{List, ℕ}
use docflow_core.Model.{Role}
use mathlib.Core.Path.{refl}
use docflow_core.Model.Store.{World}
use docflow_core.Service.Content.Request.{Request, perform}
use docflow_core.Service.Content.Rules.{Served, Left}
use docflow_core.Service.Content.Serving.{ToldOrLeft}
use docflow_core.Service.Content.Serves.Columns.{
  Serves, create_column-Serves, update_column-Serves, delete_column-Serves,
}
use docflow_core.Service.Content.Serves.Cards.{
  create_card-Serves, update_card-Serves, archive_card-Serves, unarchive_card-Serves,
  delete_card-Serves,
}
use docflow_core.Service.Content.Serves.Moves.{move_card-Serves}
use docflow_core.Model.Store.{Store, BoardEvent}

all-Serves :
    (user : ℕ) (role : Role) (s : Store) (es : List BoardEvent) (r : Request)
    → Serves user role s es r
all-Serves user role s es (Request.create_column board title) =
    create_column-Serves user role s es board title
all-Serves user role s es (Request.update_column id title position) =
    update_column-Serves user role s es id title position
all-Serves user role s es (Request.delete_column id) = delete_column-Serves user role s es id
all-Serves user role s es (Request.create_card column title color) =
    create_card-Serves user role s es column title color
all-Serves user role s es (Request.update_card id title color assignee) =
    update_card-Serves user role s es id title color assignee
all-Serves user role s es (Request.move_card id column ref) =
    move_card-Serves user role s es id column ref
all-Serves user role s es (Request.archive_card id) = archive_card-Serves user role s es id
all-Serves user role s es (Request.unarchive_card id) = unarchive_card-Serves user role s es id
all-Serves user role s es (Request.delete_card id) = delete_card-Serves user role s es id

-- A request on a column or a card either succeeds: then the caller can see the board that the
-- column or card is on, a moved card stays on its board, the tables are changed by exactly the
-- effect of the request, and the board's room is sent exactly the events that tell of it. Or it
-- fails: then no event is sent, and the tables are as before, except that a failure after the
-- write of UpdateCard, UnarchiveCard or MoveCard leaves that write, and one in MoveCard may leave
-- the column rebalanced. This holds whichever calls of the database driver fail.
pub content_refines :
    (user : ℕ) (role : Role) (r : Request) (w : World)
    → ToldOrLeft
        (Served user role r w.db w.events)
        (Left r w.db)
        w.events
        (perform user role r w).0
        (perform user role r w).1.db
        (perform user role r w).1.events
content_refines user role r w = (all-Serves user role w.db w.events r).at w refl refl
