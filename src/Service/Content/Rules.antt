-- ===== src/Service/Content/Rules.antt =====
-- The effect of each request on the tables, and what the room of the board is told.
use docflow_core.Prelude.{
  ◌++◌, ℕ, suc, ◌≡◌, ◌⊎◌, true, false, String, Option, none, some, get_or, List, [], ◌∷◌, map,
  if◌then◌else◌,
}
use docflow_core.Position.{Position, of_ℕ, add_thousand, between, needs_rebalance}
use docflow_core.Position.Rows.{highest}
use docflow_core.Model.{Role, Column, Card, Document}
use docflow_core.Model.Store.{Store, Payload, BoardEvent}
use docflow_core.Repo.Cascade
use docflow_core.Repo.Columns.{
  column_row, with_new_column, has_column_id, find_column, with_column, column_positions,
}
use docflow_core.Repo.Cards.{
  card_row, has_card_id, find_card, find_document, with_card, update_card_row, archive_row,
  card_positions, position_below, position_above, assignee_of,
}
use docflow_core.Repo.Cards.Writing.{with_new_card, rebalanced, moved}
use docflow_core.Service.Access.Sight.{CanSee}
use docflow_core.Service.Columns.{column_to_response}
use docflow_core.Service.Cards.{card_to_response}
use docflow_core.Service.Content.Request.{Request}

-- The column that a board gets
abbrev pub new_column : ℕ → String → Store → Column
new_column board title s =
    column_row board title (add_thousand (get_or (highest (column_positions board s)) (of_ℕ 0))) s

-- The card that a column of the board gets, with a document
abbrev pub new_card : ℕ → ℕ → ℕ → String → Option String → Store → Card
new_card board column user title color s =
    let position = add_thousand (get_or (highest (card_positions column s)) (of_ℕ 0)) in
    card_row board column title user position color s

-- The column when a card is about to be moved there
abbrev pub made_room : ℕ → Position → Store → Store
made_room column ref s =
    if needs_rebalance (position_below column ref s) (position_above column ref s)
    then rebalanced column s
    else s

abbrev pub landing : ℕ → Position → Store → Position
landing column ref s = between (position_below column ref s) (position_above column ref s)

abbrev pub HasColumn : ℕ → ℕ → Store → Type 0
HasColumn id board s = (k : Column) × (find_column id s ≡ some k) × (k.board_id ≡ board)

abbrev pub HasCard : ℕ → ℕ → Store → Type 0
HasCard id board s = (c : Card) × (find_card id s ≡ some c) × (c.board_id ≡ board)

-- The request is about a column or card of the board; a card moves within its board.
abbrev pub About : Request → ℕ → Store → Type 0
About (Request.create_column b _) board s = b ≡ board
About (Request.update_column id _ _) board s = HasColumn id board s
About (Request.delete_column id) board s = HasColumn id board s
About (Request.create_card column _ _) board s = HasColumn column board s
About (Request.update_card id _ _ _) board s = HasCard id board s
About (Request.move_card id column _) board s = HasCard id board s × HasColumn column board s
About (Request.archive_card id) board s = HasCard id board s
About (Request.unarchive_card id) board s = HasCard id board s
About (Request.delete_card id) board s = HasCard id board s

-- The tables after a request on a board
abbrev pub after : Request → ℕ → ℕ → Store → Store
after (Request.create_column _ title) board user s = with_new_column (new_column board title s) s
after (Request.update_column id title position) board user s = with_column id title position s
after (Request.delete_column id) board user s = Cascade.delete_columns (has_column_id id) s
after (Request.create_card column title color) board user s =
    with_new_card (new_card board column user title color s) s
after (Request.update_card id title color assignee) board user s =
    with_card id (update_card_row title color assignee s.now) s
after (Request.move_card id column ref) board user s =
    let t = made_room column ref s in moved id column (landing column ref t) t
after (Request.archive_card id) board user s = with_card id (archive_row true s.now) s
after (Request.unarchive_card id) board user s = with_card id (archive_row false s.now) s
after (Request.delete_card id) board user s = Cascade.delete_cards (has_card_id id) s

abbrev pub change_told : ℕ → Option String → Option Position → List Payload
change_told id (some title) (some position) =
    Payload.column_renamed id title ∷ Payload.column_reordered id position ∷ []
change_told id (some title) none = Payload.column_renamed id title ∷ []
change_told id none (some position) = Payload.column_reordered id position ∷ []
change_told id none none = []

-- The card and its document as they are now, with the assignee
abbrev pub IsRestored : ℕ → Store → List Payload → Type 0
IsRestored id t ps =
    (c : Card) × (d : Document) × (find_card id t ≡ some c)
    × (find_document id t ≡ some d)
    × (ps
        ≡ Payload.card_unarchived (card_to_response c d.id (assignee_of (find_card id t) t.users))
          ∷ [])

-- What the room is told of a request that took the tables from s to t
abbrev pub Told : Request → ℕ → ℕ → Store → Store → List Payload → Type 0
Told (Request.create_column _ title) board user s t ps =
    ps ≡ Payload.column_created (column_to_response (new_column board title s)) ∷ []
Told (Request.update_column id title position) board user s t ps =
    ps ≡ change_told id title position
Told (Request.delete_column id) board user s t ps = ps ≡ Payload.column_deleted id ∷ []
Told (Request.create_card column title color) board user s t ps =
    ps
    ≡ Payload.card_created
        (card_to_response (new_card board column user title color s) (suc s.next_id) none)
      ∷ []
Told (Request.update_card id title color assignee) board user s t ps =
    ps ≡ Payload.card_updated id title color assignee ∷ []
Told (Request.move_card id column ref) board user s t ps =
    ps ≡ Payload.card_moved id column (landing column ref (made_room column ref s)) ∷ []
Told (Request.archive_card id) board user s t ps = ps ≡ Payload.card_archived id ∷ []
Told (Request.unarchive_card id) board user s t ps = IsRestored id t ps
Told (Request.delete_card id) board user s t ps = ps ≡ Payload.card_deleted id ∷ []

-- What a request that fails may have left behind: the methods read again after their write, and
-- MoveCard rebalances the column before its own.
abbrev pub Left : Request → Store → Store → Type 0
Left (Request.update_card id title color assignee) s t =
    (t ≡ s) ⊎ (t ≡ with_card id (update_card_row title color assignee s.now) s)
Left (Request.move_card id column ref) s t =
    let room = made_room column ref s in
    (t ≡ s) ⊎ (t ≡ room) ⊎ (t ≡ moved id column (landing column ref room) room)
Left (Request.unarchive_card id) s t = (t ≡ s) ⊎ (t ≡ with_card id (archive_row false s.now) s)
Left _ s t = t ≡ s

abbrev pub events_for : ℕ → List Payload → List BoardEvent
events_for board = map (λ p. record { board_id = board; payload = p })

-- A request of a user with a workspace role that was served, with its events
pub record Served (user : ℕ) (role : Role) (r : Request) (s : Store) (es : List BoardEvent)
    (t : Store) (es' : List BoardEvent) : Type 0 where
  pub board : ℕ
  pub about : About r board s
  pub seen : CanSee s board user role
  pub payloads : List Payload
  pub effect : t ≡ after r board user s
  pub told : Told r board user s t payloads
  pub sent : es' ≡ es ++ events_for board payloads
