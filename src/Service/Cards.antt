-- ===== src/Service/Cards.antt =====
-- internal/services/cards.go: CardService.
use docflow_core.Prelude.{ℕ, String, not, ◌==◌, Option, none, if◌then◌else◌}
use docflow_core.Position.{Position, add_thousand, needs_rebalance, between}
use docflow_core.Model.{Role, Card, CardResponse, UserPublic}
use docflow_core.Model.Error.{not_found, insufficient_permissions}
use docflow_core.Model.Store.{Payload}
use docflow_core.Exec.{Exec, ◌>>=◌, ◌>>◌, pure, raise, missing_as, broadcast}
use docflow_core.Repo.Columns
use docflow_core.Repo.Cards
use docflow_core.Service.Access.{check_access}

-- cardToResponse
abbrev pub card_to_response : Card → ℕ → Option UserPublic → CardResponse
card_to_response c document assignee = record {
  id = c.id;
  board_id = c.board_id;
  column_id = c.column_id;
  title = c.title;
  position = c.position;
  color = c.color;
  assignee = assignee;
  document_id = document;
  archived = c.archived;
  created_at = c.created_at;
}

-- CreateCard
unfoldable pub create_card : ℕ → ℕ → Role → String → Option String → Exec CardResponse
unfolding check_access missing_as Columns.find_by_id Cards.get_max_position
    Cards.create_with_document add_thousand broadcast
create_card column user member_role title color = do
  col ← missing_as not_found (Columns.find_by_id column)
  check_access col.board_id user member_role
  max ← Cards.get_max_position column
  (card, document) ←
      Cards.create_with_document col.board_id column title user (add_thousand max) color
  let resp = card_to_response card document none
  broadcast col.board_id (Payload.card_created resp)
  pure resp

-- UpdateCard
unfoldable pub update_card :
    ℕ → ℕ → Role → Option String → Option String → Option ℕ → Exec CardResponse
unfolding check_access missing_as Cards.find_by_id Cards.update Cards.get_document_id broadcast
update_card id user member_role title color assignee = do
  card ← missing_as not_found (Cards.find_by_id id)
  check_access card.board_id user member_role
  updated ← missing_as not_found (Cards.update id title color assignee)
  document ← Cards.get_document_id id
  broadcast card.board_id (Payload.card_updated id title color assignee)
  pure (card_to_response updated document none)

-- MoveCard, from the lookup of the neighbours to the position that the card gets
unfoldable pub final_position : ℕ → Position → Exec Position
unfolding Cards.get_neighbor_positions Cards.rebalance_column needs_rebalance between
final_position column position = do
  (below, above) ← Cards.get_neighbor_positions column position
  if needs_rebalance below above
      then (do
        Cards.rebalance_column column
        (below', above') ← Cards.get_neighbor_positions column position
        pure (between below' above'))
      else pure (between below above)

-- MoveCard
unfoldable pub move_card : ℕ → ℕ → Role → ℕ → Position → Exec CardResponse
unfolding check_access missing_as Cards.find_by_id Columns.find_by_id final_position Cards.move
    Cards.get_document_id broadcast
move_card id user member_role column position = do
  card ← missing_as not_found (Cards.find_by_id id)
  check_access card.board_id user member_role
  target ← missing_as not_found (Columns.find_by_id column)
  if not (target.board_id == card.board_id) then raise insufficient_permissions else (do
    final ← final_position column position
    Cards.move id column final
    document ← Cards.get_document_id id
    moved ← Cards.find_by_id id
    broadcast card.board_id (Payload.card_moved id column final)
    pure (card_to_response moved document none))

-- DeleteCard
unfoldable pub delete_card : ℕ → ℕ → Role → Exec (Unit {0})
unfolding check_access missing_as Cards.find_by_id Cards.delete broadcast
delete_card id user member_role = do
  card ← missing_as not_found (Cards.find_by_id id)
  check_access card.board_id user member_role
  missing_as not_found (Cards.delete id)
  broadcast card.board_id (Payload.card_deleted id)

-- ArchiveCard
unfoldable pub archive_card : ℕ → ℕ → Role → Exec (Unit {0})
unfolding check_access missing_as Cards.find_by_id Cards.archive broadcast
archive_card id user member_role = do
  card ← missing_as not_found (Cards.find_by_id id)
  check_access card.board_id user member_role
  missing_as not_found (Cards.archive id)
  broadcast card.board_id (Payload.card_archived id)

-- UnarchiveCard
unfoldable pub unarchive_card : ℕ → ℕ → Role → Exec (Unit {0})
unfolding check_access missing_as Cards.find_by_id Cards.unarchive Cards.get_document_id
    Cards.get_assignee broadcast
unarchive_card id user member_role = do
  card ← missing_as not_found (Cards.find_by_id id)
  check_access card.board_id user member_role
  missing_as not_found (Cards.unarchive id)
  restored ← Cards.find_by_id id
  document ← Cards.get_document_id id
  assignee ← Cards.get_assignee id
  broadcast card.board_id (Payload.card_unarchived (card_to_response restored document assignee))
