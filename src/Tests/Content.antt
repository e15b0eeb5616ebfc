-- ===== src/Tests/Content.antt =====
-- The board with a column of two cards, and requests on them.
use docflow_core.Prelude.{ℕ, ◌≡◌, refl, false, none, [], ◌∷◌, insert_row, Every, arith}
use docflow_core.Position.{of_ℕ}
use docflow_core.Position.Order.{◌≺◌}
use docflow_core.Model.{Role, Column, Card, Document}
use docflow_core.Model.Store.{World}
use docflow_core.Repo.Cards.{card_positions}
use docflow_core.Service
use docflow_core.Service.Cards
use docflow_core.Service.Content.Request.{Request, perform}
use docflow_core.Service.Content.Rules.{Served, Left}
use docflow_core.Service.Content.Serving.{ToldOrLeft}
use docflow_core.Service.Content.Refines.{content_refines}
use docflow_core.Service.Content.Landing.{create_card_last}
use docflow_core.Tests.Boards.{tables, world}

abbrev card : ℕ → ℕ → Card
card id position = record {
  id = id;
  board_id = 1;
  column_id = 20;
  title = "card";
  position = of_ℕ position;
  color = none;
  assignee_id = none;
  archived = false;
  created_by = 10;
  created_at = 0;
  updated_at = 0;
}

abbrev document : ℕ → ℕ → Document
document id card = record {
  id = id;
  card_id = card;
  snapshot = none;
  snapshot_clock = 0;
  updated_at = 0;
}

abbrev to_do : Column
to_do = record {
  id = 20;
  board_id = 1;
  title = "to do";
  position = of_ℕ 1000;
  created_at = 0;
  updated_at = 0;
}

abbrev pub full : World
full = record world {
  db = record tables {
    columns = to_do ∷ [];
    cards = card 30 1000 ∷ card 31 2000 ∷ card 32 3000 ∷ [];
    documents = document 40 30 ∷ document 41 31 ∷ document 42 32 ∷ [];
    next_id = 50;
  };
}

content_refines_example :
    ToldOrLeft
      (Served 10 Role.member (Request.archive_card 31) full.db [])
      (Left (Request.archive_card 31) full.db)
      []
      (perform 10 Role.member (Request.archive_card 31) full).0
      (perform 10 Role.member (Request.archive_card 31) full).1.db
      (perform 10 Role.member (Request.archive_card 31) full).1.events
content_refines_example = content_refines 10 Role.member (Request.archive_card 31) full

abbrev created : World
created = (perform 10 Role.member (Request.create_card 20 "new" none) full).1

create_card_last_example :
    (c : Card) × (created.db.cards ≡ insert_row c full.db.cards)
    × (c.column_id ≡ 20)
    × Every (λ p. p ≺ c.position) (card_positions 20 full.db)
unfolding perform Service.Cards.create_card
create_card_last_example =
    create_card_last 10 20 Role.member "new" none full created
      (omega arith, (omega arith, (omega arith, tt))) refl

-- Between the first card and the second
abbrev moved_up : World
moved_up = (perform 10 Role.member (Request.move_card 32 20 (of_ℕ 1500)) full).1
