-- ===== src/Repo/Cards.antt =====
-- internal/repositories/cards.go.
pub mod Reading
pub mod Writing
pub mod Placing
use docflow_core.Prelude.{
  ℕ, suc, ◌+◌, ◌*◌, String, Bool, true, false, not, ◌&&◌, ◌==◌, Option, none, some, get_or, List,
  [], ◌∷◌, map, select, find_row, exists_row, update_rows, insert_row,
}
use docflow_core.Position.{Position, of_ℕ, lt_pos, add_thousand}
use docflow_core.Position.Rows.{highest, lowest, order_by}
use docflow_core.Model.{Card, Document, User, UserPublic}
use docflow_core.Model.Store.{Store, Result, ok, err}
use docflow_core.Exec.{Exec, ◌>>=◌, pure, query, execute, found, transaction}
use docflow_core.Repo.Cascade
use docflow_core.Repo.Statement.{affected, returning}

abbrev pub has_card_id : ℕ → Card → Bool
has_card_id id c = c.id == id

abbrev pub find_card : ℕ → Store → Option Card
find_card id s = find_row (has_card_id id) s.cards

-- `WHERE column_id = $1 AND archived = FALSE`
abbrev pub is_live : ℕ → Card → Bool
is_live column c = c.column_id == column && not c.archived

abbrev pub card_row : ℕ → ℕ → String → ℕ → Position → Option String → Store → Card
card_row board column title creator position color s = record {
  id = s.next_id;
  board_id = board;
  column_id = column;
  title = title;
  position = position;
  color = color;
  assignee_id = none;
  archived = false;
  created_by = creator;
  created_at = s.now;
  updated_at = s.now;
}

-- `INSERT INTO cards`
unfoldable pub insert_card :
    ℕ → ℕ → String → ℕ → Position → Option String → Store → Result Card × Store
insert_card board column title creator position color s =
    let c = card_row board column title creator position color s in
    (ok c, record s { cards = insert_row c s.cards; next_id = suc s.next_id })

abbrev pub document_row : ℕ → Store → Document
document_row card s = record {
  id = s.next_id;
  card_id = card;
  snapshot = none;
  snapshot_clock = 0;
  updated_at = s.now;
}

-- `INSERT INTO documents`
unfoldable pub insert_document : ℕ → Store → Result ℕ × Store
insert_document card s =
    let d = document_row card s in
    (ok d.id, record s { documents = insert_row d s.documents; next_id = suc s.next_id })

unfoldable pub create_with_document :
    ℕ → ℕ → String → ℕ → Position → Option String → Exec (Card × ℕ)
unfolding insert_card insert_document execute transaction
create_with_document board column title creator position color = transaction do
  card ← execute (insert_card board column title creator position color)
  document ← execute (insert_document card.id)
  pure (card, document)

unfoldable pub find_by_id : ℕ → Exec Card
unfolding query
find_by_id id = query λ s. found (find_card id s)

-- The cards of a column as the board shows them
abbrev pub live_cards : ℕ → Store → List Card
live_cards column s = order_by (λ c. c.position) (select (is_live column) s.cards)

unfoldable pub find_by_column : ℕ → Exec (List Card)
unfolding query
find_by_column column = query λ s. ok (live_cards column s)

-- `COALESCE($2, color)`
abbrev pub given_or : {A : Type 0} → Option A → Option A → Option A
given_or none old = old
given_or (some a) old = some a

abbrev pub update_card_row : Option String → Option String → Option ℕ → ℕ → Card → Card
update_card_row title color assignee now c = record c {
  title = get_or title c.title;
  color = given_or color c.color;
  assignee_id = given_or assignee c.assignee_id;
  updated_at = now;
}

abbrev pub with_card : ℕ → (Card → Card) → Store → Store
with_card id f s = record s { cards = update_rows (has_card_id id) f s.cards }

unfoldable pub update : ℕ → Option String → Option String → Option ℕ → Exec Card
unfolding execute
update id title color assignee = execute λ s.
    returning (find_card id s) (update_card_row title color assignee s.now) s
      (with_card id (update_card_row title color assignee s.now) s)

abbrev pub move_row : ℕ → Position → ℕ → Card → Card
move_row column position now c = record c {
  column_id = column;
  position = position;
  updated_at = now;
}

unfoldable pub move : ℕ → ℕ → Position → Exec (Unit {0})
unfolding execute
move id column position = execute λ s.
    affected (exists_row (has_card_id id) s.cards) s
      (with_card id (move_row column position s.now) s)

abbrev pub archive_row : Bool → ℕ → Card → Card
archive_row archived now c = record c { archived = archived; updated_at = now }

unfoldable pub archive : ℕ → Exec (Unit {0})
unfolding execute
archive id =
    execute λ s.
      affected (exists_row (has_card_id id) s.cards) s (with_card id (archive_row true s.now) s)

unfoldable pub unarchive : ℕ → Exec (Unit {0})
unfolding execute
unarchive id =
    execute λ s.
      affected (exists_row (has_card_id id) s.cards) s (with_card id (archive_row false s.now) s)

unfoldable pub delete : ℕ → Exec (Unit {0})
unfolding execute
delete id =
    execute λ s.
      affected (exists_row (has_card_id id) s.cards) s (Cascade.delete_cards (has_card_id id) s)

-- The positions of a column's cards that are not archived
abbrev pub card_positions : ℕ → Store → List Position
card_positions column s = map (λ c. c.position) (select (is_live column) s.cards)

-- GetMaxPositionInColumn
unfoldable pub get_max_position : ℕ → Exec Position
unfolding query
get_max_position column = query λ s. ok (get_or (highest (card_positions column s)) (of_ℕ 0))

abbrev pub position_below : ℕ → Position → Store → Position
position_below column ref s =
    get_or (highest (select (λ p. lt_pos p ref) (card_positions column s))) (of_ℕ 0)

abbrev pub position_above : ℕ → Position → Store → Position
position_above column ref s =
    get_or (lowest (select (λ p. lt_pos ref p) (card_positions column s))) (add_thousand ref)

unfoldable pub get_neighbor_positions : ℕ → Position → Exec (Position × Position)
unfolding query
get_neighbor_positions column ref = do
  below ← query (λ s. ok (position_below column ref s))
  above ← query (λ s. ok (position_above column ref s))
  pure (below, above)

abbrev pub place_row : Position → ℕ → Card → Card
place_row position now c = record c { position = position; updated_at = now }

-- The loop of RebalanceColumn over the identifiers, from the i-th on
unfoldable pub reassign : ℕ → List ℕ → Exec (Unit {0})
unfolding execute
reassign i [] = pure tt
reassign i (id ∷ ids) =
    execute (λ s. (ok tt, with_card id (place_row (of_ℕ ((i + 1) * 1000)) s.now) s)) >>= λ _.
    reassign (i + 1) ids

unfoldable pub rebalance_column : ℕ → Exec (Unit {0})
unfolding query reassign transaction
rebalance_column column =
    transaction do ids ← query (λ s. ok (map (λ c. c.id) (live_cards column s))); reassign 0 ids

abbrev pub find_document : ℕ → Store → Option Document
find_document card s = find_row (λ d. d.card_id == card) s.documents

-- GetDocumentID
unfoldable pub get_document_id : ℕ → Exec ℕ
unfolding query
get_document_id card =
    query λ s. elim (found (find_document card s)) [ ok d ↦ ok d.id | err e ↦ err e ]

abbrev pub public_of : Option User → Option UserPublic
public_of none = none
public_of (some u) = some (record {
  id = u.id;
  email = u.email;
  name = u.name;
  avatar_url = u.avatar_url;
  created_at = u.created_at;
})

-- The join of a card with its assignee
abbrev pub assignee_of : Option Card → List User → Option UserPublic
assignee_of none users = none
assignee_of (some c) users = elim c.assignee_id [
  | none ↦ none
  | some id ↦ public_of (find_row (λ u. u.id == id) users)
]

-- GetAssignee; no row is no error
unfoldable pub get_assignee : ℕ → Exec (Option UserPublic)
unfolding query
get_assignee card = query λ s. ok (assignee_of (find_card card s) s.users)
