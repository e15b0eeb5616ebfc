-- ===== src/Repo/Documents.antt =====
-- internal/repositories/documents.go.
use docflow_core.Prelude.{
  ℕ, ◌+◌, Bool, ◌&&◌, ◌==◌, ltb, leb, Option, none, some, List, find_row, exists_row, select,
  update_rows, delete_rows, insert_row, if◌then◌else◌,
}
use docflow_core.Position.{of_ℕ}
use docflow_core.Position.Rows.{order_by}
use docflow_core.Model.{Document, DocumentUpdate}
use docflow_core.Model.Error.{driver, record_not_found}
use docflow_core.Model.Store.{Store, Result, ok, err}
use docflow_core.Exec.{Exec, ◌>>=◌, ◌>>◌, pure, query, execute, found, transaction}

abbrev pub has_document_id : ℕ → Document → Bool
has_document_id id d = d.id == id

abbrev pub find_row_by_id : ℕ → Store → Option Document
find_row_by_id id s = find_row (has_document_id id) s.documents

unfoldable pub find_by_id : ℕ → Exec Document
unfolding query
find_by_id id = query λ s. found (find_row_by_id id s)

unfoldable pub find_by_card_id : ℕ → Exec Document
unfolding query
find_by_card_id card = query λ s. found (find_row (λ d. d.card_id == card) s.documents)

-- The largest INTEGER, the type of both clock columns
abbrev pub max_integer : ℕ
max_integer = 2147483647

abbrev pub with_document : ℕ → (Document → Document) → Store → Store
with_document id f s = record s { documents = update_rows (has_document_id id) f s.documents }

abbrev pub clock_row : ℕ → ℕ → Document → Document
clock_row clock now d = record d { snapshot_clock = clock; updated_at = now }

-- `UPDATE documents SET snapshot_clock = $1`, which fails out of range
unfoldable pub set_clock : ℕ → ℕ → Store → Result (Unit {0}) × Store
set_clock id clock s =
    if leb clock max_integer
    then (ok tt, with_document id (clock_row clock s.now) s)
    else (err driver, s)

abbrev pub has_clock : ℕ → ℕ → DocumentUpdate → Bool
has_clock document clock u = u.document_id == document && u.clock == clock

abbrev pub update_row : ℕ → List ℕ → ℕ → Store → DocumentUpdate
update_row document bytes clock s = record {
  document_id = document;
  update_data = bytes;
  clock = clock;
  created_at = s.now;
}

-- `INSERT INTO document_updates`, with the unique index on (document_id, clock)
unfoldable pub insert_update : ℕ → List ℕ → ℕ → Store → Result (Unit {0}) × Store
insert_update document bytes clock s =
    if exists_row (has_clock document clock) s.document_updates then (err driver, s) else (
      ok tt,
      record s {
        document_updates = insert_row (update_row document bytes clock s) s.document_updates;
      },
    )

-- IncrementClock; `FOR UPDATE` keeps other writers out until the transaction ends
unfoldable pub increment_clock : ℕ → List ℕ → Exec ℕ
unfolding query execute set_clock insert_update transaction
increment_clock document bytes = transaction do
  d ← query (λ s. found (find_row_by_id document s))
  let new_clock = d.snapshot_clock + 1
  execute (set_clock document new_clock)
  execute (insert_update document bytes new_clock)
  pure new_clock

-- The updates of a document with a clock above the one given, in the order of the table
abbrev pub updates_since : ℕ → ℕ → Store → List DocumentUpdate
updates_since document clock s =
    select (λ u. u.document_id == document && ltb clock u.clock) s.document_updates

unfoldable pub get_updates_since_clock : ℕ → ℕ → Exec (List DocumentUpdate)
unfolding query
get_updates_since_clock document clock =
    query λ s. ok (order_by (λ u. of_ℕ u.clock) (updates_since document clock s))

abbrev pub snapshot_of : Option Document → Result (Option (List ℕ) × ℕ)
snapshot_of none = err record_not_found
snapshot_of (some d) = ok (d.snapshot, d.snapshot_clock)

unfoldable pub get_snapshot : ℕ → Exec (Option (List ℕ) × ℕ)
unfolding query
get_snapshot document = query λ s. snapshot_of (find_row_by_id document s)

abbrev pub snapshot_row : List ℕ → ℕ → ℕ → Document → Document
snapshot_row snapshot clock now d = record d {
  snapshot = some snapshot;
  snapshot_clock = clock;
  updated_at = now;
}

-- `DELETE FROM document_updates WHERE document_id = $1 AND clock <= $2`
abbrev pub without_updates : ℕ → ℕ → Store → Store
without_updates document clock s = record s {
  document_updates =
      delete_rows (λ u. u.document_id == document && leb u.clock clock) s.document_updates;
}

unfoldable pub set_snapshot : ℕ → List ℕ → ℕ → Store → Result (Unit {0}) × Store
set_snapshot id snapshot clock s =
    if leb clock max_integer
    then (ok tt, with_document id (snapshot_row snapshot clock s.now) s)
    else (err driver, s)

unfoldable pub update_snapshot : ℕ → List ℕ → ℕ → Exec (Unit {0})
unfolding execute set_snapshot transaction
update_snapshot document snapshot clock = transaction do
  execute (set_snapshot document snapshot clock)
  execute (λ s. (ok tt, without_updates document clock s))
