-- ===== src/Service/Documents.antt =====
-- internal/services/documents.go: DocumentService.
pub mod Clocks
pub mod CatchUp
pub mod Compaction
use docflow_core.Prelude.{
  ℕ, zero, suc, length, ◌%◌, String, Option, none, some, List, [], ◌∷◌, get_or,
}
use docflow_core.Model.{Role, Error, Document, DocumentUpdate, Card}
use docflow_core.Model.Error.{not_found}
use docflow_core.Model.Store.{World, Result, ok, err}
use docflow_core.Exec.{Exec, ◌>>=◌, ◌>>◌, pure, missing_as}
use docflow_core.Repo.Cards
use docflow_core.Repo.Documents
use docflow_core.Service.Access.{check_access}

abbrev pub cursor_colors : List String
cursor_colors =
    "#F87171" ∷ "#FB923C" ∷ "#FBBF24" ∷ "#34D399" ∷ "#38BDF8" ∷ "#818CF8" ∷ "#E879F9" ∷ "#A3E635"
    ∷ []

-- `xs[i]` in range
abbrev pub item : List String → ℕ → String
item [] i = ""
item (x ∷ xs) zero = x
item (x ∷ xs) (suc i) = item xs i

pub record DocumentToken : Type 0 where
  pub token : ℕ
  pub document_id : ℕ
  pub color : String
  pub expires_in : ℕ

-- The walk from the document to its card, and the access check
unfoldable pub open_document : ℕ → ℕ → Role → Exec Document
unfolding missing_as Documents.find_by_id Cards.find_by_id check_access
open_document document user role = do
  doc ← missing_as not_found (Documents.find_by_id document)
  card ← missing_as not_found (Cards.find_by_id doc.card_id)
  check_access card.board_id user role
  pure doc

-- IssueToken; `sign` is GenerateDocumentToken, of the user, the document and the color
unfoldable pub issue_token : (ℕ → ℕ → String → Exec ℕ) → ℕ → ℕ → Role → ℕ → Exec DocumentToken
unfolding open_document
issue_token sign document user role connected = do
  open_document document user role
  let color = item cursor_colors (connected % length cursor_colors)
  token ← sign user document color
  pure (record { token = token; document_id = document; color = color; expires_in = 3600 })

pub record DocumentSnapshot : Type 0 where
  pub document_id : ℕ
  pub snapshot : List ℕ
  pub clock : ℕ

-- GetSnapshot; the snapshot is the bytes that the answer carries in base64
unfoldable pub get_snapshot : ℕ → ℕ → Role → Exec DocumentSnapshot
unfolding open_document Documents.get_snapshot
get_snapshot document user role = do
  open_document document user role
  (snapshot, clock) ← Documents.get_snapshot document
  pure (record { document_id = document; snapshot = get_or snapshot []; clock = clock })

-- PersistUpdate
unfoldable pub persist_update : ℕ → List ℕ → Exec ℕ
unfolding Documents.increment_clock
persist_update document bytes = Documents.increment_clock document bytes

-- GetUpdatesSinceClock
unfoldable pub get_updates_since_clock : ℕ → ℕ → Exec (List DocumentUpdate)
unfolding Documents.get_updates_since_clock
get_updates_since_clock document clock = Documents.get_updates_since_clock document clock

-- CompactSnapshot
unfoldable pub compact_snapshot : ℕ → List ℕ → ℕ → Exec (Unit {0})
unfolding Documents.update_snapshot
compact_snapshot document snapshot clock = Documents.update_snapshot document snapshot clock
