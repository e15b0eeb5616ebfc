-- ===== src/Service/Documents/Clocks.antt =====
-- internal/repositories/documents.go: what IncrementClock and UpdateSnapshot do to the clock of a
-- document and to its updates.
use docflow_core.Prelude.{
  ℕ, ◌+◌, ◌≤◌, ◌≡◌, refl, sym, false, some, List, exists_row, insert_row, arith,
}
use mathlib.Core.Path.{subst}
use docflow_core.Model.{Document}
use docflow_core.Model.Store.{Store, BoardEvent, ok}
use docflow_core.Exec.{execute, found, pure, ◌>>◌}
use docflow_core.Exec.Reads.{Reads-query, Reads-weaken}
use docflow_core.Exec.Ensures.{
  Body, Ensures, Outcome, Ensures-transaction, Ensures-Reads, Ensures-execute_bind, Ensures-pure,
}
use docflow_core.Repo.Boards.Lookups.{found_ok}
use docflow_core.Repo.Documents
use docflow_core.Repo.Documents.{
  find_row_by_id, max_integer, with_document, clock_row, has_clock, update_row, set_clock,
  insert_update, set_snapshot, snapshot_row, without_updates,
}

-- The tables with the document's clock set and the update under that clock
abbrev pub appended : ℕ → List ℕ → ℕ → Store → Store
appended document bytes clock s = record s {
  documents = (with_document document (clock_row clock s.now) s).documents;
  document_updates = insert_row (update_row document bytes clock s) s.document_updates;
}

-- The update has got the next clock, which no update of the document had.
abbrev pub Incremented : Store → List BoardEvent → ℕ → List ℕ → ℕ → Store → List BoardEvent → Type 0
Incremented s es document bytes clock t es' =
    (d : Document) × (find_row_by_id document s ≡ some d)
    × (clock ≡ d.snapshot_clock + 1)
    × (clock ≤ max_integer)
    × (exists_row (has_clock document clock) s.document_updates ≡ false)
    × (t ≡ appended document bytes clock s)
    × (es' ≡ es)

set_clock_ok :
    (id clock : ℕ) (s : Store) (a : Unit {0})
    → (set_clock id clock s).0 ≡ ok a
    → (clock ≤ max_integer)
      × ((set_clock id clock s).1 ≡ with_document id (clock_row clock s.now) s)
unfolding set_clock
set_clock_ok id clock s a h = ground arith

insert_update_ok :
    (id : ℕ) (bytes : List ℕ) (clock : ℕ) (s : Store) (a : Unit {0})
    → (insert_update id bytes clock s).0 ≡ ok a
    → (exists_row (has_clock id clock) s.document_updates ≡ false)
      × ((insert_update id bytes clock s).1 ≡ record s {
        document_updates = insert_row (update_row id bytes clock s) s.document_updates;
      })
unfolding insert_update
insert_update_ok id bytes clock s a h = ground arith

module _ (s : Store) (es : List BoardEvent) (document : ℕ) (bytes : List ℕ) where
  inserted :
      (d : Document) (clock : ℕ)
      → find_row_by_id document s ≡ some d
      → clock ≡ d.snapshot_clock + 1
      → clock ≤ max_integer
      → Ensures
          (Body es (Incremented s es document bytes))
          (with_document document (clock_row clock s.now) s)
          es
          (execute (insert_update document bytes clock) >> pure clock)
  inserted d clock here next low =
      let t = with_document document (clock_row clock s.now) s in
      Ensures-execute_bind _ t es _ _ refl (λ e h. refl)
        λ a h.
          let (fresh, same) = insert_update_ok document bytes clock t a h in
          Ensures-pure _ _ es clock ((d, here, next, low, fresh, same, refl), refl)

  pub increment_clock-Ensures :
      Ensures
        (Outcome s es (Incremented s es document bytes))
        s
        es
        (Documents.increment_clock document bytes)
  unfolding Documents.increment_clock
  increment_clock-Ensures = Ensures-transaction (Incremented s es document bytes) s es _ (
      Ensures-Reads _ s es _ _ _
        (Reads-weaken _ (λ t d. find_row_by_id document t ≡ some d) _
          (λ t d e. found_ok (find_row_by_id document t) d e)
          (Reads-query (λ t. found (find_row_by_id document t))))
        (λ e. refl)
        λ d here.
          Ensures-execute_bind _ s es _ _ refl (λ e h. refl)
            λ a h.
              let (low, same) = set_clock_ok document (d.snapshot_clock + 1) s a h in
              subst
                (λ t. Ensures (Body es (Incremented s es document bytes)) t es (
                  execute (insert_update document bytes (d.snapshot_clock + 1))
                  >> pure (d.snapshot_clock + 1)))
                (sym same) (inserted d (d.snapshot_clock + 1) here refl low))
