-- ===== src/Service/Documents/Compaction.antt =====
-- CompactSnapshot in internal/services/documents.go, when an update has been stored since the clock
-- that it is given.
use mathlib.Core.Path.{subst}
use docflow_core.Prelude.{
  sym, ◌∙◌, ℕ, ◌+◌, ◌≡◌, refl, ap, true, ◌==◌, ◌&&◌, some, List, [], ◌∷◌, find_row, update_rows,
  delete_rows, exists_row, leb, arith,
}
use docflow_core.Model.{Error, Document, DocumentUpdate}
use docflow_core.Model.Store.{err, Result, World, Store, BoardEvent, ok}
use docflow_core.Exec.Ensures.{
  Outcome, Ensures, Wrote, Ensures-transaction, Ensures-execute_bind, Ensures-execute,
}
use docflow_core.Repo
use docflow_core.Service.Documents.Clocks.{increment_clock-Ensures}
use docflow_core.Service.Documents.Clocks.{Incremented}
use docflow_core.Repo.Documents.{
  has_document_id, find_row_by_id, has_clock, with_document, snapshot_row, without_updates,
  set_snapshot,
}
use docflow_core.Service.Documents.{persist_update, compact_snapshot}

-- The tables with the snapshot, and without the updates that it covers
abbrev pub compacted : ℕ → List ℕ → ℕ → Store → Store
compacted document snapshot clock s =
    without_updates document clock (with_document document (snapshot_row snapshot clock s.now) s)

set_snapshot_ok :
    (id : ℕ) (snapshot : List ℕ) (clock : ℕ) (s : Store) (a : Unit {0})
    → (set_snapshot id snapshot clock s).0 ≡ ok a
    → (set_snapshot id snapshot clock s).1 ≡ with_document id (snapshot_row snapshot clock s.now) s
unfolding set_snapshot
set_snapshot_ok id snapshot clock s a h = ground arith

pub compact-Ensures :
    (s : Store) (es : List BoardEvent) (document : ℕ) (snapshot : List ℕ) (clock : ℕ)
    → Ensures
        (Outcome s es (Wrote (compacted document snapshot clock s) (λ _. Unit {0}) es))
        s
        es
        (compact_snapshot document snapshot clock)
unfolding compact_snapshot Repo.Documents.update_snapshot
compact-Ensures s es document snapshot clock =
    Ensures-transaction (Wrote (compacted document snapshot clock s) (λ _. Unit {0}) es) s es _ (
      Ensures-execute_bind _ s es _ _ refl (λ e h. refl)
        λ a h. Ensures-execute _ _ es _ refl (
          (
            tt,
            ap (without_updates document clock) (set_snapshot_ok document snapshot clock s a h),
            refl,
          ),
          refl,
        ))

newer_stays :
    (document clock : ℕ) (us : List DocumentUpdate)
    → exists_row (has_clock document (clock + 1)) us ≡ true
    → exists_row
        (has_clock document (clock + 1))
        (delete_rows (λ u. u.document_id == document && leb u.clock clock) us)
      ≡ true
newer_stays document clock [] h = absurd (cc)
newer_stays document clock (u ∷ us) h = ground (arith, newer_stays document clock us)

find-snapshot :
    (id : ℕ) (snapshot : List ℕ) (clock now : ℕ) (ds : List Document) (d : Document)
    → find_row
        (has_document_id id)
        (update_rows (has_document_id id) (snapshot_row snapshot clock now) ds)
      ≡ some d
    → d.snapshot_clock ≡ clock
find-snapshot id snapshot clock now [] d h = absurd (cc)
find-snapshot id snapshot clock now (x ∷ ds) d h =
    ground (arith, find-snapshot id snapshot clock now ds d)

Fails : World → Result ℕ × World → Type 0
Fails v (r, x) = ((e : Error) × (r ≡ err e)) × (x.db ≡ v.db)

refused :
    (document clock : ℕ) (bytes : List ℕ) (v : World) (r : Result ℕ) (x : World)
    → ((d : Document) → find_row_by_id document v.db ≡ some d → d.snapshot_clock ≡ clock)
    → exists_row (has_clock document (clock + 1)) v.db.document_updates ≡ true
    → Outcome v.db v.events (Incremented v.db v.events document bytes) r x.db x.events
    → Fails v (r, x)
unfolding Fails
refused document clock bytes v (err e) x reset newer done = ((e, refl), done.0)
refused document clock bytes v (ok c) x reset newer (d, here, next, _, fresh, _, _) =
    let same : c ≡ clock + 1 = next ∙ ap (λ n. n + 1) (reset d here) in
    absurd (ground (arith, newer, fresh, same))

Wrote-of_ok :
    (s t t' : Store) (es es' : List BoardEvent) (r : Result (Unit {0}))
    → r ≡ ok tt
    → Outcome s es (Wrote t (λ _. Unit {0}) es) r t' es'
    → t' ≡ t
Wrote-of_ok s t t' es es' (ok a) e h = h.1
Wrote-of_ok s t t' es es' (err a) e h = absurd (cc)

-- When CompactSnapshot succeeds with a clock whose successor a stored update of the document
-- already has, PersistUpdate fails for the document from then on: it returns an error, and leaves
-- the tables as they are, so that it fails again.
pub stale_compaction :
    (document clock : ℕ) (snapshot bytes : List ℕ) (w v : World)
    → exists_row (has_clock document (clock + 1)) w.db.document_updates ≡ true
    → compact_snapshot document snapshot clock w ≡ (ok tt, v)
    → ((e : Error) × ((persist_update document bytes v).0 ≡ err e))
      × ((persist_update document bytes v).1.db ≡ v.db)
unfolding persist_update Fails
stale_compaction document clock snapshot bytes w v newer done =
    let t = compacted document snapshot clock w.db in
    let same : v.db ≡ t =
      ap (λ x. x.1.db) (sym done)
      ∙ Wrote-of_ok w.db t _ w.events _ _ (ap (λ x. x.0) done)
          ((compact-Ensures w.db w.events document snapshot clock).at w refl refl) in
    refused document clock bytes v (persist_update document bytes v).0
      (persist_update document bytes v).1
      (λ d here.
        find-snapshot document snapshot clock w.db.now w.db.documents d
          (subst (λ x. find_row_by_id document x ≡ some d) same here))
      (subst (λ x. exists_row (has_clock document (clock + 1)) x.document_updates ≡ true) (sym same)
        (newer_stays document clock w.db.document_updates newer))
      ((increment_clock-Ensures v.db v.events document bytes).at v refl refl)
