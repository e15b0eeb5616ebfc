-- ===== src/Service/Documents/CatchUp.antt =====
-- PersistUpdate and GetUpdatesSinceClock in internal/services/documents.go: what a client is sent
-- that has seen the updates up to some clock.
use docflow_core.Exec.Reads.{Reads-query, Reads}
use docflow_core.Prelude.{
  ltb, ◌&&◌, ◌==◌, Every, ℕ, ◌≤◌, ◌<◌, ◌≡◌, refl, sym, ap, ◌∙◌, Bool, true, some, List, [], ◌∷◌,
  ◌++◌, map, select, find_row, update_rows, insert_row, arith,
}
use mathlib.Core.Path.{subst₂, subst}
use mathlib.Core.List.{append_assoc, append-nil, map-append}
use docflow_core.Position.{of_ℕ}
use docflow_core.Position.Rows.{order_by, insert_in_order}
use docflow_core.Model.{Document, DocumentUpdate}
use docflow_core.Model.Store.{err, Result, ok, World, Store, BoardEvent}
use docflow_core.Exec.{and_then, Exec, pure, ◌>>=◌}
use docflow_core.Repo.Documents.{
  has_document_id, find_row_by_id, updates_since, update_row, clock_row,
}
use docflow_core.Service.Documents.{persist_update, get_updates_since_clock}
use docflow_core.Exec.Ensures.{Outcome}
use docflow_core.Repo
use docflow_core.Service.Documents.Clocks.{increment_clock-Ensures, Incremented, appended}

-- The updates, stored one after the other
unfoldable pub persist_all : ℕ → List (List ℕ) → Exec (Unit {0})
unfolding persist_update
persist_all document [] = pure tt
persist_all document (u ∷ us) = persist_update document u >>= λ _. persist_all document us

-- The clocks rise from above lo to hi at most.
abbrev pub Rising : ℕ → List DocumentUpdate → ℕ → Type 0
Rising lo [] hi = lo ≤ hi
Rising lo (u ∷ us) hi = (lo < u.clock) × Rising u.clock us hi

Rising-snoc :
    (lo : ℕ) (us : List DocumentUpdate) (hi : ℕ) (u : DocumentUpdate)
    → Rising lo us hi
    → hi < u.clock
    → Rising lo (us ++ (u ∷ [])) u.clock
Rising-snoc lo [] hi u h k = (omega (arith, h, k), omega arith)
Rising-snoc lo (x ∷ us) hi u (h, hs) k = (h, Rising-snoc x.clock us hi u hs k)

abbrev in_order : List DocumentUpdate → List DocumentUpdate
in_order = order_by (λ u. of_ℕ u.clock)

in_order-Rising : (lo : ℕ) (us : List DocumentUpdate) (hi : ℕ) → Rising lo us hi → in_order us ≡ us
in_order-Rising lo [] hi h = refl
in_order-Rising lo (x ∷ us) hi (h, hs) =
    ap (insert_in_order (λ u. of_ℕ u.clock) x) (in_order-Rising x.clock us hi hs) ∙ first us hs
  where
    first :
        (ys : List DocumentUpdate)
        → Rising x.clock ys hi
        → insert_in_order (λ u. of_ℕ u.clock) x ys ≡ x ∷ ys
    first [] k = refl
    first (y ∷ ys) k = ground (arith, k.0)

select-snoc :
    {A : Type 0} (p : A → Bool) (xs : List A) (x : A)
    → p x ≡ true
    → select p (insert_row x xs) ≡ select p xs ++ (x ∷ [])
select-snoc p [] x h = ground arith
select-snoc p (y ∷ xs) x h = ground (arith, select-snoc p xs x h)

find-clock :
    (id : ℕ) (clock now : ℕ) (ds : List Document) (d : Document)
    → find_row (has_document_id id) ds ≡ some d
    → find_row (has_document_id id) (update_rows (has_document_id id) (clock_row clock now) ds)
      ≡ some (clock_row clock now d)
find-clock id clock now [] d h = absurd (cc)
find-clock id clock now (x ∷ ds) d h = ground (arith, find-clock id clock now ds d)

-- The document has the clock hi, and since lo it has got the updates with these bytes.
pub record Since (document lo : ℕ) (s : Store) (bytes : List (List ℕ)) : Type 0 where
  pub row : Document
  pub here : find_row_by_id document s ≡ some row
  pub rising : Rising lo (updates_since document lo s) row.snapshot_clock
  pub held : map (λ u. u.update_data) (updates_since document lo s) ≡ bytes

Rising-le : (lo : ℕ) (us : List DocumentUpdate) (hi : ℕ) → Rising lo us hi → lo ≤ hi
Rising-le lo [] hi h = h
Rising-le lo (u ∷ us) hi (h, hs) = omega (arith, h, Rising-le u.clock us hi hs)

Since-appended :
    (document lo : ℕ) (s t : Store) (es es' : List BoardEvent) (before : List (List ℕ))
    (bytes : List ℕ) (clock : ℕ)
    → Since document lo s before
    → Incremented s es document bytes clock t es'
    → Since document lo t (before ++ (bytes ∷ []))
Since-appended document lo s t es es' before bytes clock since (d, found_d, next, _, _, same, _) =
    subst (λ x. Since document lo x (before ++ (bytes ∷ []))) (sym same)
      (record {
        row = clock_row clock s.now d;
        here = find-clock document clock s.now s.documents d found_d;
        rising =
            subst (λ us. Rising lo us clock) (sym longer)
              (Rising-snoc lo (updates_since document lo s) since.row.snapshot_clock u since.rising
                above);
        held =
            ap (map (λ x. x.update_data)) longer
            ∙ map-append (λ x. x.update_data) (updates_since document lo s) (u ∷ [])
            ∙ ap (λ x. x ++ (bytes ∷ [])) since.held;
      })
  where
    u : DocumentUpdate
    u = update_row document bytes clock s

    same_row : since.row ≡ d
    same_row = cc

    above : since.row.snapshot_clock < clock
    above = omega (arith, next, ap (λ x. x.snapshot_clock) same_row)

    longer :
        updates_since document lo (appended document bytes clock s)
        ≡ updates_since document lo s ++ (u ∷ [])
    longer = select-snoc _ s.document_updates u (
        ground (
          arith,
          above,
          Rising-le lo (updates_since document lo s) since.row.snapshot_clock since.rising,
        ))

Since-go :
    (document lo : ℕ) (before us : List (List ℕ)) (u : List ℕ) (w v : World)
    → Since document lo w.db before
    → ((x : World) (sofar : List (List ℕ))
        → Since document lo x.db sofar
        → persist_all document us x ≡ (ok tt, v)
        → Since document lo v.db (sofar ++ us))
    → (r : Result ℕ) (x : World)
    → Outcome w.db w.events (Incremented w.db w.events document u) r x.db x.events
    → and_then (r, x) (λ _. persist_all document us) ≡ (ok tt, v)
    → Since document lo v.db (before ++ (u ∷ us))
Since-go document lo before us u w v since next (ok clock) x done e =
    subst (Since document lo v.db) (append_assoc before (u ∷ []) us) (
      next x (before ++ (u ∷ []))
        (Since-appended document lo w.db x.db w.events x.events before u clock since done) e)
Since-go document lo before us u w v since next (err y) x done e = absurd (cc)

Since-persist_all :
    (document lo : ℕ) (us : List (List ℕ)) (w v : World) (before : List (List ℕ))
    → Since document lo w.db before
    → persist_all document us w ≡ (ok tt, v)
    → Since document lo v.db (before ++ us)
unfolding persist_all persist_update
Since-persist_all document lo [] w v before since e =
    subst₂ (λ x y. Since document lo x y) (ap (λ x. x.1.db) e) (sym (append-nil before)) since
Since-persist_all document lo (u ∷ us) w v before since e =
    Since-go document lo before us u w v since
      (λ x sofar s. Since-persist_all document lo us x v sofar s) (persist_update document u w).0
      (persist_update document u w).1
      ((increment_clock-Ensures w.db w.events document u).at w refl refl) e

-- No update of the document is newer than its clock.
abbrev pub IsCurrent : ℕ → Document → Store → Type 0
IsCurrent document d s =
    Every (λ u. u.document_id ≡ document → u.clock ≤ d.snapshot_clock) s.document_updates

none_since :
    (document lo : ℕ) (us : List DocumentUpdate)
    → Every (λ u. u.document_id ≡ document → u.clock ≤ lo) us
    → select (λ u. u.document_id == document && ltb lo u.clock) us ≡ []
none_since document lo [] h = refl
none_since document lo (u ∷ us) (h, hs) = ground (arith, h, none_since document lo us hs)

Since-now :
    (document : ℕ) (s : Store) (d : Document)
    → find_row_by_id document s ≡ some d
    → IsCurrent document d s
    → Since document d.snapshot_clock s []
Since-now document s d h current = record {
  row = d;
  here = h;
  rising = rw nothing (omega arith);
  held = ap (map (λ u. u.update_data)) nothing;
}
  where
    nothing : updates_since document d.snapshot_clock s ≡ []
    nothing = none_since document d.snapshot_clock s.document_updates current

updates-Reads :
    (document clock : ℕ)
    → Reads
        (λ s us. ok (in_order (updates_since document clock s)) ≡ ok us)
        (get_updates_since_clock document clock)
unfolding get_updates_since_clock Repo.Documents.get_updates_since_clock
updates-Reads document clock = Reads-query (λ s. ok (in_order (updates_since document clock s)))

-- When no stored update of a document is newer than the document's clock, and updates are then
-- persisted one after the other without an error, a client that asks for the updates since that
-- clock is answered with exactly these updates, in the order in which they were persisted.
pub catch_up :
    (document : ℕ) (bytes : List (List ℕ)) (w v x : World) (d : Document) (us : List DocumentUpdate)
    → find_row_by_id document w.db ≡ some d
    → IsCurrent document d w.db
    → persist_all document bytes w ≡ (ok tt, v)
    → get_updates_since_clock document d.snapshot_clock v ≡ (ok us, x)
    → map (λ u. u.update_data) us ≡ bytes
catch_up document bytes w v x d us here current stored asked =
    let since =
      Since-persist_all document d.snapshot_clock bytes w v []
        (Since-now document w.db d here current) stored in
    let rows = updates_since document d.snapshot_clock v.db in
    let got : in_order rows ≡ us =
      answer _ us ((updates-Reads document d.snapshot_clock).reads v us (ap (λ y. y.0) asked)) in
    ap (map (λ u. u.update_data))
      (sym got ∙ in_order-Rising d.snapshot_clock rows since.row.snapshot_clock since.rising)
    ∙ since.held
  where
    answer : (a b : List DocumentUpdate) → ok a ≡ ok b → a ≡ b
    answer a b e = cc
