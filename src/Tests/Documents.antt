-- ===== src/Tests/Documents.antt =====
-- A document that two updates have been persisted for.
use docflow_core.Prelude.{ℕ, ◌≡◌, refl, none, List, [], ◌∷◌, map}
use docflow_core.Model.{DocumentUpdate, Error}
use docflow_core.Model.Store.{World, err}
use docflow_core.Service.Documents.{persist_update, compact_snapshot, get_updates_since_clock}
use docflow_core.Service.Documents.CatchUp.{persist_all, catch_up}
use docflow_core.Service.Documents.Compaction.{stale_compaction}
use docflow_core.Tests.Content.{full}

abbrev edits : List (List ℕ)
edits = (0 ∷ 2 ∷ 7 ∷ []) ∷ (0 ∷ 2 ∷ 8 ∷ []) ∷ []

abbrev edited : World
edited = (persist_all 40 edits full).1

abbrev sent : List DocumentUpdate
sent =
    record { document_id = 40; update_data = 0 ∷ 2 ∷ 7 ∷ []; clock = 1; created_at = 5 }
    ∷ record { document_id = 40; update_data = 0 ∷ 2 ∷ 8 ∷ []; clock = 2; created_at = 5 }
    ∷ []

catch_up_example : map (λ u. u.update_data) sent ≡ edits
unfolding persist_all get_updates_since_clock
catch_up_example =
    catch_up 40 edits full edited (get_updates_since_clock 40 0 edited).1
      (record { id = 40; card_id = 30; snapshot = none; snapshot_clock = 0; updated_at = 0 }) sent
      refl tt refl refl

-- The snapshot is merged from the first update, and the second is stored before it is written.
abbrev merged : World
merged = (compact_snapshot 40 (9 ∷ []) 1 edited).1

stale_compaction_example :
    ((e : Error) × ((persist_update 40 (0 ∷ 2 ∷ 9 ∷ []) merged).0 ≡ err e))
    × ((persist_update 40 (0 ∷ 2 ∷ 9 ∷ []) merged).1.db ≡ merged.db)
unfolding persist_all compact_snapshot
stale_compaction_example = stale_compaction 40 1 (9 ∷ []) (0 ∷ 2 ∷ 9 ∷ []) edited merged refl refl
