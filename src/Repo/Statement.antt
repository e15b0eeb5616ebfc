-- ===== src/Repo/Statement.antt =====
-- How the repositories read the outcome of a statement that writes.
pub mod Effects
use docflow_core.Prelude.{Bool, true, false, Option, none, some}
use docflow_core.Model.Error.{record_not_found}
use docflow_core.Model.Store.{Store, Result, ok, err}

-- `RowsAffected() == 0` is ErrNotFound. Here s is the database before and t the one after.
abbrev pub affected : Bool → Store → Store → Result (Unit {0}) × Store
affected true s t = (ok tt, t)
affected false s t = (err record_not_found, s)

-- `UPDATE … RETURNING` scanned into one row: the row f makes of the one that was found.
abbrev pub returning : {A : Type 0} → Option A → (A → A) → Store → Store → Result A × Store
returning none f s t = (err record_not_found, s)
returning (some a) f s t = (ok (f a), t)
