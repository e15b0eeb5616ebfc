-- ===== src/Handler/Boards/Safety.antt =====
-- What the routes of /boards/:id can do to the tables.
use docflow_core.Prelude.{ℕ, ◌≡◌, refl, Bool, true, false, List}
use docflow_core.Model.{Error}
use docflow_core.Model.Error.{validation_error}
use docflow_core.Model.Store.{Store, World, BoardEvent}
use docflow_core.Exec.{require}
use docflow_core.Exec.Reads.{Reads}
use docflow_core.Exec.Ensures.{Outcome, Ensures, Ensures-Reads, Outcome-weaken}
use docflow_core.Middleware.Board.{IsCaller, board-Reads}
use docflow_core.Service.Boards.Request.{Request, Caller}
use docflow_core.Service.Boards.Rights.{Granted}
use docflow_core.Service.Boards.Refines.{perform-Serves}
use docflow_core.Handler.Boards.{binds, handle}

require-Reads : (b : Bool) (e : Error) → Reads (λ _ _. b ≡ true) (require b e)
require-Reads true e = record {
  same_db = λ w. refl;
  same_events = λ w. refl;
  reads = λ w a h. refl;
}
require-Reads false e = record { same_db = λ w. refl; same_events = λ w. refl; reads = λ w a h. cc }

-- A request that was granted to the user, with the roles that the tables gave at the time.
abbrev pub Handled :
    ℕ → ℕ → Request → Store → List BoardEvent → Unit {0} → Store → List BoardEvent → Type 0
Handled id user r s es _ t es' =
    (c : Caller) × IsCaller id user s c × (binds r ≡ true) × Granted id c r s t × (es' ≡ es)

handle-Ensures :
    (id user : ℕ) (r : Request) (s : Store) (es : List BoardEvent)
    → Ensures (Outcome s es (Handled id user r s es)) s es (handle id user r)
unfolding handle
handle-Ensures id user r s es =
    Ensures-Reads _ s es _ _ _ (board-Reads id user) (λ e. (refl, refl))
      λ c is_caller.
        Ensures-Reads _ s es _ _ _ (require-Reads (binds r) validation_error) (λ e. (refl, refl))
          λ _ bound.
            Outcome-weaken s es _ _ _ (λ _ t u done. (c, is_caller, bound, done.0, done.1))
              (perform-Serves id c s es r)

-- A request on a board either succeeds, and then the caller is a member of the board's workspace,
-- can see the board, holds the roles that the request takes, and exactly the change that the
-- request stands for is made; or it is answered by an error and the database is as before. This
-- holds whichever calls of the database driver fail. No event is sent in either case.
pub handle_refines :
    (id user : ℕ) (r : Request) (w : World)
    → Outcome w.db w.events
        (Handled id user r w.db w.events)
        (handle id user r w).0
        (handle id user r w).1.db
        (handle id user r w).1.events
handle_refines id user r w = (handle-Ensures id user r w.db w.events).at w refl refl
