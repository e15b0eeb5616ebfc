-- ===== src/Service/Content/Serves/Columns.antt =====
-- internal/services/columns.go, request by request.
use mathlib.Core.List.{append-nil, append_assoc}
use mathlib.Core.Path.{subst, subst₂}
use docflow_core.Prelude.{
  ℕ, ◌≡◌, refl, sym, ap, ◌∙◌, ◌++◌, String, Option, none, some, List, [], ◌∷◌,
}
use docflow_core.Position.{Position, add_thousand}
use docflow_core.Model.{Role, Column}
use docflow_core.Model.Error.{not_found}
use docflow_core.Model.Store.{Store, BoardEvent, Payload}
use docflow_core.Model.Store.{ok}
use docflow_core.Repo.Columns
use docflow_core.Service.Access.{check_access}
use docflow_core.Repo.Columns.{find_column}
use docflow_core.Exec.{broadcast, Exec, missing_as, pure, ◌>>=◌}
use docflow_core.Exec.Reads.{Reads-missing_as}
use docflow_core.Exec.Ensures.{Post, Ensures, Ensures-pure, Outcome-missing_as}
use docflow_core.Repo.Columns.{column_row, with_new_column}
use docflow_core.Repo.Columns.Effects.{
  find_by_id-Reads, get_max_position-Reads, create-Wrote, update-Wrote, delete-Wrote,
}
use docflow_core.Service.Access.Sight.{CanSee, check_access-Reads}
use docflow_core.Service.Columns.{tell_change, column_to_response}
use docflow_core.Service
use docflow_core.Service.Content.Request.{Request, perform}
use docflow_core.Service.Content.Rules.{Served, Left, events_for, change_told}
use docflow_core.Service.Content.Serving.{
  tell_last, tell_then, ToldOrLeft, step_read, step_write, step_discard,
}

event : ℕ → Payload → BoardEvent
event board p = record { board_id = board; payload = p }

tell_change-Ensures :
    {A : Type 0} (P : Post A) (t : Store) (es : List BoardEvent) (board id : ℕ)
    (title : Option String) (position : Option Position) (a : A)
    → P (ok a) t (es ++ events_for board (change_told id title position))
    → Ensures P t es (tell_change board id title position >>= λ _. pure a)
unfolding tell_change broadcast event
tell_change-Ensures P t es board id (some title) (some position) a h =
    let x = event board (Payload.column_renamed id title) in
    let y = event board (Payload.column_reordered id position) in
    record {
      at = λ w e q.
          subst₂ (P (ok a)) (sym e)
            (ap (λ z. z ++ (x ∷ y ∷ [])) (sym q) ∙ sym (append_assoc w.events (x ∷ []) (y ∷ []))) h;
    }
tell_change-Ensures P t es board id (some title) none a h = tell_then P t es board _ a h
tell_change-Ensures P t es board id none (some position) a h = tell_then P t es board _ a h
tell_change-Ensures P t es board id none none a h =
    Ensures-pure P t es a (subst (P (ok a) t) (append-nil es) h)

module _ (user : ℕ) (role : Role) (s : Store) (es : List BoardEvent) where
  -- Run on the database s, the request is served, or it fails, leaving little and telling nothing.
  abbrev pub Serves : Request → Type 0
  Serves r = Ensures (ToldOrLeft (Served user role r s es) (Left r s) es) s es (perform user role r)

  -- The column is found, and its board can be seen.
  pub column_first :
      {A : Type 0} (r : Request) (id : ℕ) (next : Column → Exec A)
      → Left r s s
      → ((k : Column)
          → find_column id s ≡ some k
          → CanSee s k.board_id user role
          → Ensures (ToldOrLeft (Served user role r s es) (Left r s) es) s es (next k))
      → Ensures (ToldOrLeft (Served user role r s es) (Left r s) es) s es (
          missing_as not_found (Columns.find_by_id id) >>= λ k.
          check_access k.board_id user role >>= λ _. next k)
  column_first r id next l h =
      step_read _ _ es s _ _ _ (Reads-missing_as _ not_found _ (find_by_id-Reads id)) l λ k here.
        step_read _ _ es s _ _ _ (check_access-Reads k.board_id user role) l λ _ seen. h k here seen

  pub create_column-Serves :
      (board : ℕ) (title : String) → Serves (Request.create_column board title)
  unfolding perform Service.Columns.create_column
  create_column-Serves board title =
      let r = Request.create_column board title in
      let P = Served user role r s es in
      step_discard P (Left r s) es s _ (
        step_read P (Left r s) es s _ _ _ (check_access-Reads board user role) refl λ _ seen.
          step_read P (Left r s) es s _ _ _ (get_max_position-Reads board) refl λ max e.
            step_write P (Left r s) es s _ _ _ _ (create-Wrote s es board title (add_thousand max))
              refl
              λ k new. tell_then _ _ es board _ k (record {
                board = board;
                about = refl;
                seen = seen;
                payloads = Payload.column_created (column_to_response k) ∷ [];
                effect = ap (λ m. with_new_column (column_row board title (add_thousand m) s) s) e;
                told =
                    ap (λ x. Payload.column_created (column_to_response x) ∷ [])
                      (new ∙ ap (λ m. column_row board title (add_thousand m) s) e);
                sent = refl;
              }))

  pub delete_column-Serves : (id : ℕ) → Serves (Request.delete_column id)
  unfolding perform Service.Columns.delete_column
  delete_column-Serves id = column_first (Request.delete_column id) id _ refl λ k here seen.
      step_write _ _ es s _ _ _ _ (Outcome-missing_as _ s es not_found _ (delete-Wrote s es id))
        refl
        λ _ _. tell_last _ _ es k.board_id _ (record {
          board = k.board_id;
          about = (k, here, refl);
          seen = seen;
          payloads = Payload.column_deleted id ∷ [];
          effect = refl;
          told = refl;
          sent = refl;
        })

  pub update_column-Serves :
      (id : ℕ) (title : Option String) (position : Option Position)
      → Serves (Request.update_column id title position)
  unfolding perform Service.Columns.update_column
  update_column-Serves id title position =
      let r = Request.update_column id title position in
      step_discard (Served user role r s es) (Left r s) es s _ (
        column_first r id _ refl λ k here seen.
          step_write _ _ es s _ _ _ _
            (Outcome-missing_as _ s es not_found _ (update-Wrote s es id title position)) refl
            λ k' _. tell_change-Ensures _ _ es k.board_id id title position k' (record {
              board = k.board_id;
              about = (k, here, refl);
              seen = seen;
              payloads = change_told id title position;
              effect = refl;
              told = refl;
              sent = refl;
            }))
