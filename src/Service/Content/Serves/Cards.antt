-- ===== src/Service/Content/Serves/Cards.antt =====
-- internal/services/cards.go without MoveCard, request by request.
use docflow_core.Prelude.{
  ℕ, ◌≡◌, refl, sym, ap, ◌∙◌, inl, inr, false, String, Option, none, some, List, [], ◌∷◌, suc,
}
use docflow_core.Position.{Position, add_thousand}
use docflow_core.Model.{Role, Card}
use docflow_core.Model.Error.{not_found}
use docflow_core.Model.Store.{Store, BoardEvent, Payload}
use docflow_core.Exec.{Exec, missing_as, ◌>>=◌}
use docflow_core.Exec.Reads.{Reads-missing_as}
use docflow_core.Exec.Ensures.{Ensures, Outcome-missing_as}
use docflow_core.Repo.Cards
use docflow_core.Repo.Cards.{
  card_row, find_card, find_document, with_card, update_card_row, archive_row, assignee_of,
  position_below, position_above,
}
use docflow_core.Repo.Cards.Reading.{
  find_by_id-Reads, get_max_position-Reads, get_document_id-Reads, get_assignee-Reads,
}
use docflow_core.Repo.Cards.Writing.{
  with_new_card, create_with_document-Wrote, update-Wrote, archive-Wrote, unarchive-Wrote,
  delete-Wrote,
}
use docflow_core.Service
use docflow_core.Service.Access.{check_access}
use docflow_core.Service.Access.Sight.{CanSee, check_access-Reads}
use docflow_core.Service.Cards.{card_to_response, final_position}
use docflow_core.Service.Content.Request.{Request, perform}
use docflow_core.Service.Content.Rules.{Served, Left}
use docflow_core.Service.Content.Serving.{
  ToldOrLeft, step_read, step_write, step_discard, tell_then, tell_last,
}
use docflow_core.Service.Content.Serves.Columns.{Serves, column_first}

module _ (user : ℕ) (role : Role) (s : Store) (es : List BoardEvent) where
  -- The card is found, and its board can be seen.
  pub card_first :
      {A : Type 0} (r : Request) (id : ℕ) (next : Card → Exec A)
      → Left r s s
      → ((c : Card)
          → find_card id s ≡ some c
          → CanSee s c.board_id user role
          → Ensures (ToldOrLeft (Served user role r s es) (Left r s) es) s es (next c))
      → Ensures (ToldOrLeft (Served user role r s es) (Left r s) es) s es (
          missing_as not_found (Cards.find_by_id id) >>= λ c.
          check_access c.board_id user role >>= λ _. next c)
  card_first r id next l h =
      step_read _ _ es s _ _ _ (Reads-missing_as _ not_found _ (find_by_id-Reads id)) l λ c here.
        step_read _ _ es s _ _ _ (check_access-Reads c.board_id user role) l λ _ seen. h c here seen

  pub create_card-Serves :
      (column : ℕ) (title : String) (color : Option String)
      → Serves user role s es (Request.create_card column title color)
  unfolding perform Service.Cards.create_card
  create_card-Serves column title color =
      let r = Request.create_card column title color in
      step_discard (Served user role r s es) (Left r s) es s _ (
        column_first user role s es r column _ refl λ k here seen.
          step_read _ _ es s _ _ _ (get_max_position-Reads column) refl λ max e.
            step_write _ _ es s _ _ _ _
              (create_with_document-Wrote s es k.board_id column title user (add_thousand max)
                color)
              refl
              λ (c, d) new.
                let row = λ (m : Position).
                  card_row k.board_id column title user (add_thousand m) color s in
                tell_then _ _ es k.board_id _ _ (record {
                  board = k.board_id;
                  about = (k, here, refl);
                  seen = seen;
                  payloads = Payload.card_created (card_to_response c d none) ∷ [];
                  effect = ap (λ m. with_new_card (row m) s) e;
                  told =
                      ap (λ x. Payload.card_created (card_to_response x.0 x.1 none) ∷ [])
                        (new ∙ ap (λ m. (row m, suc s.next_id)) e);
                  sent = refl;
                }))

  pub update_card-Serves :
      (id : ℕ) (title color : Option String) (assignee : Option ℕ)
      → Serves user role s es (Request.update_card id title color assignee)
  unfolding perform Service.Cards.update_card
  update_card-Serves id title color assignee =
      let r = Request.update_card id title color assignee in
      let t = with_card id (update_card_row title color assignee s.now) s in
      step_discard (Served user role r s es) (Left r s) es s _ (
        card_first r id _ (inl refl) λ c here seen.
          step_write _ _ es s t _ _ _
            (Outcome-missing_as _ s es not_found _ (update-Wrote s es id title color assignee))
            (inl refl)
            λ updated _.
              step_read _ _ es t _ _ _ (get_document_id-Reads id) (inr refl) λ document _.
                tell_then _ _ es c.board_id _ _ (record {
                  board = c.board_id;
                  about = (c, here, refl);
                  seen = seen;
                  payloads = Payload.card_updated id title color assignee ∷ [];
                  effect = refl;
                  told = refl;
                  sent = refl;
                }))

  pub archive_card-Serves : (id : ℕ) → Serves user role s es (Request.archive_card id)
  unfolding perform Service.Cards.archive_card
  archive_card-Serves id = card_first (Request.archive_card id) id _ refl λ c here seen.
      step_write _ _ es s _ _ _ _ (Outcome-missing_as _ s es not_found _ (archive-Wrote s es id))
        refl
        λ _ _. tell_last _ _ es c.board_id _ (record {
          board = c.board_id;
          about = (c, here, refl);
          seen = seen;
          payloads = Payload.card_archived id ∷ [];
          effect = refl;
          told = refl;
          sent = refl;
        })

  pub delete_card-Serves : (id : ℕ) → Serves user role s es (Request.delete_card id)
  unfolding perform Service.Cards.delete_card
  delete_card-Serves id = card_first (Request.delete_card id) id _ refl λ c here seen.
      step_write _ _ es s _ _ _ _ (Outcome-missing_as _ s es not_found _ (delete-Wrote s es id))
        refl
        λ _ _. tell_last _ _ es c.board_id _ (record {
          board = c.board_id;
          about = (c, here, refl);
          seen = seen;
          payloads = Payload.card_deleted id ∷ [];
          effect = refl;
          told = refl;
          sent = refl;
        })

  pub unarchive_card-Serves : (id : ℕ) → Serves user role s es (Request.unarchive_card id)
  unfolding perform Service.Cards.unarchive_card
  unarchive_card-Serves id =
      let t = with_card id (archive_row false s.now) s in
      card_first (Request.unarchive_card id) id _ (inl refl) λ c here seen.
        step_write _ _ es s t _ _ _
          (Outcome-missing_as _ s es not_found _ (unarchive-Wrote s es id)) (inl refl)
          λ _ _. step_read _ _ es t _ _ _ (find_by_id-Reads id) (inr refl) λ restored now.
            step_read _ _ es t _ _ _ (get_document_id-Reads id) (inr refl)
              λ document (d, has, same).
                step_read _ _ es t _ _ _ (get_assignee-Reads id) (inr refl) λ assignee e.
                  tell_last _ _ es c.board_id _ (record {
                    board = c.board_id;
                    about = (c, here, refl);
                    seen = seen;
                    payloads =
                        Payload.card_unarchived (card_to_response restored document assignee) ∷ [];
                    effect = refl;
                    told = (
                      restored,
                      d,
                      now,
                      has,
                      ap (λ x. Payload.card_unarchived (card_to_response restored x assignee) ∷ [])
                            (sym same)
                          ∙ ap
                              (λ x. Payload.card_unarchived (card_to_response restored d.id x) ∷ [])
                              e,
                    );
                    sent = refl;
                  })
