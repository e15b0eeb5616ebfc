-- ===== src/Service/Content/Serves/Moves.antt =====
-- MoveCard in internal/services/cards.go: the place for the card, and the move.
use docflow_core.Prelude.{
  none, ℕ, ◌≡◌, refl, sym, ap, ◌∙◌, ◌⊎◌, inl, inr, Bool, true, false, ◌==◌, not, some, List, [],
  ◌∷◌, if◌then◌else◌, arith,
}
use mathlib.Core.Path.{subst₂}
use docflow_core.Position.{Position, needs_rebalance, between}
use docflow_core.Model.{Role, Card, Column}
use docflow_core.Model.Error.{not_found, insufficient_permissions}
use docflow_core.Model.Store.{Store, BoardEvent, Payload, ok, err}
use docflow_core.Service.Access.Sight.{CanSee}
use docflow_core.Repo.Columns.{find_column}
use docflow_core.Exec.{broadcast, pure, ◌>>=◌}
use docflow_core.Exec.Reads.{Reads-missing_as}
use docflow_core.Exec.Ensures.{
  Post, Outcome, Wrote, Ensures, Ensures-pure, Ensures-if, Ensures-raise, Ensures-bind,
  Ensures-Reads,
}
use docflow_core.Repo.Cards
use docflow_core.Repo.Columns.Effects
use docflow_core.Repo.Cards.{find_card, position_below, position_above}
use docflow_core.Repo.Cards.Reading.{
  find_by_id-Reads, get_neighbor_positions-Reads, get_document_id-Reads,
}
use docflow_core.Repo.Cards.Writing.{moved, rebalanced, move-Wrote, rebalance_column-Wrote}
use docflow_core.Service
use docflow_core.Service.Cards.{card_to_response, final_position}
use docflow_core.Service.Content.Request.{Request, perform}
use docflow_core.Service.Content.Rules.{Served, Left, made_room, landing}
use docflow_core.Service.Content.Serving.{
  ToldOrLeft, step_read, step_write, step_discard, tell_then,
}
use docflow_core.Service.Content.Serves.Columns.{Serves}
use docflow_core.Service.Content.Serves.Cards.{card_first}

module _ (column : ℕ) (ref : Position) (s : Store) (es : List BoardEvent) where
  -- The column may have been rebalanced, and the place is in the gap that it has then.
  abbrev Placed : Post Position
  Placed (ok p) t es' =
      (t ≡ made_room column ref s) × (p ≡ landing column ref (made_room column ref s)) × (es' ≡ es)
  Placed (err e) t es' = ((t ≡ s) ⊎ (t ≡ made_room column ref s)) × (es' ≡ es)

  room : Bool → Store
  room b = if b then rebalanced column s else s

  abbrev tight : Bool
  tight = needs_rebalance (position_below column ref s) (position_above column ref s)

  place_found :
      (t : Store) (p : Position × Position)
      → t ≡ made_room column ref s
      → (p.0 ≡ position_below column ref t) × (p.1 ≡ position_above column ref t)
      → Ensures Placed t es (pure (between p.0 p.1))
  place_found t p same (e, f) = Ensures-pure Placed t es _ (
    same,
    ap (λ x. between x p.1) e
        ∙ ap (between (position_below column ref t)) f
        ∙ ap (landing column ref) same,
    refl,
  )

  rebalanced_first :
      tight ≡ true
      → Ensures Placed s es (
          Cards.rebalance_column column >>= λ _.
          Cards.get_neighbor_positions column ref >>= λ p. pure (between p.0 p.1))
  unfolding room
  rebalanced_first e =
      let same : rebalanced column s ≡ made_room column ref s = ap room (sym e) in
      Ensures-bind Placed s es (Outcome s es (Wrote (rebalanced column s) (λ _. Unit {0}) es)) _ _
        (rebalance_column-Wrote s es column) (λ x u v q. (inl q.0, q.1))
        λ a u v q.
          subst₂
            (λ x y.
              Ensures Placed x y
                (Cards.get_neighbor_positions column ref >>= λ p. pure (between p.0 p.1)))
            (sym q.1) (sym q.2)
            (Ensures-Reads Placed (rebalanced column s) es _ _ _
              (get_neighbor_positions-Reads column ref) (λ x. (inr same, refl))
              (λ p h. place_found _ p same h))

  pub final_position-Ensures : Ensures Placed s es (final_position column ref)
  unfolding final_position room
  final_position-Ensures =
      Ensures-Reads Placed s es _ _ _ (get_neighbor_positions-Reads column ref)
        (λ e. (inl refl, refl))
        λ p (e, f).
          Ensures-if Placed s es (needs_rebalance p.0 p.1) _ _
            (λ yes. rebalanced_first (now p e f ∙ yes))
            (λ no. place_found s p (ap room (sym (now p e f ∙ no))) (e, f))
    where
      now :
          (p : Position × Position)
          → p.0 ≡ position_below column ref s
          → p.1 ≡ position_above column ref s
          → tight ≡ needs_rebalance p.0 p.1
      now p e f =
          sym (
            ap (λ x. needs_rebalance x p.1) e
            ∙ ap (needs_rebalance (position_below column ref s)) f)

same_board : (a b : ℕ) → not (a == b) ≡ false → a ≡ b
same_board a b h = ground arith

module _ (user : ℕ) (role : Role) (s : Store) (es : List BoardEvent) where
  placed :
      (id column : ℕ) (ref : Position) (c : Card) (k : Column)
      → find_card id s ≡ some c
      → find_column column s ≡ some k
      → k.board_id ≡ c.board_id
      → CanSee s c.board_id user role
      → (final : Position) → final ≡ landing column ref (made_room column ref s)
      → let r = Request.move_card id column ref in
        Ensures (ToldOrLeft (Served user role r s es) (Left r s) es) (made_room column ref s) es (
          Cards.move id column final >>= λ _. Cards.get_document_id id >>= λ document.
          Cards.find_by_id id >>= λ card.
          broadcast c.board_id (Payload.card_moved id column final) >>= λ _.
          pure (card_to_response card document none))
  placed id column ref c k here target same seen final e =
      let room = made_room column ref s in
      let done = ap (λ p. moved id column p room) e in
      step_write _ _ es room (moved id column final room) _ _ _ (move-Wrote room es id column final)
        (inr (inl refl))
        λ _ _. step_read _ _ es _ _ _ _ (get_document_id-Reads id) (inr (inr done)) λ document _.
          step_read _ _ es _ _ _ _ (find_by_id-Reads id) (inr (inr done)) λ card _.
            tell_then _ _ es c.board_id _ _ (record {
              board = c.board_id;
              about = ((c, here, refl), (k, target, same));
              seen = seen;
              payloads = Payload.card_moved id column final ∷ [];
              effect = done;
              told = ap (λ p. Payload.card_moved id column p ∷ []) e;
              sent = refl;
            })

  pub move_card-Serves :
      (id column : ℕ) (ref : Position) → Serves user role s es (Request.move_card id column ref)
  unfolding perform Service.Cards.move_card
  move_card-Serves id column ref =
      let r = Request.move_card id column ref in
      let P = Served user role r s es in
      let room = made_room column ref s in
      step_discard P (Left r s) es s _ (
        card_first user role s es r id _ (inl refl) λ c here seen.
          step_read P (Left r s) es s _ _ _
            (Reads-missing_as _ not_found _ (Effects.find_by_id-Reads column)) (inl refl)
            λ k target.
              Ensures-if _ s es (not (k.board_id == c.board_id)) _ _
                (λ _. Ensures-raise _ s es insufficient_permissions (inl refl, refl))
                λ same.
                  Ensures-bind _ s es (Placed column ref s es) _ _
                    (final_position-Ensures column ref s es) (λ e t u q. (stays q.0, q.1))
                    λ final t u (e, f, g).
                      subst₂
                        (λ x y. Ensures (ToldOrLeft P (Left r s) es) x y (
                          Cards.move id column final >>= λ _.
                          Cards.get_document_id id >>= λ document. Cards.find_by_id id >>= λ card.
                          broadcast c.board_id (Payload.card_moved id column final) >>= λ _.
                          pure (card_to_response card document none)))
                        (sym e) (sym g)
                        (placed id column ref c k here target (same_board _ _ same) seen final f))
    where
      stays :
          {t : Store}
          → (t ≡ s) ⊎ (t ≡ made_room column ref s)
          → Left (Request.move_card id column ref) s t
      stays (inl e) = inl e
      stays (inr e) = inr (inl e)
