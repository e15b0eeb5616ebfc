-- ===== src/Repo/Cards/Writing.antt =====
-- What the writing methods of the card repository do.
use docflow_core.Prelude.{
  ap, ℕ, suc, ◌+◌, ◌*◌, ◌≡◌, refl, String, true, false, Option, List, [], ◌∷◌, map, insert_row,
}
use docflow_core.Position.{Position, of_ℕ}
use docflow_core.Model.{Card}
use docflow_core.Model.Store.{Store, BoardEvent, ok}
use docflow_core.Exec.Reads.{Reads-query}
use docflow_core.Exec.Ensures.{
  Body, Ensures, Outcome, Outcome-affected, Wrote, Ensures-transaction, Ensures-execute_bind,
  Ensures-Reads, Ensures-pure,
}
use docflow_core.Repo.Cascade
use docflow_core.Repo.Cards
use docflow_core.Repo.Cards.{
  card_row, document_row, find_card, has_card_id, with_card, update_card_row, move_row, archive_row,
  place_row, live_cards, insert_card, insert_document, reassign,
}
use docflow_core.Repo.Statement.Effects.{affected-Wrote, returning-Wrote}

abbrev pub with_new_card : Card → Store → Store
with_new_card c s = record s {
  cards = insert_row c s.cards;
  documents = insert_row (document_row c.id (record s { next_id = suc s.next_id })) s.documents;
  next_id = suc (suc s.next_id);
}

abbrev pub moved : ℕ → ℕ → Position → Store → Store
moved id column position s = with_card id (move_row column position s.now) s

-- The cards named are placed at 1000, 2000 and so on, from the i-th on.
abbrev pub placed : ℕ → List ℕ → Store → Store
placed i [] s = s
placed i (id ∷ ids) s =
    placed (i + 1) ids (with_card id (place_row (of_ℕ ((i + 1) * 1000)) s.now) s)

abbrev pub rebalanced : ℕ → Store → Store
rebalanced column s = placed 0 (map (λ c. c.id) (live_cards column s)) s

reassign-Ensures :
    (es : List BoardEvent) (t : Store) (ids : List ℕ) (i : ℕ) (s : Store)
    → placed i ids s ≡ t
    → Ensures (Body es (Wrote t (λ _. Unit {0}) es)) s es (reassign i ids)
unfolding reassign
reassign-Ensures es t [] i s e = Ensures-pure _ s es tt ((tt, e, refl), refl)
reassign-Ensures es t (id ∷ ids) i s e =
    Ensures-execute_bind _ s es _ _ refl (λ x h. cc) λ _ _. reassign-Ensures es t ids (i + 1) _ e

module _ (s : Store) (es : List BoardEvent) where
  pub create_with_document-Wrote :
      (board column : ℕ) (title : String) (creator : ℕ) (position : Position)
      (color : Option String)
      → Ensures
          (Outcome s es (
            Wrote
              (with_new_card (card_row board column title creator position color s) s)
              (λ p. p ≡ (card_row board column title creator position color s, suc s.next_id))
              es))
          s
          es
          (Cards.create_with_document board column title creator position color)
  unfolding Cards.create_with_document insert_card insert_document
  create_with_document-Wrote board column title creator position color =
      Ensures-transaction _ s es _ (
        Ensures-execute_bind _ s es _ _ refl (λ e h. cc)
          λ c e.
            Ensures-execute_bind _ _ es _ _ refl (λ e h. cc)
              λ d f. Ensures-pure _ _ es _ ((cc, ap both (same_row c e), refl), refl))
    where
      new : Card
      new = card_row board column title creator position color s

      same_row : (c : Card) → ok new ≡ ok c → c ≡ new
      same_row c e = cc

      both : Card → Store
      both c = record s {
        cards = insert_row new s.cards;
        documents =
            insert_row (document_row c.id (record s { next_id = suc s.next_id })) s.documents;
        next_id = suc (suc s.next_id);
      }

  pub update-Wrote :
      (id : ℕ) (title color : Option String) (assignee : Option ℕ)
      → Ensures
          (Outcome s es (
            Wrote (with_card id (update_card_row title color assignee s.now) s) (λ _. Unit {0}) es))
          s
          es
          (Cards.update id title color assignee)
  unfolding Cards.update
  update-Wrote id title color assignee = Outcome-affected _ s es _ (
      returning-Wrote s es (find_card id s) (update_card_row title color assignee s.now)
        (with_card id (update_card_row title color assignee s.now) s))

  pub move-Wrote :
      (id column : ℕ) (position : Position)
      → Ensures
          (Outcome s es (Wrote (moved id column position s) (λ _. Unit {0}) es))
          s
          es
          (Cards.move id column position)
  unfolding Cards.move
  move-Wrote id column position =
      Outcome-affected _ s es _ (affected-Wrote s es _ (moved id column position s))

  pub archive-Wrote :
      (id : ℕ)
      → Ensures
          (Outcome s es (Wrote (with_card id (archive_row true s.now) s) (λ _. Unit {0}) es))
          s
          es
          (Cards.archive id)
  unfolding Cards.archive
  archive-Wrote id =
      Outcome-affected _ s es _ (affected-Wrote s es _ (with_card id (archive_row true s.now) s))

  pub unarchive-Wrote :
      (id : ℕ)
      → Ensures
          (Outcome s es (Wrote (with_card id (archive_row false s.now) s) (λ _. Unit {0}) es))
          s
          es
          (Cards.unarchive id)
  unfolding Cards.unarchive
  unarchive-Wrote id =
      Outcome-affected _ s es _ (affected-Wrote s es _ (with_card id (archive_row false s.now) s))

  pub delete-Wrote :
      (id : ℕ)
      → Ensures
          (Outcome s es (Wrote (Cascade.delete_cards (has_card_id id) s) (λ _. Unit {0}) es))
          s
          es
          (Cards.delete id)
  unfolding Cards.delete
  delete-Wrote id =
      Outcome-affected _ s es _ (affected-Wrote s es _ (Cascade.delete_cards (has_card_id id) s))

  pub rebalance_column-Wrote :
      (column : ℕ)
      → Ensures
          (Outcome s es (Wrote (rebalanced column s) (λ _. Unit {0}) es))
          s
          es
          (Cards.rebalance_column column)
  unfolding Cards.rebalance_column
  rebalance_column-Wrote column = Ensures-transaction _ s es _ (
      Ensures-Reads _ s es _ _ _ (Reads-query (λ s. ok (map (λ c. c.id) (live_cards column s))))
        (λ e. refl)
        λ ids e.
          reassign-Ensures es (rebalanced column s) ids 0 s
            (ap (λ x. placed 0 x s) (same_ids ids e)))
    where
      same_ids :
          (ids : List ℕ)
          → ok (map (λ c. c.id) (live_cards column s)) ≡ ok ids
          → ids ≡ map (λ c. c.id) (live_cards column s)
      same_ids ids e = cc
