-- ===== src/Service/Content/Landing.antt =====
-- CreateCard and MoveCard in internal/services/cards.go: the position of the card.
use docflow_core.Prelude.{
  ℕ, ◌≡◌, refl, ap, Option, none, some, get_or, List, arith, insert_row, Every, String,
}
use mathlib.Core.Path.{subst}
use docflow_core.Position.{Position, of_ℕ, add_thousand}
use docflow_core.Position.Order.{IsModest, ◌≺◌, ≺_of_≼_of_≺, ≺-add_thousand}
use docflow_core.Position.Rows.{highest}
use docflow_core.Position.Rows.Extremes.{Every-map, extreme_taken}
use docflow_core.Model.{Role, Card}
use docflow_core.Model.Store.{Store, World, BoardEvent, Result, ok, err}
use docflow_core.Repo.Cards.{card_positions}
use docflow_core.Service.Content.Request.{Request, perform}
use docflow_core.Service.Content.Rules.{Served, Left, new_card}
use docflow_core.Service.Content.Serving.{ToldOrLeft}
use docflow_core.Service.Content.Refines.{content_refines}
use docflow_core.Service.Content.Places.{below_highest}

served_of_ok :
    (user : ℕ) (role : Role) (r : Request) (s t : Store) (es es' : List BoardEvent)
    (x : Result (Unit {0}))
    → x ≡ ok tt
    → ToldOrLeft (Served user role r s es) (Left r s) es x t es'
    → Served user role r s es t es'
served_of_ok user role r s t es es' (ok a) e h = h
served_of_ok user role r s t es es' (err x) e h = absurd (cc)

served :
    (user : ℕ) (role : Role) (r : Request) (w v : World)
    → perform user role r w ≡ (ok tt, v)
    → Served user role r w.db w.events v.db v.events
served user role r w v e =
    subst (λ x. Served user role r w.db w.events x.db x.events) (ap (λ x. x.1) e)
      (served_of_ok user role r w.db _ w.events _ _ (ap (λ x. x.0) e)
        (content_refines user role r w))

highest-IsModest :
    (ps : List Position) → Every IsModest ps → IsModest (get_or (highest ps) (of_ℕ 0))
highest-IsModest ps low = go (highest ps) refl
  where
    go : (o : Option Position) → highest ps ≡ o → IsModest (get_or o (of_ℕ 0))
    go none e = omega arith
    go (some m) e = extreme_taken _ IsModest ps m low e

-- Where the cards of the column that are not archived stand at 2^39 at most, a card that CreateCard
-- has created is added to the cards, in the column that was asked for, and its position, rounded, is
-- above those of all these cards.
pub create_card_last :
    (user column : ℕ) (role : Role) (title : String) (color : Option String) (w v : World)
    → Every IsModest (card_positions column w.db)
    → perform user role (Request.create_card column title color) w ≡ (ok tt, v)
    → (c : Card) × (v.db.cards ≡ insert_row c w.db.cards)
      × (c.column_id ≡ column)
      × Every (λ p. p ≺ c.position) (card_positions column w.db)
create_card_last user column role title color w v low e =
    let done = served user role (Request.create_card column title color) w v e in
    let c = new_card done.board column user title color w.db in
    let ps = card_positions column w.db in
    let top = get_or (highest ps) (of_ℕ 0) in
    (
      c,
      ap (λ t. t.cards) done.effect,
      refl,
      Every-map _ _ ps
          (λ p h.
            ≺_of_≼_of_≺ p top (add_thousand top) h (≺-add_thousand top (highest-IsModest ps low)))
          (below_highest (highest ps) (of_ℕ 0) ps refl),
    )
