-- ===== src/Repo/Cards/Reading.antt =====
-- What the reading methods of the card repository tell.
use docflow_core.Prelude.{ℕ, ◌≡◌, refl, Option, none, some, get_or}
use docflow_core.Position.{Position, of_ℕ}
use docflow_core.Position.Rows.{highest}
use docflow_core.Model.{Document}
use docflow_core.Model.Store.{ok, err}
use docflow_core.Exec.{found}
use docflow_core.Exec.Reads.{Reads, Reads-query, Reads-weaken, Reads-bind, Reads-pure}
use docflow_core.Repo.Boards.Lookups.{found_ok}
use docflow_core.Repo.Cards
use docflow_core.Repo.Cards.{
  find_card, find_document, card_positions, position_below, position_above, assignee_of,
}

pub find_by_id-Reads : (id : ℕ) → Reads (λ s c. find_card id s ≡ some c) (Cards.find_by_id id)
unfolding Cards.find_by_id
find_by_id-Reads id =
    Reads-weaken _ _ _ (λ s c e. found_ok (find_card id s) c e)
      (Reads-query (λ s. found (find_card id s)))

pub get_max_position-Reads :
    (column : ℕ)
    → Reads
        (λ s p. p ≡ get_or (highest (card_positions column s)) (of_ℕ 0))
        (Cards.get_max_position column)
unfolding Cards.get_max_position
get_max_position-Reads column =
    Reads-weaken _ _ _ (λ s p e. cc)
      (Reads-query (λ s. ok (get_or (highest (card_positions column s)) (of_ℕ 0))))

pub get_neighbor_positions-Reads :
    (column : ℕ) (ref : Position)
    → Reads
        (λ s p. (p.0 ≡ position_below column ref s) × (p.1 ≡ position_above column ref s))
        (Cards.get_neighbor_positions column ref)
unfolding Cards.get_neighbor_positions
get_neighbor_positions-Reads column ref =
    Reads-bind (λ s p. p ≡ position_below column ref s) _ _ _
      (Reads-weaken _ _ _ (λ s p e. cc) (Reads-query (λ s. ok (position_below column ref s))))
      λ below.
        Reads-bind (λ s p. p ≡ position_above column ref s) _ _ _
          (Reads-weaken _ _ _ (λ s p e. cc) (Reads-query (λ s. ok (position_above column ref s))))
          λ above. Reads-pure _ _ (λ s e f. (f, e))

id_of_found :
    (o : Option Document) (id : ℕ)
    → elim (found o) [ ok d ↦ ok d.id | err e ↦ err e ] ≡ ok id
    → (d : Document) × (o ≡ some d) × (d.id ≡ id)
id_of_found none id h = cc
id_of_found (some d) id h = (d, refl, cc)

pub get_document_id-Reads :
    (card : ℕ)
    → Reads
        (λ s id. (d : Document) × (find_document card s ≡ some d) × (d.id ≡ id))
        (Cards.get_document_id card)
unfolding Cards.get_document_id
get_document_id-Reads card =
    Reads-weaken _ _ _ (λ s id e. id_of_found (find_document card s) id e)
      (Reads-query (λ s. elim (found (find_document card s)) [ ok d ↦ ok d.id | err e ↦ err e ]))

pub get_assignee-Reads :
    (card : ℕ) → Reads (λ s u. u ≡ assignee_of (find_card card s) s.users) (Cards.get_assignee card)
unfolding Cards.get_assignee
get_assignee-Reads card =
    Reads-weaken _ _ _ (λ s u e. cc)
      (Reads-query (λ s. ok (assignee_of (find_card card s) s.users)))
