-- ===== src/Service/Boards/Viewing/Links.antt =====
-- internal/services/boards.go: what a share link opens, from GenerateShareLink to RevokeShareLink.
use mathlib.Core.Path.{subst}
use docflow_core.Exec.Answers.{
  Answers-pure, Answers-query, Answers-missing_as, Answers-bind, Answers, IsUp,
}
use docflow_core.Service.Access.Sight.{CanSee}
use docflow_core.Model.Views.{BoardDetailResponse}
use docflow_core.Repo.Boards.{find_board, with_token}
use docflow_core.Exec.Reads.{Reads-pure, Reads-missing_as, Reads}
use docflow_core.Model.{not_found, Role, Board}
use docflow_core.Prelude.{
  find_row-update, find_row_holds, ==_iff, ==_refl, ℕ, ◌≡◌, ◌≢◌, refl, sym, ap, ◌∙◌, inl, inr, ◌==◌,
  Bool, true, false, Option, none, some, List, [], ◌∷◌, find_row, update_rows, arith, Bool-cases,
}
use docflow_core.Model.Store.{Store, World, BoardEvent, ok}
use docflow_core.Exec.{found}
use docflow_core.Repo.Boards
use docflow_core.Repo.Boards.Detail.{stored_detail}
use docflow_core.Repo.Boards.Writes.{set_share_token-Ensures}
use docflow_core.Repo.Boards.Lookups.{found_ok}
use docflow_core.Service.Access.Sight.{check_access-Reads, require_board_role-Reads, CanSee}
use docflow_core.Service.Boards.Viewing.Guarded.{detail-Reads}
use docflow_core.Exec.Reads.{Reads-weaken, Reads-query, Reads-bind, generate_token-Reads}
use docflow_core.Exec.Steps.{Yields, after_read}
use docflow_core.Exec.Ensures.{Outcome-weaken, Outcome-ok, Ensures-bind, Ensures-pure}
use docflow_core.Service.Boards.{owner_or_admin}
use docflow_core.Service.Boards.Viewing.{get_public_board}
use docflow_core.Service.Boards.{generate_share_link, revoke_share_link}
use docflow_core.Service.Boards.Viewing.Shown.{detail-Answers}

abbrev pub has_token : ℕ → Board → Bool
has_token token b = elim b.share_token [ none ↦ false | some t ↦ t == token ]

module _ (board : ℕ) (now : ℕ) where
  abbrev sealed : Option ℕ → Board → Board
  sealed token b = record b { share_token = token; updated_at = now }

  -- A board without a token is opened by none.
  find-revoked :
      (token : ℕ) (bs : List Board) (b : Board)
      → find_row (has_token token) (update_rows (λ a. a.id == board) (sealed none) bs) ≡ some b
      → b.id ≢ board
  find-revoked token [] b h same = absurd (cc)
  find-revoked token (x ∷ xs) b h same = elim (Bool-cases (x.id == board)) [
    | inl e ↦ find-revoked token xs b (ground (arith, e, h)) same
    | inr e ↦ elim (Bool-cases (has_token token x)) [
      | inl k ↦ ground (arith, e, k, h, same)
      | inr k ↦ find-revoked token xs b (ground (arith, e, k, h)) same
    ]
  ]

  -- A token that no other board has opens the board that it was given to.
  find-generated :
      (token : ℕ) (bs : List Board) (b : Board)
      → find_row (has_token token) bs ≡ none
      → find_row (λ a. a.id == board) bs ≡ some b
      → find_row (has_token token) (update_rows (λ a. a.id == board) (sealed (some token)) bs)
        ≡ some (sealed (some token) b)
  find-generated token [] b fresh h = absurd (cc)
  find-generated token (x ∷ xs) b fresh h =
      ground (arith, fresh, h, ==_refl token, find-generated token xs b)

abbrev opened_board : ℕ → Store → Option Board
opened_board token s = find_row (has_token token) s.boards

find_by_share_token-Reads :
    (token : ℕ) → Reads (λ s b. opened_board token s ≡ some b) (Boards.find_by_share_token token)
unfolding Boards.find_by_share_token
find_by_share_token-Reads token =
    Reads-weaken _ _ _ (λ s b e. found_ok (opened_board token s) b e)
      (Reads-query (λ s. found (opened_board token s)))

opened-Reads :
    (token : ℕ)
    → Reads
        (λ s d. (b : Board) × (opened_board token s ≡ some b) × (d.id ≡ b.id))
        (get_public_board token)
unfolding get_public_board
opened-Reads token =
    Reads-bind _ _ _ _ (Reads-missing_as _ not_found _ (find_by_share_token-Reads token)) λ b.
      Reads-bind _ _ _ _ (detail-Reads b.id) λ d. Reads-pure _ _ λ s (k, here, e) opened.
        (b, opened, ap (λ x. x.id) e ∙ (==_iff k.id b.id).0 (find_row_holds _ s.boards k here))

module _ (board user : ℕ) (workspace_role board_role : Role) (s : Store)
    (es : List BoardEvent) where
  abbrev HasGenerated : ℕ → Store → List BoardEvent → Type 0
  HasGenerated token t _ =
      CanSee s board user workspace_role × (t ≡ with_token board (some token) s)

  generate-Yields :
      Yields HasGenerated s es (generate_share_link board user workspace_role board_role)
  unfolding generate_share_link
  generate-Yields =
      after_read HasGenerated s es _ _ _ (check_access-Reads board user workspace_role) λ _ seen.
        after_read HasGenerated s es _ _ _ (require_board_role-Reads board_role owner_or_admin)
          λ _ held. after_read HasGenerated s es _ _ _ generate_token-Reads λ token _.
            Ensures-bind _ s es _ _ _ (set_share_token-Ensures s es board (some token))
              (λ e t u q. q) (λ _ t u q. Ensures-pure _ t u token (seen, q.0))

  abbrev HasRevoked : Unit {0} → Store → List BoardEvent → Type 0
  HasRevoked _ t _ = t ≡ with_token board none s

  revoke-Yields : Yields HasRevoked s es (revoke_share_link board user workspace_role board_role)
  unfolding revoke_share_link
  revoke-Yields =
      after_read HasRevoked s es _ _ _ (check_access-Reads board user workspace_role) λ _ seen.
        after_read HasRevoked s es _ _ _ (require_board_role-Reads board_role owner_or_admin)
          λ _ held.
            Outcome-weaken s es _ HasRevoked _ (λ _ t u q. q.0)
              (set_share_token-Ensures s es board none)

-- Once RevokeShareLink has returned, no token opens the board, whatever tokens were handed out
-- before: a board that GetPublicBoard answers with, on the tables as they were left, is another.
pub revoked_link_closes :
    (board user : ℕ) (workspace_role board_role : Role) (token : ℕ) (w v : World)
    (d : BoardDetailResponse)
    → (revoke_share_link board user workspace_role board_role w).0 ≡ ok tt
    → v.db ≡ (revoke_share_link board user workspace_role board_role w).1.db
    → (get_public_board token v).0 ≡ ok d
    → d.id ≢ board
revoked_link_closes board user workspace_role board_role token w v d done same opened here =
    let (b, found_b, id) = (opened-Reads token).reads v d opened in
    let left =
      Outcome-ok _ _ _ _ _ _ tt
        ((revoke-Yields board user workspace_role board_role w.db w.events).at w refl refl) done in
    find-revoked board w.db.now token w.db.boards b
      (ap (opened_board token) (sym (same ∙ left)) ∙ found_b) (sym id ∙ here)

public-Answers :
    (s : Store) (token : ℕ) (b k : Board)
    → opened_board token s ≡ some b
    → find_board b.id s ≡ some k
    → Answers s
        (record (stored_detail b.id k s) { is_public_view = true; my_board_role = Role.blank })
        (get_public_board token)
unfolding get_public_board Boards.find_by_share_token
public-Answers s token b k opened here =
    Answers-bind s b _ _ _
      (Answers-missing_as s not_found _ b (Answers-query s _ b (ap found opened)))
      (Answers-bind s (stored_detail b.id k s) _ _ _ (detail-Answers s b.id k here)
        (Answers-pure s _))

-- A token that GenerateShareLink has returned, and that no board had before, opens the board to
-- everyone, while no call of the driver fails: GetPublicBoard answers with the board, marked as a
-- public view and without a role.
pub generated_link_opens :
    (board user : ℕ) (workspace_role board_role : Role) (token : ℕ) (w v : World)
    → (generate_share_link board user workspace_role board_role w).0 ≡ ok token
    → find_row (has_token token) w.db.boards ≡ none
    → v.db ≡ (generate_share_link board user workspace_role board_role w).1.db
    → IsUp v
    → (d : BoardDetailResponse) × ((get_public_board token v).0 ≡ ok d)
      × (d.id ≡ board)
      × (d.is_public_view ≡ true)
      × (d.my_board_role ≡ Role.blank)
generated_link_opens board user workspace_role board_role token w v done fresh same up =
    let ((b, here, why), left) =
      Outcome-ok _ _ _ _ _ _ token
        ((generate-Yields board user workspace_role board_role w.db w.events).at w refl refl)
        done in
    let t = with_token board (some token) w.db in
    let marked = sealed board w.db.now (some token) b in
    let b_id = (==_iff b.id board).0 (find_row_holds (λ a. a.id == board) w.db.boards b here) in
    let kept =
      find_row-update (λ a. a.id == b.id) (λ a. a.id == board) (sealed board w.db.now (some token))
        w.db.boards b (λ a. refl) (subst (λ i. find_board i w.db ≡ some b) (sym b_id) here) in
    let shown =
      public-Answers t token marked _ (find-generated board w.db.now token w.db.boards b fresh here)
        kept in
    (_, (shown.at v (same ∙ left) up).0, ground (arith, b_id), refl, refl)
