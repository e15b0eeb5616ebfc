-- ===== src/Handler/Boards/Stale.antt =====
-- internal/services/boards.go and internal/repositories/boards.go: two handovers by a caller whose
-- role the middleware resolved before the first of them was committed.
use docflow_core.Prelude.{
  ℕ, ◌≡◌, refl, sym, ap, ◌∙◌, ◌≢◌, true, List, [], ◌∷◌, arith, count_rows, update_rows,
}
use mathlib.Core.Path.{subst}
use docflow_core.Model.{Role, Membership}
use docflow_core.Model.Store.{Store, World, BoardEvent, Result, ok, err}
use docflow_core.Exec.Ensures.{Outcome}
use docflow_core.Repo.Boards.{is_row}
use docflow_core.Repo.Boards.Finding.{is_board, is_board_of_found}
use docflow_core.Repo.Boards.Lookups.{HasRole}
use docflow_core.Repo.Boards.Owners.{
  owns, owners, with_role, owns_of_owner, count_rows_of_found, rows-set_role,
}
use docflow_core.Service.Boards.Handover.{
  handed, handed-HasOneOwner, owners_handed_by_other, owns_pair,
}
use docflow_core.Service.Boards.Ownership.{HasOneOwner}
use docflow_core.Service.Boards.Request.{Request, Caller, perform}
use docflow_core.Service.Boards.Rights.{Granted}
use docflow_core.Service.Boards.Serving.{Done}
use docflow_core.Service.Boards.Refines.{perform-Serves}

-- The new owner has as many owner rows as rows.
owns-set_owner :
    (board user : ℕ) (ms : List Membership)
    → count_rows (owns board user) (update_rows (is_row board user) (with_role Role.owner) ms)
      ≡ count_rows (is_row board user) ms
owns-set_owner board user [] = refl
owns-set_owner board user (m ∷ ms) = ground (arith, owns-set_owner board user ms)

Granted-of_ok :
    (board : ℕ) (c : Caller) (r : Request) (s t : Store) (es es' : List BoardEvent)
    (x : Result (Unit {0}))
    → x ≡ ok tt
    → Outcome s es (λ _. Done board c r s es) x t es'
    → Granted board c r s t
Granted-of_ok board c r s t es es' (ok a) e h = h.0
Granted-of_ok board c r s t es es' (err a) e h = absurd (cc)

-- A request that returned without an error.
performed :
    (board : ℕ) (c : Caller) (r : Request) (w v : World)
    → perform board c r w ≡ (ok tt, v)
    → Granted board c r w.db v.db
performed board c r w v e =
    subst (λ x. Granted board c r w.db x.db) (ap (λ x. x.1) e)
      (Granted-of_ok board c r w.db _ w.events _ _ (ap (λ x. x.0) e)
        ((perform-Serves board c w.db w.events r).at w refl refl))

module _ (board from b : ℕ) (s : Store) (inv : HasOneOwner s) (ne : b ≢ from)
    (from_row : HasRole board from s Role.owner) {q : Role} (b_row : HasRole board b s q) where
  abbrev after_first : Store
  after_first = handed board from b ne s

  after_first-HasOneOwner : HasOneOwner after_first
  after_first-HasOneOwner = handed-HasOneOwner board from b ne s inv b_row from_row

  -- Nobody but the new owner owns the board now.
  not_owner :
      (known : is_board board s.boards ≡ true) (other : ℕ) {r : Role}
      → other ≢ b
      → HasRole board other after_first r
      → r ≢ Role.owner
  not_owner known other other_ne (m, found_m, has) e =
      let ns = update_rows (is_row board from) (with_role Role.admin) s.board_members in
      absurd (
        omega (
          arith,
          owns_of_owner board other after_first.board_members m found_m (has ∙ e),
          owns_pair board b other after_first.board_members other_ne,
          owns-set_owner board b ns,
          rows-set_role board from Role.admin board b s.board_members,
          count_rows_of_found (is_row board b) s.board_members b_row.0 b_row.1,
          after_first-HasOneOwner.one_owner board known,
        ))

-- On a database in which every board has exactly one owner, no user has two rows on a board, and
-- no row has an identifier that is still to be given: a caller who owns the board before two of
-- its handovers with the same resolved role, the first to b and the second to another user c,
-- leaves the board with two owners when both succeed.
pub stale_transfer :
    (board : ℕ) (a : Caller) (b c : ℕ) (w v u : World)
    → HasOneOwner w.db
    → HasRole board a.user w.db Role.owner
    → c ≢ b
    → perform board a (Request.transfer b) w ≡ (ok tt, v)
    → perform board a (Request.transfer c) v ≡ (ok tt, u)
    → owners board u.db.board_members ≡ 2
stale_transfer board a b c w v u inv a_row apart first second =
    let g = performed board a (Request.transfer b) w v first in
    let h = performed board a (Request.transfer c) v u second in
    let (_, ne, _, (q, b_row)) = g.rights in
    let (_, other, (r, a_now), (p, c_now)) = h.rights in
    let known = is_board_of_found board w.db.boards g.seen.0 g.seen.1 in
    let still = is_board_of_found board v.db.boards h.seen.0 h.seen.1 in
    let inv' : HasOneOwner v.db =
      subst HasOneOwner (sym g.effect)
        (after_first-HasOneOwner board a.user b w.db inv ne a_row b_row) in
    let low = λ (n : ℕ) (x : Role) (apart' : n ≢ b) (row : HasRole board n v.db x).
      not_owner board a.user b w.db inv ne a_row b_row known n apart'
        (subst (λ t. HasRole board n t x) g.effect row) in
    subst (λ t. owners board t.board_members ≡ 2) (sym h.effect)
      (omega (
        arith,
        inv'.one_owner board still,
        owners_handed_by_other board a.user c other v.db inv' c_now a_now
            (low a.user r (λ e. ne (sym e)) a_now) (low c p apart c_now),
      ))
