-- ===== src/Service/Boards/Handover.antt =====
-- What the two updates of TransferOwnership do to the number of owners.
use native.Mathlib.Decide.{ℕ_discrete}
use docflow_core.Prelude.{
  ℕ, ◌+◌, ◌≤◌, ◌≡◌, refl, sym, ◌∙◌, ◌≢◌, true, List, [], ◌∷◌, arith, count_rows, update_rows,
}
use docflow_core.Model.{Role, Membership}
use docflow_core.Model.Store.{Store}
use docflow_core.Repo.Boards.{is_row, set_role}
use docflow_core.Repo.Boards.Finding.{is_board}
use docflow_core.Repo.Boards.Lookups.{HasRole}
use docflow_core.Repo.Boards.Owners.{
  owns, owners, with_role, count_rows_of_found, owns_of_owner, owns_of_other, owners-set_role,
  owners-set_role_ne, rows-set_role,
}
use docflow_core.Service.Boards.Ownership.{HasOneOwner, of_board-set_role}

owns-set_role_ne :
    (board from to : ℕ) (role : Role) (ms : List Membership)
    → to ≢ from
    → count_rows (owns board to) (update_rows (is_row board from) (with_role role) ms)
      ≡ count_rows (owns board to) ms
owns-set_role_ne board from to role [] ne = refl
owns-set_role_ne board from to role (m ∷ ms) ne =
    ground (arith, owns-set_role_ne board from to role ms ne)

-- Two users' owner rows are different rows.
pub owns_pair :
    (board from to : ℕ) (ms : List Membership)
    → to ≢ from
    → count_rows (owns board to) ms + count_rows (owns board from) ms ≤ owners board ms
owns_pair board from to [] ne = omega arith
owns_pair board from to (m ∷ ms) ne = ground (arith, owns_pair board from to ms ne)

module _ (board from to : ℕ) (ne : to ≢ from) (s : Store) where
  abbrev pub handed : Store
  handed = set_role board to Role.owner (set_role board from Role.admin s)

  -- Whoever calls: `from` loses an owner row if it had one, and `to` gains one if it had none.
  pub owners-handed :
      owners board handed.board_members
        + count_rows (owns board to) s.board_members
        + count_rows (owns board from) s.board_members
      ≡ owners board s.board_members + count_rows (is_row board to) s.board_members
  owners-handed =
      let ms = s.board_members in
      let ns = update_rows (is_row board from) (with_role Role.admin) ms in
      omega (
        arith,
        owners-set_role board from Role.admin ms,
        owners-set_role board to Role.owner ns,
        rows-set_role board from Role.admin board to ms,
        owns-set_role_ne board from to Role.admin ms ne,
      )

  module _ (inv : HasOneOwner s) {r : Role} (to_row : HasRole board to s r) where
    rows_to : count_rows (is_row board to) s.board_members ≡ 1
    rows_to = omega (
      arith,
      inv.one_row board to,
      count_rows_of_found (is_row board to) s.board_members to_row.0 to_row.1,
    )

    -- From the owner to another member: there is one owner again.
    pub owners_handed_by_owner :
        HasRole board from s Role.owner
        → is_board board s.boards ≡ true
        → owners board handed.board_members ≡ 1
    owners_handed_by_owner (m, found_m, is_owner) known = omega (
      arith,
      owners-handed,
      rows_to,
      inv.one_owner board known,
      owns_pair board from to s.board_members ne,
      owns_of_owner board from s.board_members m found_m is_owner,
    )

    -- From somebody who is no longer the owner: there is one owner more.
    pub owners_handed_by_other :
        {q : Role}
        → HasRole board from s q
        → q ≢ Role.owner
        → r ≢ Role.owner
        → owners board handed.board_members ≡ owners board s.board_members + 1
    owners_handed_by_other (m, found_m, has_q) low lower = omega (
      arith,
      owners-handed,
      rows_to,
      owns_of_other board from s.board_members m (inv.one_row board from) found_m
          (λ e. low (sym has_q ∙ e)),
      owns_of_other board to s.board_members to_row.0 (inv.one_row board to) to_row.1
          (λ e. lower (sym to_row.2 ∙ e)),
    )

    pub handed-HasOneOwner : HasRole board from s Role.owner → HasOneOwner handed
    handed-HasOneOwner from_row =
        let ms = s.board_members in
        let ns = update_rows (is_row board from) (with_role Role.admin) ms in
        record {
          one_row = λ b u. omega (
            arith,
            inv.one_row b u,
            rows-set_role board to Role.owner b u ns,
            rows-set_role board from Role.admin b u ms,
          );
          one_owner = λ b h. elim (ℕ_discrete b board) [
            | yes same ↦ rw same (owners_handed_by_owner from_row (rw same at h))
            | no other ↦
                owners-set_role_ne board to Role.owner b ns other
                ∙ owners-set_role_ne board from Role.admin b ms other
                ∙ inv.one_owner b h
          ];
          fresh_board = inv.fresh_board;
          fresh_rows = λ b h.
              of_board-set_role board to Role.owner b ns
              ∙ of_board-set_role board from Role.admin b ms
              ∙ inv.fresh_rows b h;
        }
