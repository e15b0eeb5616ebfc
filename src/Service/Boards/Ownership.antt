-- ===== src/Service/Boards/Ownership.antt =====
-- The owner rows of board_members, as migrations/000004 sets them up, under the effects of the
-- methods of internal/services/boards.go.
use native.Mathlib.Decide.{ℕ_discrete}
use docflow_core.Prelude.{
  ℕ, ◌≤◌, ◌≡◌, refl, sym, ◌∙◌, ◌≢◌, Bool, true, false, ◌==◌, List, [], ◌∷◌, arith, count_rows,
  exists_row, update_rows,
}
use docflow_core.Model.{Role, Board, Membership, same_role}
use docflow_core.Model.Store.{Store}
use docflow_core.Repo.Cascade
use docflow_core.Repo.Boards.{is_row, insert_member, without_row, set_role}
use docflow_core.Repo.Boards.Finding.{has_id, is_board, is_board-update, is_board-delete}
use docflow_core.Repo.Boards.Lookups.{HasRole}
use docflow_core.Repo.Boards.Owners.{
  is_owner_row, owners, with_role, count_rows-append, count_rows_of_absent, owns_of_other,
  owners-set_role, owners-set_role_ne, rows-set_role, owners-delete, owners-delete_ne,
  count_rows-delete, owners-delete_board,
}

-- The rows of a board, whoever's.
abbrev pub of_board : ℕ → Membership → Bool
of_board board m = m.board_id == board

-- No user has two rows on a board, each board has one owner, and the next identifier is unused.
pub record HasOneOwner (s : Store) : Type 0 where
  pub one_row : (b u : ℕ) → count_rows (is_row b u) s.board_members ≤ 1
  pub one_owner : (b : ℕ) → is_board b s.boards ≡ true → owners b s.board_members ≡ 1
  pub fresh_board : (b : ℕ) → s.next_id ≤ b → is_board b s.boards ≡ false
  pub fresh_rows : (b : ℕ) → s.next_id ≤ b → count_rows (of_board b) s.board_members ≡ 0

pub of_board-set_role :
    (board user : ℕ) (role : Role) (b : ℕ) (ms : List Membership)
    → count_rows (of_board b) (update_rows (is_row board user) (with_role role) ms)
      ≡ count_rows (of_board b) ms
of_board-set_role board user role b [] = refl
of_board-set_role board user role b (m ∷ ms) =
    ground (arith, of_board-set_role board user role b ms)

pub owners-le-of_board : (b : ℕ) (ms : List Membership) → owners b ms ≤ count_rows (of_board b) ms
owners-le-of_board b [] = omega arith
owners-le-of_board b (m ∷ ms) = ground (arith, owners-le-of_board b ms)

module _ (s : Store) (inv : HasOneOwner s) where
  set_role_keeps :
      (board user : ℕ) (role : Role)
      → ((b : ℕ)
          → is_board b s.boards ≡ true
          → owners b (set_role board user role s).board_members ≡ 1)
      → HasOneOwner (set_role board user role s)
  set_role_keeps board user role one = record {
    one_row =
        λ b u. omega (arith, inv.one_row b u, rows-set_role board user role b u s.board_members);
    one_owner = one;
    fresh_board = inv.fresh_board;
    fresh_rows = λ b h. of_board-set_role board user role b s.board_members ∙ inv.fresh_rows b h;
  }

  -- A role below owner is given to somebody below owner.
  pub set_role-HasOneOwner :
      (board user : ℕ) (role r : Role)
      → HasRole board user s r
      → r ≢ Role.owner
      → same_role role Role.owner ≡ false
      → HasOneOwner (set_role board user role s)
  set_role-HasOneOwner board user role r (m, found_m, has_r) low lower =
      set_role_keeps board user role λ b h. elim (ℕ_discrete b board) [
        | yes same ↦ rw same (here (rw same at h))
        | no ne ↦ owners-set_role_ne board user role b s.board_members ne ∙ inv.one_owner b h
      ]
    where
      here :
          is_board board s.boards ≡ true
          → owners board (set_role board user role s).board_members ≡ 1
      here h = ground (
        arith,
        owners-set_role board user role s.board_members,
        inv.one_owner board h,
        owns_of_other board user s.board_members m (inv.one_row board user) found_m
            (λ e. low (sym has_r ∙ e)),
      )

  -- A row below owner is deleted.
  pub without_row-HasOneOwner :
      (board user : ℕ) (r : Role)
      → HasRole board user s r
      → r ≢ Role.owner
      → HasOneOwner (without_row board user s)
  without_row-HasOneOwner board user r (m, found_m, has_r) low = record {
    one_row = λ b u. omega (
      arith,
      inv.one_row b u,
      count_rows-delete (is_row b u) (is_row board user) s.board_members,
    );
    one_owner = λ b h. elim (ℕ_discrete b board) [
      | yes same ↦ rw same (here (rw same at h))
      | no ne ↦ owners-delete_ne board user b s.board_members ne ∙ inv.one_owner b h
    ];
    fresh_board = inv.fresh_board;
    fresh_rows = λ b h. omega (
      arith,
      inv.fresh_rows b h,
      count_rows-delete (of_board b) (is_row board user) s.board_members,
    );
  }
    where
      here :
          is_board board s.boards ≡ true → owners board (without_row board user s).board_members ≡ 1
      here h = ground (
        arith,
        owners-delete board user s.board_members,
        inv.one_owner board h,
        owns_of_other board user s.board_members m (inv.one_row board user) found_m
            (λ e. low (sym has_r ∙ e)),
      )

  -- A user without a row gets one below owner.
  pub insert_member-HasOneOwner :
      (board user : ℕ) (role : Role)
      → is_board board s.boards ≡ true
      → exists_row (is_row board user) s.board_members ≡ false
      → same_role role Role.owner ≡ false
      → HasOneOwner (insert_member board user role s).1
  unfolding insert_member
  insert_member-HasOneOwner board user role known absent lower =
      let m : Membership = record {
        board_id = board;
        user_id = user;
        role = role;
        added_at = s.now;
      } in
      let ms = s.board_members in
      record {
        one_row = λ b u. ground (
          arith,
          count_rows-append (is_row b u) ms (m ∷ []),
          inv.one_row b u,
          count_rows_of_absent (is_row board user) ms absent,
        );
        one_owner = λ b h.
            ground (arith, count_rows-append (is_owner_row b) ms (m ∷ []), inv.one_owner b h);
        fresh_board = inv.fresh_board;
        fresh_rows = λ b h. ground (
          arith,
          count_rows-append (of_board b) ms (m ∷ []),
          inv.fresh_rows b h,
          inv.fresh_board board,
        );
      }

  -- A change of the boards that keeps their identifiers.
  pub boards-HasOneOwner :
      (board : ℕ) (f : Board → Board)
      → ((b : Board) → (f b).id ≡ b.id)
      → HasOneOwner (record s { boards = update_rows (has_id board) f s.boards })
  boards-HasOneOwner board f same = record {
    one_row = inv.one_row;
    one_owner = λ b h. inv.one_owner b (sym (is_board-update f board b s.boards same) ∙ h);
    fresh_board = λ b h. is_board-update f board b s.boards same ∙ inv.fresh_board b h;
    fresh_rows = inv.fresh_rows;
  }

  pub delete_board-HasOneOwner : (board : ℕ) → HasOneOwner (Cascade.delete_board board s)
  unfolding Cascade.delete_board
  delete_board-HasOneOwner board = record {
    one_row = λ b u.
        omega
          (arith, inv.one_row b u, count_rows-delete (is_row b u) (of_board board) s.board_members);
    one_owner = λ b h. elim (ℕ_discrete b board) [
      | yes same ↦ absurd (ground (arith, is_board-delete board b s.boards))
      | no ne ↦
          owners-delete_board board b s.board_members ne
          ∙ inv.one_owner b (ground (arith, is_board-delete board b s.boards))
    ];
    fresh_board = λ b h. ground (arith, is_board-delete board b s.boards, inv.fresh_board b h);
    fresh_rows = λ b h. omega (
      arith,
      inv.fresh_rows b h,
      count_rows-delete (of_board b) (of_board board) s.board_members,
    );
  }
