-- ===== src/Service/Boards/Refines.antt =====
-- internal/services/boards.go: each method of BoardService against the rules of Rights.
use docflow_core.Prelude.{
  ℕ, refl, ◌∙◌, not, ◌&&◌, ◌==◌, String, Option, none, some, List, get_or, arith,
}
use docflow_core.Model.{Role, Visibility, same_role}
use docflow_core.Model.Error.{
  not_found, user_not_found, insufficient_permissions, already_board_member,
  cannot_remove_board_owner, target_not_board_member,
}
use docflow_core.Model.Store.{Store, BoardEvent}
use docflow_core.Exec.Reads.{Reads-missing_as, generate_token-Reads}
use docflow_core.Exec.Ensures.{Outcome-weaken, Outcome-map, Outcome-missing_as}
use docflow_core.Repo.Boards.{insert_member, with_board, with_token, without_row, set_role}
use docflow_core.Repo.Boards.Writes.{
  update-Ensures, delete-Ensures, set_share_token-Ensures, update_member_role-Ensures,
  remove_member-Ensures, add_member-Ensures, transfer_ownership-Ensures,
}
use docflow_core.Repo.Boards.Lookups.{
  find_by_id-Reads, is_member-Reads, get_member_role-Reads, get_member-Reads,
}
use docflow_core.Repo.Cascade
use docflow_core.Service.Boards
use docflow_core.Service.Boards.{owner_only, owner_or_admin, when_given}
use docflow_core.Service.Boards.Request.{Request, Caller, perform}
use docflow_core.Service.Boards.Serving.{
  Done, Serves, owner_only-true, owner_or_admin-true, read_next, seen_first, role_next,
  IsGiven-Reads, admin_grant-Reads, unless, written,
}

module _ (board : ℕ) (c : Caller) (s : Store) (es : List BoardEvent) where
  update_board-Serves :
      (title : Option String) (visibility : Option Visibility)
      → Serves board c s es
          (Request.update_board title visibility)
          (perform board c (Request.update_board title visibility))
  unfolding perform Boards.update_board
  update_board-Serves title visibility =
      let r = Request.update_board title visibility in
      Outcome-map s es (Done board c r s es) _ (λ _. tt)
        (seen_first board c s es r _ λ seen.
          read_next board c s es r _ _ _ (IsGiven-Reads board c s es visibility owner_only) λ _ own.
            read_next board c s es r _ _ _ (IsGiven-Reads board c s es title owner_or_admin)
              λ _ held.
                written board c s es r (with_board board title visibility s) _
                  (record {
                    seen = seen;
                    rights = (λ g. owner_only-true _ (own g), λ g. owner_or_admin-true _ (held g));
                    effect = refl;
                  })
                  (Outcome-missing_as _ s es not_found _
                    (update-Ensures s es board title visibility)))

  delete_board-Serves :
      Serves board c s es Request.delete_board (perform board c Request.delete_board)
  unfolding perform Boards.delete_board
  delete_board-Serves =
      let r = Request.delete_board in
      let low =
        not (same_role c.board_role Role.owner) && not (same_role c.workspace_role Role.owner) in
      seen_first board c s es r _ λ seen.
        unless board c s es r low insufficient_permissions _ λ held.
          written board c s es r (Cascade.delete_board board s) _
            (record { seen = seen; rights = ground arith; effect = refl })
            (Outcome-missing_as _ s es not_found _ (delete-Ensures s es board))

  add_member-Serves :
      (target : ℕ) (role : Option Role)
      → Serves board c s es
          (Request.add_member target role)
          (perform board c (Request.add_member target role))
  unfolding perform Boards.add_board_member
  add_member-Serves target role =
      let r = Request.add_member target role in
      seen_first board c s es r _ λ seen. role_next board c s es r owner_or_admin _ λ held.
        read_next board c s es r _ _ _ (admin_grant-Reads board c s es role) λ _ high.
          read_next board c s es r _ _ _ (Reads-missing_as _ not_found _ (find_by_id-Reads board))
            λ b here.
              read_next board c s es r _ _ _
                (Reads-missing_as _ user_not_found _ (get_member-Reads b.workspace_id target))
                λ m inside.
                  read_next board c s es r _ _ _ (is_member-Reads board target) λ already there.
                    unless board c s es r already already_board_member _ λ fresh.
                      written board c s es r
                        (insert_member board target (get_or role Role.editor) s).1 _
                        (record {
                          seen = seen;
                          rights = (
                            owner_or_admin-true _ held,
                            high,
                            (b, m, here, inside, there ∙ fresh),
                          );
                          effect = refl;
                        })
                        (add_member-Ensures s es board target (get_or role Role.editor)
                          (there ∙ fresh))

  remove_member-Serves :
      (target : ℕ)
      → Serves board c s es
          (Request.remove_member target)
          (perform board c (Request.remove_member target))
  unfolding perform Boards.remove_board_member
  remove_member-Serves target =
      let r = Request.remove_member target in
      seen_first board c s es r _ λ seen. role_next board c s es r owner_or_admin _ λ held.
        read_next board c s es r _ _ _
          (Reads-missing_as _ not_found _ (get_member_role-Reads board target))
          λ x row. unless board c s es r (same_role x Role.owner) cannot_remove_board_owner _ λ low.
            unless board c s es r
              (same_role x Role.admin && not (same_role c.board_role Role.owner))
              insufficient_permissions _
              λ rank.
                written board c s es r (without_row board target s) _
                  (record {
                    seen = seen;
                    rights = (owner_or_admin-true _ held, (x, row, ground arith, ground arith));
                    effect = refl;
                  })
                  (remove_member-Ensures s es board target)

  set_member_role-Serves :
      (target : ℕ) (role : Role)
      → Serves board c s es
          (Request.set_member_role target role)
          (perform board c (Request.set_member_role target role))
  unfolding perform Boards.update_board_member_role
  set_member_role-Serves target role =
      let r = Request.set_member_role target role in
      seen_first board c s es r _ λ seen. role_next board c s es r owner_only _ λ held.
        read_next board c s es r _ _ _
          (Reads-missing_as _ not_found _ (get_member_role-Reads board target))
          λ x row. unless board c s es r (same_role x Role.owner) cannot_remove_board_owner _ λ low.
            written board c s es r (set_role board target role s) _
              (record {
                seen = seen;
                rights = (owner_only-true _ held, (x, row, ground arith));
                effect = refl;
              })
              (update_member_role-Ensures s es board target role)

  transfer-Serves :
      (to : ℕ) → Serves board c s es (Request.transfer to) (perform board c (Request.transfer to))
  unfolding perform Boards.transfer_ownership
  transfer-Serves to =
      let r = Request.transfer to in
      seen_first board c s es r _ λ seen. role_next board c s es r owner_only _ λ held.
        unless board c s es r (to == c.user) insufficient_permissions _ λ other.
          Outcome-weaken s es _ _ _
            (λ _ t u q. (
              record {
                seen = seen;
                rights = (owner_only-true _ held, ground arith, q.0, q.1);
                effect = q.2;
              },
              q.3,
            ))
            (Outcome-missing_as _ s es target_not_board_member _
              (transfer_ownership-Ensures s es board c.user to))

  generate_link-Serves :
      Serves board c s es Request.generate_link (perform board c Request.generate_link)
  unfolding perform Boards.generate_share_link
  generate_link-Serves =
      let r = Request.generate_link in
      Outcome-map s es (Done board c r s es) _ (λ _. tt)
        (seen_first board c s es r _ λ seen. role_next board c s es r owner_or_admin _ λ held.
          read_next board c s es r (λ _ _. Unit {0}) _ _ generate_token-Reads
            λ token _.
              Outcome-map s es (Done board c r s es) _ (λ _. token)
                (written board c s es r (with_token board (some token) s) _
                  (record {
                    seen = seen;
                    rights = owner_or_admin-true _ held;
                    effect = (token, refl);
                  })
                  (set_share_token-Ensures s es board (some token))))

  revoke_link-Serves : Serves board c s es Request.revoke_link (perform board c Request.revoke_link)
  unfolding perform Boards.revoke_share_link
  revoke_link-Serves =
      let r = Request.revoke_link in
      seen_first board c s es r _ λ seen. role_next board c s es r owner_or_admin _ λ held.
        written board c s es r (with_token board none s) _
          (record { seen = seen; rights = owner_or_admin-true _ held; effect = refl })
          (set_share_token-Ensures s es board none)

  -- Whatever the request: it is granted under the rules, or it fails and changes nothing.
  pub perform-Serves : (r : Request) → Serves board c s es r (perform board c r)
  perform-Serves (Request.update_board title visibility) = update_board-Serves title visibility
  perform-Serves Request.delete_board = delete_board-Serves
  perform-Serves (Request.add_member target role) = add_member-Serves target role
  perform-Serves (Request.remove_member target) = remove_member-Serves target
  perform-Serves (Request.set_member_role target role) = set_member_role-Serves target role
  perform-Serves (Request.transfer to) = transfer-Serves to
  perform-Serves Request.generate_link = generate_link-Serves
  perform-Serves Request.revoke_link = revoke_link-Serves
