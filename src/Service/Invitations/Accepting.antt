-- ===== src/Service/Invitations/Accepting.antt =====
-- AcceptInvitation in internal/services/invitations.go: whom it admits, and how often.
use docflow_core.Prelude.{
  ℕ, ◌≡◌, refl, sym, ap, ◌∙◌, ◌⊎◌, inl, inr, Bool, true, false, String, Option, none, some, List,
  [], ◌∷◌, find_row, exists_row, ltb, if◌then◌else◌, arith,
}
use docflow_core.Model.Store.{Store, World, BoardEvent, Result, ok, err}
use docflow_core.Exec.{◌>>=◌, pure, raise, query, found, missing_as}
use mathlib.Core.Path.{subst, subst₂}
use docflow_core.Prelude.{find_row-update}
use docflow_core.Model.{Invitation, WorkspaceMember, is_pending}
use docflow_core.Model.Error.{invitation_invalid, invitation_expired, invitation_email_mismatch}
use docflow_core.Exec.{attempt, time_now}
use docflow_core.Exec.Reads.{Optional, Reads-missing_as, time_now-Reads}
use docflow_core.Exec.Ensures.{
  Post, Ensures, Outcome, Wrote, Ensures-Reads, Ensures-if, Ensures-bind, Ensures-pure,
  Ensures-raise, Ensures-attempt, Ensures-weaken,
}
use docflow_core.Repo.Boards.Lookups.{found_ok}
use docflow_core.Repo.Invitations
use docflow_core.Repo.Invitations.{find_by_hash, has_token, is_open, accept_row, with_accepted}
use docflow_core.Repo.Invitations.Effects.{find_by_token_hash-Reads, accept-Wrote}
use docflow_core.Repo.Workspaces
use docflow_core.Repo.Workspaces.{find_member, is_member_row, member_row, with_member}
use docflow_core.Repo.Workspaces.Effects.{lookup-Reads, add_member-Wrote, Joined}
use docflow_core.Service.Invitations.{Mail, accept_invitation, join}
use docflow_core.Service.Workspaces.{is_there}

-- The token's invitation was open to the caller.
abbrev pub IsInvited : Mail → ℕ → String → Store → Invitation → Type 0
IsInvited c raw email s i =
    (find_by_hash (c.hash_token raw) s ≡ some i)
    × (is_pending i.status ≡ true)
    × (ltb i.expires_at s.now ≡ false)
    × (c.equal_fold email i.invited_email ≡ true)

-- The token's invitation is no longer pending.
abbrev pub IsUsedUp : Mail → ℕ → Store → Type 0
IsUsedUp c raw t =
    (i : Invitation) × (find_by_hash (c.hash_token raw) t ≡ some i) × (is_pending i.status ≡ false)

-- The caller was a member and the members are the same, or the caller has been added with the role
-- of the invitation, which is used up.
abbrev pub Admitted : Mail → ℕ → ℕ → Invitation → Store → Store → Type 0
Admitted c raw caller i s t =
    (((m : WorkspaceMember) × (find_member i.workspace_id caller s ≡ some m))
      × (t.workspace_members ≡ s.workspace_members))
    ⊎ ((t.workspace_members ≡ (with_member i.workspace_id caller i.role s).workspace_members)
        × (exists_row (is_member_row i.workspace_id caller) s.workspace_members ≡ false)
        × IsUsedUp c raw t)

used_up :
    (c : Mail) (raw : ℕ) (i : Invitation) (s : Store)
    → find_by_hash (c.hash_token raw) s ≡ some i
    → is_pending i.status ≡ true
    → IsUsedUp c raw (with_accepted i.id s)
used_up c raw i s here unused = (
  accept_row s.now i,
  ground (
    arith,
    find_row-update (has_token (c.hash_token raw)) (is_open i.id) (accept_row s.now) s.invitations i
        (λ x. refl) here,
  ),
  refl,
)

module _ (c : Mail) (raw caller : ℕ) (email : String) (s : Store) (es : List BoardEvent) where
  abbrev Admits : Post ℕ
  Admits (ok ws) t es' =
      (i : Invitation) × IsInvited c raw email s i
      × (ws ≡ i.workspace_id)
      × Admitted c raw caller i s t
      × (es' ≡ es)
  Admits (err e) t es' = Unit {0}

  module _ (i : Invitation) (invited : IsInvited c raw email s i) where
    stays :
        (m : WorkspaceMember)
        → find_member i.workspace_id caller s ≡ some m
        → Ensures Admits s es (attempt (Invitations.accept i.id) >>= λ _. pure i.workspace_id)
    stays m here =
        Ensures-bind Admits s es Kept (attempt (Invitations.accept i.id)) _
          (Ensures-attempt Kept s es (Invitations.accept i.id) Kept (
            Ensures-weaken _ s es (Outcome s es (Wrote (with_accepted i.id s) (λ _. Unit {0}) es))
              (Invitations.accept i.id) kept (accept-Wrote s es i.id)))
          (λ e t u h. tt)
          λ o t u h.
            Ensures-pure Admits t u i.workspace_id (i, invited, refl, inl ((m, here), h.0), h.1)
      where
        Kept : Post (Option (Unit {0}))
        Kept r t u = (t.workspace_members ≡ s.workspace_members) × (u ≡ es)

        kept :
            (r : Result (Unit {0})) (t : Store) (u : List BoardEvent)
            → Outcome s es (Wrote (with_accepted i.id s) (λ _. Unit {0}) es) r t u
            → (t.workspace_members ≡ s.workspace_members) × (u ≡ es)
        kept (ok a) t u h = (ap (λ x. x.workspace_members) h.1, h.2)
        kept (err e) t u h = (ap (λ x. x.workspace_members) h.0, h.1)

    added :
        exists_row (is_member_row i.workspace_id caller) s.workspace_members ≡ false
        → Ensures Admits
            (with_member i.workspace_id caller i.role s)
            es
            (Invitations.accept i.id >>= λ _. pure i.workspace_id)
    added fresh =
        let s' = with_member i.workspace_id caller i.role s in
        Ensures-bind Admits s' es (Outcome s' es (Wrote (with_accepted i.id s') (λ _. Unit {0}) es))
          (Invitations.accept i.id) (λ _. pure i.workspace_id) (accept-Wrote s' es i.id)
          (λ e t u h. tt)
          λ a t u h. Ensures-pure Admits t u i.workspace_id (
            i,
            invited,
            refl,
            inr (
              ap (λ x. x.workspace_members) h.1,
              fresh,
              subst (IsUsedUp c raw) (sym h.1) (used_up c raw i s' invited.0 invited.1),
            ),
            h.2,
          )

    enters : Ensures Admits s es (
        Workspaces.add_member i.workspace_id caller i.role >>= λ _.
        (Invitations.accept i.id >>= λ _. pure i.workspace_id))
    enters =
        Ensures-bind Admits s es (Outcome s es (Joined i.workspace_id caller i.role s es)) _
          (λ _. Invitations.accept i.id >>= λ _. pure i.workspace_id)
          (add_member-Wrote s es i.workspace_id caller i.role) (λ e t u h. tt)
          λ a t u h.
            subst₂
              (λ x y. Ensures Admits x y (Invitations.accept i.id >>= λ _. pure i.workspace_id))
              (sym h.1) (sym h.2) (added h.0)

    join-Admits : Ensures Admits s es (join i caller)
    unfolding join
    join-Admits =
        Ensures-Reads Admits s es _ _ _ (lookup-Reads i.workspace_id caller) (λ e. tt)
          λ o known. chosen o known
      where
        chosen :
            (o : Option WorkspaceMember)
            → Optional (λ s. found (find_member i.workspace_id caller s)) s o
            → Ensures Admits s es (
                if is_there o
                then (attempt (Invitations.accept i.id) >>= λ _. pure i.workspace_id)
                else (Workspaces.add_member i.workspace_id caller i.role >>= λ _.
                    (Invitations.accept i.id >>= λ _. pure i.workspace_id)))
        chosen none known = enters
        chosen (some m) known = stays m (found_ok (find_member i.workspace_id caller s) m known)

  accept-Admits : Ensures Admits s es (accept_invitation c raw caller email)
  unfolding accept_invitation
  accept-Admits =
      Ensures-Reads Admits s es _ _ _
        (Reads-missing_as _ invitation_invalid _ (find_by_token_hash-Reads (c.hash_token raw)))
        (λ e. tt)
        λ i here.
          Ensures-if Admits s es (is_pending i.status) _ _
            (λ unused.
              Ensures-Reads Admits s es _ time_now
                (λ now.
                  if ltb i.expires_at now
                  then raise invitation_expired
                  else (if c.equal_fold email i.invited_email
                      then join i caller
                      else raise invitation_email_mismatch))
                time_now-Reads (λ e. tt)
                λ now clock.
                  Ensures-if Admits s es (ltb i.expires_at now) _ _
                    (λ _. Ensures-raise Admits s es _ tt)
                    λ live.
                      Ensures-if Admits s es (c.equal_fold email i.invited_email) _ _
                        (λ addressed.
                          join-Admits i
                            (here, unused, ap (ltb i.expires_at) (sym clock) ∙ live, addressed))
                        (λ _. Ensures-raise Admits s es _ tt))
            (λ _. Ensures-raise Admits s es _ tt)

-- When AcceptInvitation returns, the token's invitation was pending, not expired and addressed to
-- the caller's email, and it returns that invitation's workspace. Either the caller was a member
-- already, and the members are the same; or the caller was not, has been added with the role of the
-- invitation, and the invitation is no longer pending. Nothing is broadcast.
pub accept_admits :
    (c : Mail) (raw caller : ℕ) (email : String) (w v : World) (ws : ℕ)
    → accept_invitation c raw caller email w ≡ (ok ws, v)
    → (i : Invitation) × IsInvited c raw email w.db i
      × (ws ≡ i.workspace_id)
      × Admitted c raw caller i w.db v.db
      × (v.events ≡ w.events)
accept_admits c raw caller email w v ws done =
    subst (λ x. Admits c raw caller email w.db w.events x.0 x.1.db x.1.events) done
      ((accept-Admits c raw caller email w.db w.events).at w refl refl)

refused :
    (c : Mail) (raw caller : ℕ) (email : String) (v : World)
    → ((n : ℕ) → v.outage n ≡ false)
    → IsUsedUp c raw v.db
    → ((accept_invitation c raw caller email v).0 ≡ err invitation_invalid)
      × ((accept_invitation c raw caller email v).1.db ≡ v.db)
unfolding accept_invitation missing_as query Invitations.find_by_token_hash
refused c raw caller email v up (i, here, used) = ground (arith, up v.tick, here, used)

same_some : (i j : Invitation) → some i ≡ some j → i ≡ j
same_some i j e = cc

not_both :
    (p : WorkspaceMember → Bool) (ms : List WorkspaceMember) (m : WorkspaceMember)
    → exists_row p ms ≡ false
    → find_row p ms ≡ some m
    → ⊥
not_both p [] m h f = absurd (cc)
not_both p (x ∷ ms) m h f = ground (arith, not_both p ms m)

-- An invitation admits one: when AcceptInvitation has returned for a caller who was not a member of
-- the invitation's workspace, then it answers any second caller of the same token with
-- ErrInvitationInvalid and leaves the tables as they are. The condition is that no call of the
-- driver fails in that second call.
pub accept_once :
    (c : Mail) (raw caller second : ℕ) (email other : String) (i : Invitation) (w v : World)
    (ws : ℕ)
    → find_by_hash (c.hash_token raw) w.db ≡ some i
    → exists_row (is_member_row i.workspace_id caller) w.db.workspace_members ≡ false
    → accept_invitation c raw caller email w ≡ (ok ws, v)
    → ((n : ℕ) → v.outage n ≡ false)
    → ((accept_invitation c raw second other v).0 ≡ err invitation_invalid)
      × ((accept_invitation c raw second other v).1.db ≡ v.db)
accept_once c raw caller second email other i w v ws this stranger done up =
    let (j, invited, _, admitted, _) = accept_admits c raw caller email w v ws done in
    elim admitted [
      | inl ((m, here), _) ↦ absurd (
          not_both (is_member_row j.workspace_id caller) w.db.workspace_members m
            (subst
              (λ x. exists_row (is_member_row x.workspace_id caller) w.db.workspace_members ≡ false)
              (same_some i j (sym this ∙ invited.0)) stranger)
            here)
      | inr (_, _, used) ↦ refused c raw second other v up used
    ]
