-- ===== src/Repo/Invitations/Effects.antt =====
-- What the methods of the invitation repository tell and do.
use docflow_core.Prelude.{ℕ, ◌≡◌, true, String, some, List, exists_row, arith}
use docflow_core.Model.Error.{driver}
use docflow_core.Model.Store.{Store, BoardEvent, err}
use docflow_core.Exec.{found}
use docflow_core.Model.{Role}
use docflow_core.Exec.Reads.{Reads, Reads-query, Reads-weaken}
use docflow_core.Exec.Ensures.{Ensures, Outcome, Outcome-affected, Wrote}
use docflow_core.Repo.Boards.Lookups.{found_ok}
use docflow_core.Repo.Invitations
use docflow_core.Repo.Invitations.{
  find_by_hash, with_accepted, is_pending_for, insert_invitation, is_live, invitation_row,
  with_invitation,
}
use docflow_core.Repo.Statement.Effects.{affected-Wrote}

pub find_by_token_hash-Reads :
    (hash : ℕ) → Reads (λ s i. find_by_hash hash s ≡ some i) (Invitations.find_by_token_hash hash)
unfolding Invitations.find_by_token_hash
find_by_token_hash-Reads hash =
    Reads-weaken _ _ _ (λ s i e. found_ok (find_by_hash hash s) i e)
      (Reads-query (λ s. found (find_by_hash hash s)))

pub accept-Wrote :
    (s : Store) (es : List BoardEvent) (id : ℕ)
    → Ensures
        (Outcome s es (Wrote (with_accepted id s) (λ _. Unit {0}) es))
        s
        es
        (Invitations.accept id)
unfolding Invitations.accept
accept-Wrote s es id = Outcome-affected _ s es _ (affected-Wrote s es _ (with_accepted id s))

-- The partial unique index counts what has expired.
pub insert_invitation-blocked :
    (workspace : ℕ) (email : String) (hash inviter : ℕ) (role : Role) (expires_at : ℕ) (s : Store)
    → exists_row (is_pending_for workspace email) s.invitations ≡ true
    → insert_invitation workspace email hash inviter role expires_at s ≡ (err driver, s)
unfolding insert_invitation
insert_invitation-blocked workspace email hash inviter role expires_at s h = ground arith
