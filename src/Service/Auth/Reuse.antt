-- ===== src/Service/Auth/Reuse.antt =====
-- Refresh in internal/services/auth.go: a token that has been used once.
use docflow_core.Prelude.{
  ℕ, ◌+◌, ◌≡◌, refl, sym, ◌==◌, true, false, some, List, [], ◌∷◌, update_rows, ltb, if◌then◌else◌,
  arith, Every,
}
use docflow_core.Model.Store.{Store, World, BoardEvent, ok, err}
use docflow_core.Exec.{raise, query, execute, found, missing_as}
use mathlib.Core.Path.{subst}
use docflow_core.Prelude.{find_row_holds, find_row-update, find_row-insert}
use docflow_core.Model.{RefreshToken, User}
use docflow_core.Model.Error.{token_theft_detected, invalid_refresh_token, refresh_token_expired}
use docflow_core.Exec.{attempt, time_now}
use docflow_core.Exec.Reads.{Reads, Reads-query, Reads-weaken, Reads-missing_as, time_now-Reads}
use docflow_core.Exec.Ensures.{
  Post, Ensures, Ensures-Reads, Ensures-if, Ensures-execute_bind, Ensures-raise,
}
use docflow_core.Repo.Boards.Lookups.{found_ok}
use docflow_core.Repo.Users.{find_user, has_user_id}
use docflow_core.Repo.RefreshTokens
use docflow_core.Repo.RefreshTokens.{
  find_token, has_hash, insert_token, revoke_row, revoked_where, is_live_of, with_new_token,
}
use docflow_core.Service.Auth.Issue.{find_user-Reads, issue-Ensures}
use docflow_core.Service.Auth.{Crypto, AuthResponse, refresh, rotate, issue_token_pair}

-- The token is known, of the user, and revoked.
abbrev pub Spent : Crypto → ℕ → ℕ → Store → Type 0
Spent c raw user s =
    (t : RefreshToken) × (find_token (c.hash_token raw) s ≡ some t)
    × (t.revoked ≡ true)
    × (t.user_id ≡ user)

find_token-Reads :
    (hash : ℕ) → Reads (λ s t. find_token hash s ≡ some t) (RefreshTokens.find_by_hash hash)
unfolding RefreshTokens.find_by_hash
find_token-Reads hash =
    Reads-weaken _ _ _ (λ s t e. found_ok (find_token hash s) t e)
      (Reads-query (λ s. found (find_token hash s)))

owner_of :
    (t : RefreshToken) (user : User) (s : Store)
    → find_user t.user_id s ≡ some user
    → t.user_id ≡ user.id
owner_of t user s h = ground (arith, find_row_holds (has_user_id t.user_id) s.users user h)

module _ (c : Crypto) (raw : ℕ) where
  revoked_row :
      (t : RefreshToken) (s : Store)
      → find_token (c.hash_token raw) s ≡ some t
      → find_token (c.hash_token raw) (revoked_where (λ x. x.id == t.id) s) ≡ some (revoke_row t)
  revoked_row t s here = ground (
    arith,
    find_row-update (has_hash (c.hash_token raw)) (λ x. x.id == t.id) revoke_row s.refresh_tokens t
        (λ x. refl) here,
  )

  -- Once the method has returned, the token that it was given is spent.
  abbrev Spends : Post AuthResponse
  Spends (ok r) s es = Spent c raw r.user.id s
  Spends (err e) s es = Unit {0}

  issue-Spends :
      (user : User) (s : Store) (es : List BoardEvent)
      → Spent c raw user.id s
      → Ensures Spends s es (issue_token_pair c user)
  issue-Spends user s es (t, here, spent, same) =
      issue-Ensures c Spends user s es (λ e. tt)
        λ access new now.
          (t, find_row-insert (has_hash (c.hash_token raw)) _ s.refresh_tokens t here, spent, same)

  rotate-Spends :
      (t : RefreshToken) (s : Store) (es : List BoardEvent)
      → find_token (c.hash_token raw) s ≡ some t
      → Ensures Spends s es (rotate c t)
  unfolding rotate RefreshTokens.revoke
  rotate-Spends t s es here =
      Ensures-execute_bind _ s es _ _ tt (λ e h. tt)
        λ _ _.
          let s' = revoked_where (λ x. x.id == t.id) s in
          Ensures-Reads _ s' es _ _ _ (find_user-Reads t.user_id) (λ e. tt)
            λ user found_it.
              issue-Spends user s' es
                (revoke_row t, revoked_row t s here, refl, owner_of t user s found_it)

  refresh-Spends : (s : Store) (es : List BoardEvent) → Ensures Spends s es (refresh c raw)
  unfolding refresh attempt
  refresh-Spends s es =
      Ensures-Reads _ s es _ _ _
        (Reads-missing_as _ invalid_refresh_token _ (find_token-Reads (c.hash_token raw))) (λ e. tt)
        λ t here.
          Ensures-if _ s es t.revoked _ _ (λ _. record { at = λ w p q. tt })
            (λ _.
              Ensures-Reads _ s es _ time_now
                (λ now. if ltb t.expires_at now then raise refresh_token_expired else rotate c t)
                time_now-Reads (λ e. tt)
                λ now _.
                  Ensures-if _ s es (ltb t.expires_at now) _ _ (λ _. Ensures-raise _ s es _ tt)
                    (λ _. rotate-Spends t s es here))

revoked_all :
    (user : ℕ) (ts : List RefreshToken)
    → Every (λ t. t.user_id ≡ user → t.revoked ≡ true) (update_rows (is_live_of user) revoke_row ts)
revoked_all user [] = tt
revoked_all user (t ∷ ts) = (ground arith, revoked_all user ts)

theft_detected :
    (c : Crypto) (raw user : ℕ) (v : World)
    → ((n : ℕ) → v.outage n ≡ false)
    → Spent c raw user v.db
    → ((refresh c raw v).0 ≡ err token_theft_detected)
      × ((refresh c raw v).1.db ≡ revoked_where (is_live_of user) v.db)
unfolding refresh missing_as attempt query execute RefreshTokens.find_by_hash
    RefreshTokens.revoke_all_for_user
theft_detected c raw user v up (t, here, spent, same) =
    ground (arith, up v.tick, up (v.tick + 1), here, spent, same)

-- When Refresh returns, the token that it was given can never be used again: the next Refresh with
-- it answers ErrTokenTheftDetected, and leaves every token of the user revoked, the one just issued
-- included. The condition is that no call of the driver fails in that next Refresh.
pub reuse_is_theft :
    (c : Crypto) (raw : ℕ) (w v : World) (r : AuthResponse)
    → refresh c raw w ≡ (ok r, v)
    → ((n : ℕ) → v.outage n ≡ false)
    → ((refresh c raw v).0 ≡ err token_theft_detected)
      × Every (λ t. t.user_id ≡ r.user.id → t.revoked ≡ true) (refresh c raw v).1.db.refresh_tokens
reuse_is_theft c raw w v r done up =
    let spent =
      subst (λ x. Spends c raw x.0 x.1.db x.1.events) done
        ((refresh-Spends c raw w.db w.events).at w refl refl) in
    let (theft, after) = theft_detected c raw r.user.id v up spent in
    (
      theft,
      subst (λ s. Every (λ t. t.user_id ≡ r.user.id → t.revoked ≡ true) s.refresh_tokens)
          (sym after) (revoked_all r.user.id v.db.refresh_tokens),
    )
