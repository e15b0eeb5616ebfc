-- ===== src/Handler/Sockets/Tokens.antt =====
-- internal/handlers/ws.go and internal/middleware/auth.go: what each kind of token opens.
use mathlib.Core.Path.{subst}
use docflow_core.Prelude.{sym, ℕ, ◌<◌, ◌≤◌, String, ◌≡◌, refl, some, same_text, false}
use docflow_core.Middleware.Auth.{
  access_claims, document_claims, Jwt, Claims, Parsed, Admission, Refusal, Header,
  generate_access_token, generate_document_token, validate_token, auth,
}
use docflow_core.Handler.Sockets.{handle_document_ws, handle_board_ws}

-- What the code relies on: a token that is accepted yields the claims that were signed, whichever
-- secret it is tried with; with its own secret it is accepted before it expires, and answered as
-- expired from then on.
pub record JwtLaws {T : Type 0} (jwt : Jwt T) : Type 0 where
  pub sound :
      (c d : Claims) (k l : String) (now : ℕ)
      → jwt.parse (jwt.sign c k) l now ≡ Parsed.valid d
      → d ≡ c
  pub fresh :
      (c : Claims) (k : String) (now : ℕ)
      → now < c.expires_at
      → jwt.parse (jwt.sign c k) k now ≡ Parsed.valid c
  pub late :
      (c : Claims) (k : String) (now : ℕ)
      → c.expires_at ≤ now
      → jwt.parse (jwt.sign c k) k now ≡ Parsed.expired

abbrev pub IsRefused : Admission → Type 0
IsRefused a = (r : Refusal) × (a ≡ Admission.refused r)

module _ {T : Type 0} (jwt : Jwt T) (laws : JwtLaws jwt) where
  IsRefused-claims :
      (c : Claims) (k l : String) (now : ℕ) (late : Refusal) (next : Claims → Admission)
      → IsRefused (next c)
      → IsRefused (validate_token jwt (jwt.sign c k) l now late next)
  unfolding validate_token
  IsRefused-claims c k l now late next h = parsed (jwt.parse (jwt.sign c k) l now) refl
    where
      parsed :
          (p : Parsed)
          → jwt.parse (jwt.sign c k) l now ≡ p
          → IsRefused (elim p [
            | Parsed.valid d ↦ next d
            | Parsed.expired ↦ Admission.refused late
            | Parsed.malformed ↦ Admission.refused Refusal.invalid_token
          ])
      parsed (Parsed.valid d) e = subst (λ x. IsRefused (next x)) (sym (laws.sound c d k l now e)) h
      parsed Parsed.expired e = (late, refl)
      parsed Parsed.malformed e = (Refusal.invalid_token, refl)

  -- A document token opens nothing but the room of its document, whichever secrets it is tried with
  -- and whenever: the protected routes, the rooms of boards and the room of any other document
  -- refuse it.
  pub document_token_scoped :
      (user scope color secret : String) (expires_at : ℕ) (other l : String) (now : ℕ)
      → same_text scope other ≡ false
      → let t = generate_document_token jwt user scope color secret expires_at in
        IsRefused (auth jwt (Header.parts "Bearer" t) l now)
        × IsRefused (handle_board_ws jwt (some t) l now)
        × IsRefused (handle_document_ws jwt other (some t) l now)
  unfolding generate_document_token auth handle_board_ws handle_document_ws
  document_token_scoped user scope color secret expires_at other l now differs =
      let c = document_claims user scope color expires_at in
      (
        IsRefused-claims c secret l now Refusal.token_expired _ (Refusal.invalid_token, refl),
        IsRefused-claims c secret l now Refusal.invalid_token _ (Refusal.invalid_token, refl),
        IsRefused-claims c secret l now Refusal.invalid_token _
            (Refusal.board_access_denied, rw (differs) refl),
      )

  accepted :
      (c : Claims) (k : String) (now : ℕ) (late : Refusal) (next : Claims → Admission)
      → now < c.expires_at
      → validate_token jwt (jwt.sign c k) k now late next ≡ next c
  unfolding validate_token
  accepted c k now late next before =
      subst (λ p. answer p ≡ next c) (sym (laws.fresh c k now before)) refl
    where
      answer : Parsed → Admission
      answer p = elim p [
        | Parsed.valid d ↦ next d
        | Parsed.expired ↦ Admission.refused late
        | Parsed.malformed ↦ Admission.refused Refusal.invalid_token
      ]

  -- Until it expires, an access token passes the middleware with the identity that it was issued
  -- for; and it opens no document room, whichever secret it is tried with.
  pub access_token_admits :
      (user email name secret : String) (expires_at : ℕ) (url l : String) (now : ℕ)
      → now < expires_at
      → let t = generate_access_token jwt user email name secret expires_at in
        ((c : Claims) × (auth jwt (Header.parts "Bearer" t) secret now ≡ Admission.admitted c)
          × (c.user_id ≡ user)
          × (c.email ≡ email)
          × (c.name ≡ name))
        × IsRefused (handle_document_ws jwt url (some t) l now)
  unfolding generate_access_token auth handle_document_ws
  access_token_admits user email name secret expires_at url l now before =
      let c = access_claims user email name expires_at in
      (
        (c, accepted c secret now Refusal.token_expired _ before, refl, refl, refl),
        IsRefused-claims c secret l now Refusal.invalid_token _ (Refusal.invalid_token, refl),
      )
