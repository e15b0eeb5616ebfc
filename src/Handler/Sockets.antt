-- ===== src/Handler/Sockets.antt =====
-- internal/handlers/ws.go: who may open a WebSocket, up to the upgrade of the connection.
pub mod Tokens
use docflow_core.Prelude.{ℕ, String, Option, none, some, same_text, if◌then◌else◌}
use docflow_core.Middleware.Auth.{Jwt, Admission, Refusal, is_document, is_access, validate_token}

module _ {T : Type 0} (jwt : Jwt T) where
  -- HandleDocumentWS, with the `token` of the query
  unfoldable pub handle_document_ws : String → Option T → String → ℕ → Admission
  unfolding validate_token
  handle_document_ws document none secret now = Admission.refused Refusal.missing_token
  handle_document_ws document (some token) secret now =
      validate_token jwt token secret now Refusal.invalid_token λ c.
        if is_document c.token_type
        then (if same_text c.document_id document
            then Admission.admitted c
            else Admission.refused Refusal.board_access_denied)
        else Admission.refused Refusal.invalid_token

  -- HandleBoardWS, with the `token` of the query; the board is not looked at
  unfoldable pub handle_board_ws : Option T → String → ℕ → Admission
  unfolding validate_token
  handle_board_ws none secret now = Admission.refused Refusal.missing_token
  handle_board_ws (some token) secret now =
      validate_token jwt token secret now Refusal.invalid_token λ c.
        if is_access c.token_type
        then Admission.admitted c
        else Admission.refused Refusal.invalid_token
