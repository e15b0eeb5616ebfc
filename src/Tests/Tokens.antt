-- ===== src/Tests/Tokens.antt =====
-- Tokens that carry their claims in the clear, and a secret that counts by its length.
use Prim.Native.String.{count}
use docflow_core.Prelude.{
  ◌==◌, ==_refl, lt→ltb, ◌≡◌, refl, ◌==◌, String, some, ltb, if◌then◌else◌, arith,
}
use docflow_core.Middleware.Auth.{
  Jwt, Claims, Parsed, Admission, Header, generate_access_token, generate_document_token, auth,
}
use docflow_core.Handler.Sockets.{handle_document_ws, handle_board_ws}
use docflow_core.Handler.Sockets.Tokens.{
  JwtLaws, IsRefused, document_token_scoped, access_token_admits,
}

abbrev clear : Jwt (Claims × String)
clear = record {
  sign = λ c k. (c, k);
  parse = λ (c, k) l now.
      if count k == count l
      then (if ltb now c.expires_at then Parsed.valid c else Parsed.expired)
      else Parsed.malformed;
}

clear-JwtLaws : JwtLaws clear
clear-JwtLaws = record {
  sound = λ c d k l now h. ground (arith, h);
  fresh = λ c k now h. ground (arith, ==_refl (count k), lt→ltb now c.expires_at h);
  late = λ c k now h. ground (arith, ==_refl (count k), h);
}

abbrev scoped : Claims × String
scoped = generate_document_token clear "ann" "notes" "red" "s" 9

document_token_scoped_example :
    IsRefused (auth clear (Header.parts "Bearer" scoped) "s" 5)
    × IsRefused (handle_board_ws clear (some scoped) "s" 5)
    × IsRefused (handle_document_ws clear "plans" (some scoped) "s" 5)
document_token_scoped_example =
    document_token_scoped clear clear-JwtLaws "ann" "notes" "red" "s" 9 "plans" "s" 5 refl

abbrev general : Claims × String
general = generate_access_token clear "ann" "ann@a" "Ann" "s" 9

access_token_admits_example :
    ((c : Claims) × (auth clear (Header.parts "Bearer" general) "s" 5 ≡ Admission.admitted c)
      × (c.user_id ≡ "ann")
      × (c.email ≡ "ann@a")
      × (c.name ≡ "Ann"))
    × IsRefused (handle_document_ws clear "plans" (some general) "s" 5)
access_token_admits_example =
    access_token_admits clear clear-JwtLaws "ann" "ann@a" "Ann" "s" 9 "plans" "s" 5 (omega arith)
