-- ===== src/Tests/Signing.antt =====
-- The theorem on tokens at a concrete library: a token is its claims with the secret.
use package.text.Mathlib.Text.{◌==◌ as str_eq}
use package.text.Mathlib.TextPositions.{eq_refl}
use runscope.Prelude.{
  ◌+◌, ◌*◌, ◌≡◌, refl, String, Option, none, some, Bool, true, false, not, ◌&&◌, ltb, leb,
  first_row, if◌then◌else◌, arith,
}
use runscope.Models.{Timestamp, Dict, Json, number, text, User, researcher, running}
use runscope.Models.Store.{ok, app}
use runscope.Tags.{StrMethods}
use runscope.Worker.{item}
use runscope.Auth.{Jwt, SignInRequest, TokenResponse, claims, get_current_user, sign_in}
use runscope.Auth.Tokens.{Signs, SignedIn, sign_in-get_current_user}
use runscope.Tests.Sample.{sample, settings}

abbrev same_text : Option Json → String → Bool
same_text (some (text s)) t = str_eq s t
same_text _ t = false

abbrev reached : Option Json → Timestamp → Bool
reached (some (number n)) now = leb n now
reached _ now = false

abbrev jwt : Jwt (Dict × String)
jwt = record {
  encode = λ payload secret. (payload, secret);
  decode = λ now token secret issuer.
      if str_eq token.1 secret
        && (same_text (item "iss" token.0) issuer
            && (reached (item "iat" token.0) now && not (reached (item "exp" token.0) now)))
      then some token.0
      else none;
}

jwt-Signs : Signs jwt
jwt-Signs = record {
  accepts = λ payload secret issuer now iat exp iss issued expiry start early.
      rw (iss, issued, expiry) (ground (arith, eq_refl secret, eq_refl issuer, start, early));
  expires = λ payload secret issuer now exp expiry over. ground (arith, expiry, over);
}

abbrev str : StrMethods
str = record { strip = λ s. s; lower = λ s. s; len = λ s. 0 }

abbrev verify : String → String → Option Bool
verify password hash = some true

abbrev body : SignInRequest
body = record { email = "r@runscope.dev"; password = "ResearcherDemo123!" }

abbrev response : User → TokenResponse (Dict × String)
response user = record {
  access_token = (claims settings 1000 user, "secret");
  expires_in = 1800;
  user = user;
}

sign_in-get_current_user_example :
    let db = sample running in
    let user : User = record {
      id = 1;
      email = "r@runscope.dev";
      password_hash = "";
      role = researcher;
    } in
    SignedIn jwt jwt-Signs str settings verify 1000 body db (response user)
    × (get_current_user str jwt settings 2799
          (some record { scheme = "bearer"; credentials = (claims settings 1000 user, "secret") })
          db
        ≡ (if ltb 2799 (1000 + 30 * 60) then ok user else app "invalid_access_token" 401))
unfolding sign_in first_row
sign_in-get_current_user_example =
    let user : User = record {
      id = 1;
      email = "r@runscope.dev";
      password_hash = "";
      role = researcher;
    } in
    sign_in-get_current_user jwt jwt-Signs str settings verify 1000 body (sample running)
      (response user) 2799 "bearer" (sample running) user refl (omega arith) refl refl
