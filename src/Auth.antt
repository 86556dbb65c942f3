-- ===== src/Auth.antt =====
-- api/auth.py and the tokens of security.py: `sign_in`, `create_access_token`, `get_current_user`.
-- The library for tokens and the one for password hashes are parameters, as are the methods of
-- Python's `str`. Times are in seconds.
pub mod Tokens
use package.text.Mathlib.Text.{◌==◌ as str_eq}
use runscope.Prelude.{
  ℕ, ◌+◌, ◌*◌, String, List, [], ◌∷◌, Option, none, some, Bool, true, false, not, ◌==◌, first_row,
  if◌then◌else◌,
}
use runscope.Models.{
  Uuid, Timestamp, Json, Dict, Role, User, uuid, number, text, viewer, researcher, administrator,
}
use runscope.Models.Store.{Db, Settings, Result, ok, err, app, runtime_error}
use runscope.Tags.{StrMethods}
use runscope.Worker.{item}

-- jwt.encode(payload, secret), and jwt.decode(token, secret, issuer) at a time: none is an
-- InvalidTokenError.
pub record Jwt (Token : Type 0) : Type 0 where
  pub encode : Dict → String → Token
  pub decode : Timestamp → Token → String → String → Option Dict

-- role.value
abbrev pub role_value : Role → String
role_value viewer = "viewer"
role_value researcher = "researcher"
role_value administrator = "administrator"

abbrev pub claims : Settings → Timestamp → User → Dict
claims settings now user =
    ("sub", uuid user.id)
    ∷ ("role", text (role_value user.role))
    ∷ ("iss", text settings.jwt_issuer)
    ∷ ("iat", number now)
    ∷ ("exp", number (now + settings.access_token_minutes * 60))
    ∷ []

pub record SignInRequest : Type 0 where
  pub email : String
  pub password : String

pub record TokenResponse (Token : Type 0) : Type 0 where
  pub access_token : Token
  pub expires_in : ℕ
  pub user : User

-- The Authorization header.
pub record Credentials (Token : Type 0) : Type 0 where
  pub scheme : String
  pub credentials : Token

-- UUID(payload["sub"]): the exceptions that are caught become a 401.
abbrev pub subject : Option Json → Result Uuid
subject none = app "invalid_access_token" 401
subject (some (uuid id)) = ok id
subject (some (text s)) = app "invalid_access_token" 401
subject (some _) = err (runtime_error "AttributeError")

abbrev pub payload_or_raise : Option Dict → Result Uuid
payload_or_raise none = app "invalid_access_token" 401
payload_or_raise (some payload) = subject (item "sub" payload)

abbrev pub user_or_raise : Option User → Result User
user_or_raise none = app "invalid_access_token" 401
user_or_raise (some user) = ok user

abbrev pub user_of : Result Uuid → Db → Result User
user_of (err e) db = err e
user_of (ok id) db = user_or_raise (first_row (λ (u : User). u.id == id) db.users)

module _ (str : StrMethods) where
  open str use {strip, lower}

  unfoldable pub normalize_email : String → String
  normalize_email email = lower (strip email)

  module _ {Token : Type 0} (jwt : Jwt Token) (settings : Settings) (now : Timestamp) where
    unfoldable pub create_access_token : User → Token × ℕ
    create_access_token user = (
      jwt.encode (claims settings now user) settings.jwt_secret,
      settings.access_token_minutes * 60,
    )

    abbrev pub bearer : Credentials Token → Db → Result User
    bearer c db =
        if not (str_eq (lower c.scheme) "bearer")
        then app "authentication_required" 401
        else user_of
            (payload_or_raise
              (jwt.decode now c.credentials settings.jwt_secret settings.jwt_issuer))
            db

    unfoldable pub get_current_user : Option (Credentials Token) → Db → Result User
    get_current_user none db = app "authentication_required" 401
    get_current_user (some c) db = bearer c db

    -- password_hasher.verify: none where it raises, for a text that is no hash
    module _ (verify_password : String → String → Option Bool) where
      -- By what the password check says.
      unfoldable pub sign_in_checked : User → Option Bool → Result (TokenResponse Token)
      unfolding create_access_token
      sign_in_checked user none = err (runtime_error "UnknownHashError")
      sign_in_checked user (some false) = app "invalid_credentials" 401
      sign_in_checked user (some true) =
          let (token, expires_in) = create_access_token user in
          ok (record { access_token = token; expires_in = expires_in; user = user })

      unfoldable pub sign_in_found : SignInRequest → Option User → Result (TokenResponse Token)
      unfolding sign_in_checked
      sign_in_found body none = app "invalid_credentials" 401
      sign_in_found body (some user) =
          sign_in_checked user (verify_password body.password user.password_hash)

      unfoldable pub sign_in : SignInRequest → Db → Result (TokenResponse Token)
      unfolding sign_in_found normalize_email
      sign_in body db =
          sign_in_found body
            (first_row (λ (u : User). str_eq u.email (normalize_email body.email)) db.users)
