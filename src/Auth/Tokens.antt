-- ===== src/Auth/Tokens.antt =====
-- api/auth.py and security.py: the token that signing in returns is accepted until it expires.
use package.text.Mathlib.Text.{◌==◌ as str_eq}
use runscope.Prelude.{
  ℕ, ◌+◌, ◌*◌, ◌≤◌, ◌<◌, ◌≡◌, refl, ap, ◌∙◌, subst, String, Option, none, some, Bool, true, false,
  ◌==◌, ltb, first_row, Bool-cases, inl, inr, if◌then◌else◌, arith,
}
use runscope.Models.{Timestamp, Dict, User, number, text}
use runscope.Models.Store.{Db, Settings, Result, ok, err, app}
use runscope.Tags.{StrMethods}
use runscope.Worker.{item}
use runscope.Auth.{
  Jwt, claims, SignInRequest, TokenResponse, user_or_raise, normalize_email, create_access_token,
  get_current_user, sign_in_checked, sign_in_found, sign_in,
}

-- What the library documents of tokens: one that was signed with the secret, by the issuer and not
-- later than now, decodes to its claims before it expires, and is refused from then on.
pub record Signs {Token : Type 0} (jwt : Jwt Token) : Type 0 where
  pub accepts :
      (payload : Dict) (secret issuer : String) (now iat exp : ℕ)
      → item "iss" payload ≡ some (text issuer)
      → item "iat" payload ≡ some (number iat)
      → item "exp" payload ≡ some (number exp)
      → iat ≤ now
      → now < exp
      → jwt.decode now (jwt.encode payload secret) secret issuer ≡ some payload
  pub expires :
      (payload : Dict) (secret issuer : String) (now exp : ℕ)
      → item "exp" payload ≡ some (number exp)
      → exp ≤ now
      → jwt.decode now (jwt.encode payload secret) secret issuer ≡ none

abbrev pub Returns : {A : Type 0} → (A → Type 0) → Result A → Type 0
Returns P (ok a) = P a
Returns P (err e) = Unit {0}

module _ {Token : Type 0} (jwt : Jwt Token) (laws : Signs jwt) (str : StrMethods)
    (settings : Settings) where
  -- Who has signed in: a user with the email and the password, who got a token of these claims.
  abbrev pub SignedIn :
      (String → String → Option Bool)
      → Timestamp
      → SignInRequest
      → Db
      → TokenResponse Token
      → Type 0
  SignedIn verify now body db response =
      (first_row (λ (u : User). str_eq u.email (normalize_email str body.email)) db.users
        ≡ some response.user)
      × (verify body.password response.user.password_hash ≡ some true)
      × (response.access_token ≡ jwt.encode (claims settings now response.user) settings.jwt_secret)
      × (response.expires_in ≡ settings.access_token_minutes * 60)

  decoded :
      (now later : Timestamp) (user : User)
      → now ≤ later
      → jwt.decode later
          (jwt.encode (claims settings now user) settings.jwt_secret)
          settings.jwt_secret
          settings.jwt_issuer
        ≡ (if ltb later (now + settings.access_token_minutes * 60)
            then some (claims settings now user)
            else none)
  decoded now later user start =
      let until = now + settings.access_token_minutes * 60 in
      elim (Bool-cases (ltb later until)) [
        | inl early ↦ rw early (
            laws.accepts (claims settings now user) settings.jwt_secret settings.jwt_issuer later
              now until refl refl refl start (ground (arith, early)))
        | inr over ↦ rw over (
            laws.expires (claims settings now user) settings.jwt_secret settings.jwt_issuer later
              until refl (ground (arith, over)))
      ]

  -- A token of these claims names the user until it expires.
  token-user :
      (now later : Timestamp) (user : User) (scheme : String) (db : Db)
      → now ≤ later
      → str.lower scheme ≡ "bearer"
      → get_current_user str jwt settings later
          (some record {
            scheme = scheme;
            credentials = jwt.encode (claims settings now user) settings.jwt_secret;
          })
          db
        ≡ (if ltb later (now + settings.access_token_minutes * 60)
            then user_or_raise (first_row (λ (u : User). u.id == user.id) db.users)
            else app "invalid_access_token" 401)
  unfolding get_current_user
  token-user now later user scheme db start h =
      rw (h, decoded now later user start)
        (elim (Bool-cases (ltb later (now + settings.access_token_minutes * 60))) [
          | inl early ↦ rw early refl
          | inr over ↦ rw over refl
        ])

  module _ (verify : String → String → Option Bool) (now : Timestamp) (body : SignInRequest)
      (db : Db) where
    checked-SignedIn :
        (user : User) (verdict : Option Bool)
        → first_row (λ (u : User). str_eq u.email (normalize_email str body.email)) db.users
          ≡ some user
        → verify body.password user.password_hash ≡ verdict
        → Returns
            (SignedIn verify now body db)
            (sign_in_checked str jwt settings now verify user verdict)
    unfolding sign_in_checked create_access_token
    checked-SignedIn user none found says = tt
    checked-SignedIn user (some false) found says = tt
    checked-SignedIn user (some true) found says = (found, says, refl, refl)

    found-SignedIn :
        (row : Option User)
        → first_row (λ (u : User). str_eq u.email (normalize_email str body.email)) db.users ≡ row
        → Returns (SignedIn verify now body db) (sign_in_found str jwt settings now verify body row)
    unfolding sign_in_found
    found-SignedIn none found = tt
    found-SignedIn (some user) found = checked-SignedIn user _ found refl

    sign_in-SignedIn :
        Returns (SignedIn verify now body db) (sign_in str jwt settings now verify body db)
    unfolding sign_in
    sign_in-SignedIn = found-SignedIn _ refl

    -- Who signs in is the user with the normalised email, by a password that its hash accepts. From
    -- then on, in a database that still has this user's row, the token names that row until it
    -- expires, access_token_minutes later, and is refused as invalid afterwards.
    pub sign_in-get_current_user :
        (response : TokenResponse Token) (later : Timestamp) (scheme : String) (db' : Db)
        (user : User)
        → sign_in str jwt settings now verify body db ≡ ok response
        → now ≤ later
        → str.lower scheme ≡ "bearer"
        → first_row (λ (u : User). u.id == response.user.id) db'.users ≡ some user
        → SignedIn verify now body db response
          × (get_current_user str jwt settings later
                (some record { scheme = scheme; credentials = response.access_token })
                db'
              ≡ (if ltb later (now + settings.access_token_minutes * 60)
                  then ok user
                  else app "invalid_access_token" 401))
    sign_in-get_current_user response later scheme db' user answer start h there =
        let signed : SignedIn verify now body db response =
          subst (Returns (SignedIn verify now body db)) answer sign_in-SignedIn in
        (
          signed,
          rw signed.2 (
              token-user now later response.user scheme db' start h
              ∙ ap
                  (λ o.
                    if ltb later (now + settings.access_token_minutes * 60)
                    then user_or_raise o
                    else app "invalid_access_token" 401)
                  there),
        )
