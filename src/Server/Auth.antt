-- ===== src/Server/Auth.antt =====
-- The login of auth.ts: the states handed to the OAuth provider, the callback, the development login
-- and the session. The provider's answers are arguments.
pub mod Token
pub mod Roundtrip
pub mod States
use snow_brawl_game.Base.{
  ℕ, zero, suc, ◌+◌, ◌*◌, Bool, true, false, not, ◌&&◌, ◌||◌, List, [], ◌∷◌, ◌++◌, Option, none,
  some, ltb, if◌then◌else◌, or_else, take, map, get_elem?, ◌==◌,
}
use Token.{Payload, Runtime, create_jwt, verify_jwt}
use snow_brawl_game.Base.Text.{Text, utf16, is_empty, Text-discrete}
use snow_brawl_game.Base.Dict

-- What the environment variables give; a missing one is the empty string.
pub record OauthConfig : Type 0 where
  pub client_id : Text
  pub client_secret : Text

-- The table `pendingStates`.
abbrev pub PendingLogins : Type 0
PendingLogins = List (Text × ℕ)

-- A request to the provider: `fetch` throws, the status is not ok, or it brings a body.
pub data Fetched {ℓ} (A : Type ℓ) : Type ℓ where
  throws : Fetched A
  refused : Fetched A
  answers : A → Fetched A

pub record UserInfo : Type 0 where
  pub username : Text
  pub id : Text
  pub name : Option Text
  pub trust_level : Option ℕ

-- The responses: errors by status, redirections with the `error` in the query, the redirection that
-- sets or clears the cookie of a session of 24 hours, and the answer to `/auth/me`; `crashes` stands for
-- a handler that throws.
pub data Response (V : Type 0) : Type 0 where
  not_configured : Response V
  forbidden : Response V
  crashes : Response V
  to_provider : Text → Response V
  home_with_error : Text → Response V
  home_with_token : Text → Response V
  home_without_token : Response V
  me : Option V → Response V

unfoldable pub is_oauth_configured : OauthConfig → Bool
is_oauth_configured config = not (is_empty config.client_id) && not (is_empty config.client_secret)

-- The sweep of `setInterval`: ten minutes.
unfoldable pub sweep_states : ℕ → PendingLogins → PendingLogins
sweep_states now [] = []
sweep_states now ((state, ts) ∷ pending) =
    let rest = sweep_states now pending in
    if ltb (ts + 10 * 60 * 1000) now then rest else (state, ts) ∷ rest

-- `x || y` of a text that may be missing.
abbrev pub text_or : Option Text → Text → Text
text_or none d = d
text_or (some t) d = if is_empty t then d else t

unfoldable pub payload_of : UserInfo → Payload
payload_of user = record {
  sub = user.username;
  id = user.id;
  name = text_or user.name user.username;
  trust_level = or_else user.trust_level 0;
  dev_account = false;
}

-- The test of the state: what is pending after it, or `none` when the request is turned away.
unfoldable pub take_state : Option Text → Option Text → PendingLogins → Option PendingLogins
take_state none state pending = none
take_state (some code) none pending = none
take_state (some code) (some state) pending =
    if is_empty code || is_empty state || not (Dict.has Text-discrete state pending)
    then none
    else some (Dict.delete Text-discrete state pending)

-- What is left of a text after a prefix.
unfoldable pub after_prefix : Text → Text → Option Text
after_prefix [] s = some s
after_prefix (p ∷ ps) [] = none
after_prefix (p ∷ ps) (c ∷ s) = if p == c then after_prefix ps s else none

-- `[^;]+`, which may be empty here.
unfoldable pub until_semicolon : Text → Text
until_semicolon [] = []
until_semicolon (c ∷ s) = if c == 59 then [] else c ∷ until_semicolon s

-- `cookie.match(/auth_token=([^;]+)/)`: the leftmost match.
unfoldable pub cookie_token : Text → Option Text
unfolding after_prefix until_semicolon
cookie_token [] = none
cookie_token (c ∷ s) =
    let later = cookie_token s in
    elim (after_prefix (utf16 "auth_token=") (c ∷ s)) [
      | none ↦ later
      | some rest ↦ if is_empty (until_semicolon rest) then later else some (until_semicolon rest)
    ]

-- The names of `handleDevLogin`.
abbrev pub random_names : List Text
random_names = map utf16 (
    "SnowWarrior" ∷ "IceKnight" ∷ "FrostMage" ∷ "WinterHero" ∷ "ChillMaster" ∷ "SnowNinja"
    ∷ "IceWizard" ∷ "FrostGuard" ∷ "WinterStar" ∷ "ColdFighter" ∷ "SnowHunter" ∷ "IceDragon"
    ∷ "FrostLord" ∷ "WinterKing" ∷ "ChillHero" ∷ [])

-- The payload of a development account.
unfoldable pub dev_payload : ℕ → Text → Payload
dev_payload pick uuid =
    let digits = take 8 uuid in
    let name = or_else (get_elem? random_names pick) (utf16 "undefined") ++ digits in
    record {
      sub = name;
      id = utf16 "dev_" ++ digits;
      name = name;
      trust_level = 1;
      dev_account = true;
    }

module _ {V : Type 0} where
  -- `handleLogin`, with the state that `randomUUID` draws.
  unfoldable pub handle_login : OauthConfig → ℕ → Text → PendingLogins → Response V × PendingLogins
  unfolding is_oauth_configured
  handle_login config now state pending =
      if is_oauth_configured config
      then (to_provider state, Dict.set Text-discrete state now pending)
      else (not_configured, pending)

  abbrev pub handle_logout : Response V
  handle_logout = home_without_token

module _ {V : Type 0} (runtime : Runtime V) (jwt_secret : Text) (now : ℕ) where
  -- What follows the test of the state in `handleCallback`.
  unfoldable pub exchange : Fetched Text → (Text → Fetched UserInfo) → Response V
  unfolding payload_of create_jwt
  exchange throws user = home_with_error (utf16 "callback_failed")
  exchange refused user = home_with_error (utf16 "token_failed")
  exchange (answers token) user = elim (user token) [
    | throws ↦ home_with_error (utf16 "callback_failed")
    | refused ↦ home_with_error (utf16 "userinfo_failed")
    | answers info ↦ elim (create_jwt runtime jwt_secret now (payload_of info)) [
      | none ↦ home_with_error (utf16 "callback_failed")
      | some jwt ↦ home_with_token jwt
    ]
  ]

  unfoldable pub handle_callback :
      Fetched Text
      → (Text → Fetched UserInfo)
      → Option Text
      → Option Text
      → PendingLogins
      → Response V × PendingLogins
  unfolding take_state exchange
  handle_callback token user code state pending = elim (take_state code state pending) [
    | none ↦ (home_with_error (utf16 "invalid_state"), pending)
    | some rest ↦ (exchange token user, rest)
  ]

  unfoldable pub user_from_cookie : Text → Option V
  unfolding cookie_token verify_jwt
  user_from_cookie cookie = elim (cookie_token cookie) [
    | none ↦ none
    | some token ↦ verify_jwt runtime jwt_secret now token
  ]

  unfoldable pub handle_me : Text → Response V
  unfolding user_from_cookie
  handle_me cookie = me (user_from_cookie cookie)

  -- `handleDevLogin`, with the place that the random number picks and the id that is drawn.
  unfoldable pub handle_dev_login : OauthConfig → ℕ → Text → Option Text → Response V
  unfolding dev_payload create_jwt
  handle_dev_login config pick uuid secret = elim secret [
    | none ↦ forbidden
    | some given ↦ elim (Text-discrete given config.client_secret) [
      | no _ ↦ forbidden
      | yes _ ↦ elim (create_jwt runtime jwt_secret now (dev_payload pick uuid)) [
        | none ↦ crashes
        | some jwt ↦ home_with_token jwt
      ]
    ]
  ]

-- What happens to the pending states.
pub data LoginAction : Type 0 where
  logs_in : ℕ → Text → LoginAction
  comes_back : Option Text → Option Text → LoginAction
  expires : ℕ → LoginAction

-- The provider's answers do not touch the table.
unfoldable pub login_step : OauthConfig → LoginAction → PendingLogins → PendingLogins
unfolding handle_login take_state sweep_states
login_step config (logs_in now state) pending =
    (handle_login {V = Unit {0}} config now state pending).1
login_step config (comes_back code state) pending = or_else (take_state code state pending) pending
login_step config (expires now) pending = sweep_states now pending

unfoldable pub login_run : OauthConfig → List LoginAction → PendingLogins → PendingLogins
unfolding login_step
login_run config [] pending = pending
login_run config (a ∷ actions) pending = login_run config actions (login_step config a pending)
