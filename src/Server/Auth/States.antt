-- ===== src/Server/Auth/States.antt =====
-- The pending states of auth.ts, over runs of logins and callbacks.
use snow_brawl_game.Base.{ℕ, ◌≡◌, refl, ◌≢◌, List, [], ◌∷◌, Option, none, some, arith, or_else}
use snow_brawl_game.Base.Text.{Text, utf16, Text-discrete}
use snow_brawl_game.Base.Dict
use snow_brawl_game.Server.Auth.Token.{Runtime}
use snow_brawl_game.Server.Auth.{
  OauthConfig, PendingLogins, Fetched, UserInfo, home_with_error, LoginAction, logs_in, comes_back,
  expires, handle_login, take_state, handle_callback, sweep_states, login_step, login_run,
}

-- No login draws the state.
abbrev pub NotDrawn : Text → List LoginAction → Type 0
NotDrawn state [] = Unit
NotDrawn state (logs_in now drawn ∷ actions) = (drawn ≢ state) × NotDrawn state actions
NotDrawn state (_ ∷ actions) = NotDrawn state actions

abbrev pub Unknown : Text → PendingLogins → Type 0
Unknown state pending = Dict.get Text-discrete state pending ≡ none

get-sweep_states :
    (now : ℕ) (state : Text) (pending : PendingLogins)
    → Unknown state pending
    → Unknown state (sweep_states now pending)
unfolding sweep_states Dict.get
get-sweep_states now state [] h = h
get-sweep_states now state ((j, ts) ∷ pending) h =
    ground (arith, get-sweep_states now state pending)

take_state-Unknown :
    (code given : Option Text) (state : Text) (pending : PendingLogins)
    → Unknown state pending
    → Unknown state (or_else (take_state code given pending) pending)
unfolding take_state
take_state-Unknown none given state pending h = h
take_state-Unknown (some code) none state pending h = h
take_state-Unknown (some code) (some given) state pending h =
    ground (arith, Dict.get-delete-none Text-discrete state given pending h)

login_run-Unknown :
    (config : OauthConfig) (actions : List LoginAction) (state : Text) (pending : PendingLogins)
    → NotDrawn state actions
    → Unknown state pending
    → Unknown state (login_run config actions pending)
unfolding login_run login_step handle_login
login_run-Unknown config [] state pending n h = h
login_run-Unknown config (logs_in now drawn ∷ actions) state pending (ne, n) h =
    login_run-Unknown config actions state (login_step config (logs_in now drawn) pending) n
      (ground (arith, Dict.get-set_ne Text-discrete drawn state now pending ne, h))
login_run-Unknown config (comes_back code given ∷ actions) state pending n h =
    login_run-Unknown config actions state (login_step config (comes_back code given) pending) n
      (take_state-Unknown code given state pending h)
login_run-Unknown config (expires now ∷ actions) state pending n h =
    login_run-Unknown config actions state (login_step config (expires now) pending) n
      (get-sweep_states now state pending h)

take_state-gone :
    (code : Text) (state : Text) (pending rest : PendingLogins)
    → Dict.Distinct Text-discrete pending
    → take_state (some code) (some state) pending ≡ some rest
    → Unknown state rest
unfolding take_state
take_state-gone code state pending rest d h =
    ground (arith, Dict.get-delete_self Text-discrete state pending d)

handle_callback-Unknown :
    {V : Type 0} (runtime : Runtime V) (secret : Text) (now : ℕ) (token : Fetched Text)
    (user : Text → Fetched UserInfo) (code : Option Text) (state : Text) (pending : PendingLogins)
    → Unknown state pending
    → handle_callback runtime secret now token user code (some state) pending
      ≡ (home_with_error (utf16 "invalid_state"), pending)
unfolding handle_callback take_state
handle_callback-Unknown runtime secret now token user none state pending h = refl
handle_callback-Unknown runtime secret now token user (some code) state pending h =
    ground (arith, h)

-- Suppose a callback got past the test of its state, while no state was pending twice. After every
-- run of logins that do not draw that state again, of callbacks and of sweeps, every callback with the
-- state is turned away with invalid_state, whatever its code and whatever the provider says, and
-- changes nothing.
pub handle_callback-once :
    (config : OauthConfig) (code state : Text) (pending rest : PendingLogins)
    (actions : List LoginAction) {V : Type 0} (runtime : Runtime V) (secret : Text) (now : ℕ)
    (token : Fetched Text) (user : Text → Fetched UserInfo) (code' : Option Text)
    → Dict.Distinct Text-discrete pending
    → take_state (some code) (some state) pending ≡ some rest
    → NotDrawn state actions
    → let later = login_run config actions rest in
      handle_callback runtime secret now token user code' (some state) later
      ≡ (home_with_error (utf16 "invalid_state"), later)
handle_callback-once config code state pending rest actions runtime secret now token user code' d
      taken n =
    handle_callback-Unknown runtime secret now token user code' state
      (login_run config actions rest)
      (login_run-Unknown config actions state rest n
        (take_state-gone code state pending rest d taken))
