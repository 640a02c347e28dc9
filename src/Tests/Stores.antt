-- ===== src/Tests/Stores.antt =====
-- The tables and the login of the server at concrete inputs.
use snow_brawl_game.Base.{
  Option, ◌*◌, ◌-◌, ◌/◌, ◌%◌, map, true, false, ◌∙◌, ℕ, ◌+◌, ◌≡◌, refl, List, [], ◌∷◌, none, some,
  ℕ_discrete, arith, ap, length,
}
use snow_brawl_game.Base.Text.{Text, utf16, Text-discrete}
use snow_brawl_game.Base.Dict
use snow_brawl_game.Server.State.{KillRecord}
use snow_brawl_game.Server.Storage.{Store, StoreAction, kills, cleans, player_stats_of, run_store}
use snow_brawl_game.Server.Storage.Totals.{shown, killed, died}
use snow_brawl_game.Server.Storage.Kept.{run_store-totals}
use snow_brawl_game.Server.Auth.{
  cookie_token, OauthConfig, refused, home_with_error, logs_in, comes_back, expires, login_run,
  handle_callback, take_state, handle_dev_login, home_with_token,
}
use snow_brawl_game.Utils.Cipher.{AllBytes}
use snow_brawl_game.Server.Auth.Token.{Payload, Runtime, create_jwt, verify_jwt, strip_padding}
use snow_brawl_game.Server.Auth.Roundtrip.{Plain, Documented, verify_jwt-create_jwt}
use snow_brawl_game.Server.Auth.States.{handle_callback-once}
use snow_brawl_game.Tests.Toy.{me, you}

abbrev blow : KillRecord
blow = record {
  attacker_id = utf16 "1";
  attacker_name = me;
  victim_id = utf16 "2";
  victim_name = you;
  shot_id = utf16 "s";
}

abbrev nothing : Store
nothing = record { kills = []; player_stats = [] }

-- Two kills, the second after the first one's row was cleaned up.
abbrev history : List StoreAction
history = kills (utf16 "a") 5 blow ∷ cleans 3000000000 ∷ kills (utf16 "bb") 3000000001 blow ∷ []

run_store-totals_example :
    (last : Store) × (run_store history nothing ≡ some last)
    × ((shown (player_stats_of me last)).0
        ≡ (shown (player_stats_of me nothing)).0 + killed me history)
    × ((shown (player_stats_of me last)).1
        ≡ (shown (player_stats_of me nothing)).1 + died me history)
unfolding Dict.get
run_store-totals_example =
    run_store-totals history nothing me
      ((λ e. let n : 1 ≡ 2 = ap length e in omega arith, tt), (tt, tt)) (refl, (refl, tt))

-- A runtime that signs nothing, with two letters for each byte, and objects of which only the time of
-- expiry is kept.
abbrev letters : List ℕ → Text
letters [] = []
letters (b ∷ bs) = (65 + b / 16) ∷ (65 + b % 16) ∷ letters bs

abbrev bytes_of : Text → Option (List ℕ)
bytes_of [] = some []
bytes_of (c ∷ []) = none
bytes_of (c ∷ d ∷ s) = elim (bytes_of s) [
  | none ↦ none
  | some bs ↦ some ((16 * (c - 65) + (d - 65)) ∷ bs)
]

abbrev read_exp : Text → Option ℕ
read_exp (a ∷ b ∷ c ∷ []) = some (65536 * a + 256 * b + c)
read_exp _ = none

abbrev runtime : Runtime ℕ
runtime = record {
  sign = λ key m. some (1 ∷ []);
  verify = λ key sig m. some true;
  encode = map (λ c. c % 256);
  btoa = letters;
  atob = bytes_of;
  stringify = λ n. (n / 65536) ∷ (n / 256) ∷ n ∷ [];
  parse = read_exp;
  header = 0;
  claims = λ p iat exp. exp;
  exp_of = some;
}

abbrev guest : Payload
guest = record { sub = me; id = me; name = me; trust_level = 1; dev_account = false }

map-AllBytes : (s : Text) → AllBytes (map (λ c. c % 256) s)
map-AllBytes [] = tt
map-AllBytes (c ∷ s) = (omega arith, map-AllBytes s)

letters-Plain : (bs : List ℕ) → AllBytes bs → Plain (letters bs)
letters-Plain [] v = tt
letters-Plain (b ∷ bs) (small, v) = (ground arith, (ground arith, letters-Plain bs v))

strip_padding-letters : (bs : List ℕ) → strip_padding (letters bs) ≡ letters bs
unfolding strip_padding
strip_padding-letters [] = refl
strip_padding-letters (b ∷ bs) = ground (arith, strip_padding-letters bs)

bytes_of-letters : (bs : List ℕ) → AllBytes bs → bytes_of (letters bs) ≡ some bs
bytes_of-letters [] v = refl
bytes_of-letters (b ∷ bs) (small, v) =
    let whole : 16 * (65 + b / 16 - 65) + (65 + b % 16 - 65) ≡ b = omega arith in
    rw (bytes_of-letters bs v, whole) refl

signature-AllBytes : (sig : List ℕ) → some (1 ∷ []) ≡ some sig → AllBytes sig
signature-AllBytes sig h = let same : 1 ∷ [] ≡ sig = cc h in rw (← same) (omega arith, tt)

runtime-Documented : Documented runtime
runtime-Documented = record {
  alphabet = letters-Plain;
  atob-unpadded = λ bs h. ap bytes_of (strip_padding-letters bs) ∙ bytes_of-letters bs h;
  encode-AllBytes = map-AllBytes;
  sign-AllBytes = λ key m. signature-AllBytes;
  verify-sign = λ key m sig h. refl;
  exp_of-claims = λ p iat exp. refl;
}

abbrev config : OauthConfig
config = record { client_id = utf16 "id"; client_secret = [] }

abbrev pending : List (Text × ℕ)
pending = (utf16 "x", 5) ∷ (utf16 "y", 6) ∷ []

handle_callback-once_example :
    let later =
      login_run config
        (logs_in 7 (utf16 "zz") ∷ comes_back none (some (utf16 "y")) ∷ expires 8 ∷ [])
        ((utf16 "y", 6) ∷ []) in
    handle_callback runtime me 5 refused (λ t. refused) (some (utf16 "c")) (some (utf16 "x")) later
    ≡ (home_with_error (utf16 "invalid_state"), later)
unfolding take_state Dict.get Dict.delete Text-discrete ℕ_discrete
handle_callback-once_example =
    handle_callback-once config (utf16 "c") (utf16 "x") pending ((utf16 "y", 6) ∷ [])
      (logs_in 7 (utf16 "zz") ∷ comes_back none (some (utf16 "y")) ∷ expires 8 ∷ []) runtime me 5
      refused (λ t. refused) (some (utf16 "c")) (refl, (refl, tt)) refl
      ((λ e. let n : 2 ≡ 1 = ap length e in omega arith), tt)

-- Without a client secret in the environment, an empty secret lets the development login through.
open_door :
    (token : Text) × (handle_dev_login runtime me 5 config 2 (utf16 "0123456789") (some [])
      ≡ home_with_token token)
unfolding handle_dev_login create_jwt Text-discrete ℕ_discrete
open_door = (_, refl)

cookies :
    (cookie_token (utf16 "a=b; auth_token=xy.z; c=d") ≡ some (utf16 "xy.z"))
    × (cookie_token (utf16 "auth_token=; c") ≡ none)
unfolding cookie_token
cookies = (refl, refl)

-- A token made at time 0 and read a day later.
a_token : (token : Text) × (create_jwt runtime me 0 guest ≡ some token)
unfolding create_jwt
a_token = (_, refl)

verify_jwt-create_jwt_example : verify_jwt runtime me 86400000 a_token.0 ≡ some (0 + 86400)
verify_jwt-create_jwt_example =
    verify_jwt-create_jwt runtime runtime-Documented me 0 86400000 guest a_token.0 a_token.1 refl
      (omega arith)
