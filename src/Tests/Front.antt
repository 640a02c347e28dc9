-- ===== src/Tests/Front.antt =====
-- The menu of client_src/init.js at concrete inputs.
use snow_brawl_game.Base.{◌≡◌, refl, true, false, List, [], ◌∷◌, some, none}
use snow_brawl_game.Base.Int.{ℤ}
use snow_brawl_game.Base.Text.{utf16}
use snow_brawl_game.Utils.Strings.{fix_utf8}
use snow_brawl_game.Menu.{Menu, Row, check_auth_status, render_leaderboard}
use snow_brawl_game.Menu.Panels.{OnePanel, check_auth_status_panels}
use snow_brawl_game.Tests.Toy.{toy}

abbrev blank : Menu
blank = record {
  oauth_button = false;
  guest_login = false;
  logged_in_info = false;
  status = [];
  guest_name = [];
  logged_in_name = [];
  oauth_enabled = false;
  current_user = none;
  saved_name = none;
  tab_id = none;
}

-- The second request fails.
check_auth_status_panels_example :
    OnePanel false true (check_auth_status (utf16 "abcdef") (some true) none blank)
check_auth_status_panels_example = check_auth_status_panels (utf16 "abcdef") (some true) none blank

guest_box : (check_auth_status (utf16 "abcdef") none none blank).guest_name ≡ utf16 "Guest-abcd"
unfolding check_auth_status
guest_box = refl

abbrev table : List Row
table =
    record { player_name = some (utf16 "a long name"); kills = 7 }
    ∷ record { player_name = none; kills = 2 }
    ∷ []

table_rows :
    render_leaderboard ℤ (some table)
    ≡ some (
        record { medal = utf16 "1."; display_name = utf16 "a long nam..."; score = 7 }
        ∷ record { medal = utf16 "2."; display_name = utf16 "Unknown"; score = 2 }
        ∷ [])
unfolding render_leaderboard fix_utf8
table_rows = refl

no_rows : render_leaderboard ℤ (some []) ≡ none
unfolding render_leaderboard fix_utf8
no_rows = refl
