-- ===== src/Menu.antt =====
-- The menu of client_src/init.js: the login panels and the leaderboards.
pub mod Panels
use snow_brawl_game.Base.{
  ℕ, zero, suc, ◌+◌, ◌≤◌, ◌≡◌, ◌≢◌, ◌⊎◌, refl, inl, inr, Bool, true, false, not, ◌&&◌, List, [],
  ◌∷◌, ◌++◌, Option, none, some, arith, ltb, if◌then◌else◌, length, take, or_else,
}
use snow_brawl_game.Base.Text.{Text, utf16, is_empty}
use snow_brawl_game.Engine.{Engine}
use snow_brawl_game.Network.Events.{or_text}
use snow_brawl_game.Utils.Strings.{fix_utf8, show_number}

-- What `/auth/me` says of a user.
pub record User : Type 0 where
  pub name : Option Text
  pub subject : Text

-- The panels of the login overlay, `oauthEnabled`, `currentUser`, and the session's storage.
pub record Menu : Type 0 where
  pub oauth_button : Bool
  pub guest_login : Bool
  pub logged_in_info : Bool
  pub status : Text
  pub guest_name : Text
  pub logged_in_name : Text
  pub oauth_enabled : Bool
  pub current_user : Option User
  pub saved_name : Option Text
  pub tab_id : Option Text

-- The name in the box for guests: the saved one, or one with the tab's id, which is made if there is
-- none.
unfoldable pub restore_guest : Text → Menu → Menu
unfolding or_text
restore_guest random m =
    let tab = or_text m.tab_id (take 4 random) in
    if is_empty (or_text m.saved_name [])
    then record m { tab_id = some tab; guest_name = utf16 "Guest-" ++ tab }
    else record m { guest_name = or_text m.saved_name [] }

-- The box for guests.
abbrev pub as_guest : Menu → Menu
as_guest m = record m {
  logged_in_info = false;
  oauth_button = false;
  guest_login = true;
  status = utf16 "开发模式 - 游客登录";
}

-- The text is what `randomId` would return.
unfoldable pub show_login_ui : Text → Menu → Menu
unfolding restore_guest
show_login_ui random m =
    if m.oauth_enabled
    then record m {
      logged_in_info = false;
      oauth_button = true;
      guest_login = false;
      status = utf16 "请使用 Linux.do 账号登录";
    }
    else restore_guest random (as_guest m)

unfoldable pub show_logged_in_ui : User → Menu → Menu
unfolding or_text
show_logged_in_ui user m = record m {
  oauth_button = false;
  guest_login = false;
  logged_in_info = true;
  logged_in_name = or_text user.name user.subject;
  status = [];
}

abbrev pub failure : Text
failure = utf16 "连接服务器失败，请刷新页面"

-- The handler of a failed request.
unfoldable pub on_failure : Text → Menu → Menu
unfolding show_login_ui
on_failure random m = show_login_ui random (record m { status = failure })

-- What `/auth/me` answers.
pub record Me : Type 0 where
  pub authenticated : Bool
  pub user : Option User

unfoldable pub on_me : Text → Me → Menu → Menu
unfolding show_logged_in_ui show_login_ui
on_me random me m = elim me.user [
  | none ↦ show_login_ui random m
  | some u ↦
      if me.authenticated
      then show_logged_in_ui u (record m { current_user = some u })
      else show_login_ui random m
]

-- `checkAuthStatus`, with what the two requests return; `none` for a request that fails.
unfoldable pub check_auth_status : Text → Option Bool → Option Me → Menu → Menu
unfolding on_failure on_me
check_auth_status random none me m = on_failure random m
check_auth_status random (some enabled) none m =
    on_failure random (record m { oauth_enabled = enabled })
check_auth_status random (some enabled) (some me) m =
    on_me random me (record m { oauth_enabled = enabled })

-- A row of `/api/leaderboard`, and the cells that are shown of it.
pub record Row : Type 0 where
  pub player_name : Option Text
  pub kills : ℕ

pub record Cells : Type 0 where
  pub medal : Text
  pub display_name : Text
  pub score : ℕ

-- `medals[i] || `${i + 1}.``.
unfoldable pub medal_of : ℕ → Text
medal_of zero = utf16 "1."
medal_of (suc zero) = utf16 "2."
medal_of (suc (suc zero)) = utf16 "3."
medal_of (suc (suc (suc i))) = show_number (i + 4) ++ utf16 "."

unfoldable pub shorten : Text → Text
shorten name = if ltb 10 (length name) then take 10 name ++ utf16 "..." else name

module _ (N : Type 0) ⦃e : Engine N⦄ where
  unfoldable pub cells : ℕ → Row → Cells
  unfolding medal_of shorten or_text
  cells i row = record {
    medal = medal_of i;
    display_name = shorten (fix_utf8 N (or_text row.player_name (utf16 "Unknown")));
    score = row.kills;
  }

  unfoldable pub cells_from : ℕ → List Row → List Cells
  unfolding cells
  cells_from i [] = []
  cells_from i (row ∷ rows) = cells i row ∷ cells_from (suc i) rows

  -- `none` is the notice that there are no data.
  unfoldable pub render_leaderboard : Option (List Row) → Option (List Cells)
  unfolding cells_from
  render_leaderboard none = none
  render_leaderboard (some []) = none
  render_leaderboard (some (row ∷ rows)) = some (cells_from 0 (row ∷ rows))
