-- ===== src/Menu/Panels.antt =====
-- Which panel of the login overlay `checkAuthStatus` of client_src/init.js leaves visible.
use snow_brawl_game.Base.{
  ◌≡◌, sym, ap, ◌≢◌, refl, inl, inr, Bool, false, not, ◌&&◌, Option, none, some, Bool-cases,
  Option-cases, if_cases, [], or_else,
}
use snow_brawl_game.Base.Text.{Text, is_empty}
use snow_brawl_game.Network.Events.{or_text}
use snow_brawl_game.Menu.{
  as_guest, Me, Menu, restore_guest, as_guest, show_login_ui, show_logged_in_ui, failure,
  on_failure, on_me, check_auth_status,
}

-- The buttons for OAuth, or the box for guests, or the user's name.
abbrev pub OnePanel : Bool → Bool → Menu → Type 0
OnePanel known enabled m =
    (m.oauth_enabled ≡ enabled)
    × (m.logged_in_info ≡ known)
    × (m.oauth_button ≡ not known && enabled)
    × (m.guest_login ≡ not known && not enabled)
    × (m.status ≢ failure)

-- Whether the server knows the user.
abbrev pub is_known : Option Bool → Option Me → Bool
is_known none me = false
is_known (some enabled) none = false
is_known (some enabled) (some me) = elim me.user [ none ↦ false | some u ↦ me.authenticated ]

restore_guest-OnePanel :
    (random : Text) (enabled : Bool) (m : Menu)
    → OnePanel false enabled m
    → OnePanel false enabled (restore_guest random m)
unfolding restore_guest
restore_guest-OnePanel random enabled m v =
    if_cases (OnePanel false enabled) (is_empty (or_text m.saved_name [])) (λ _. v) (λ _. v)

show_login_ui-OnePanel :
    (random : Text) (m : Menu) → OnePanel false m.oauth_enabled (show_login_ui random m)
unfolding show_login_ui
show_login_ui-OnePanel random m =
    if_cases (OnePanel false m.oauth_enabled) m.oauth_enabled
      (λ on. (refl, refl, sym on, ap not (sym on), λ e. cc))
      (λ off.
        restore_guest-OnePanel random m.oauth_enabled (as_guest m)
          (refl, refl, sym off, ap not (sym off), λ e. cc))

on_me-OnePanel :
    (random : Text) (enabled : Bool) (me : Me) (m : Menu)
    → OnePanel (is_known (some enabled) (some me)) m.oauth_enabled (on_me random me m)
unfolding on_me show_logged_in_ui
on_me-OnePanel random enabled me m = elim (Option-cases me.user) [
  | inl nobody ↦ rw (nobody, on_me) (show_login_ui-OnePanel random m)
  | inr (u, there) ↦ elim (Bool-cases me.authenticated) [
    | inl on ↦ rw (there, on, on_me) (refl, refl, refl, refl, λ e. cc)
    | inr off ↦ rw (there, off, on_me) (show_login_ui-OnePanel random m)
  ]
]

-- Whatever the two requests return or whether they fail, exactly one panel is visible afterwards: the
-- user's name exactly if the server knows the user, or else, after a failure too, the button for OAuth
-- or the box for guests, as the server's `oauthEnabled` has it, or as it was if the first request
-- fails; and the status never tells of the failure.
pub check_auth_status_panels :
    (random : Text) (config : Option Bool) (me : Option Me) (m : Menu)
    → OnePanel
        (is_known config me)
        (or_else config m.oauth_enabled)
        (check_auth_status random config me m)
unfolding check_auth_status on_failure
check_auth_status_panels random none me m =
    show_login_ui-OnePanel random (record m { status = failure })
check_auth_status_panels random (some enabled) none m =
    show_login_ui-OnePanel random (record m { oauth_enabled = enabled; status = failure })
check_auth_status_panels random (some enabled) (some me) m =
    on_me-OnePanel random enabled me (record m { oauth_enabled = enabled })
