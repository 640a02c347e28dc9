-- ===== src/Game/Input.antt =====
-- The handlers of the page's events in client_src/init.js, and `throwSnowball` of
-- client_src/player.js as a whole.
use snow_brawl_game.Base.{
  [], ℕ, Bool, true, false, not, ◌++◌, Option, none, some, ◌==◌, if◌then◌else◌, get_elem?,
}
use snow_brawl_game.Base.Text.{Text, utf16, is_empty}
use snow_brawl_game.Engine.{Engine}
use snow_brawl_game.Player.{Player, Input, show_chat}
use snow_brawl_game.Player.Motion.{may_throw, aim, thrown, throw_from}
use snow_brawl_game.Snowball.{add_snowball}
use snow_brawl_game.Utils.Config.{look_sensitivity, min_pitch, max_pitch}
use snow_brawl_game.Network.Events.{or_text}
use snow_brawl_game.Utils.Strings.{trim}
use snow_brawl_game.World.{update_object}
use snow_brawl_game.Connection.{Clock, connect, send_chat, send_snowball}
use snow_brawl_game.Game.State.{Controls, Game, on_controls, on_local}

-- The key codes that the handlers tell apart.
pub data Key : Type 0 where
  key_w key_s key_a key_d key_space key_shift key_r key_t key_enter key_h key_v key_other : Key

-- The `switch` of keydown and of keyup.
unfoldable pub set_key : Key → Bool → Input → Input
set_key key_w on keys = record keys { w = on }
set_key key_s on keys = record keys { s = on }
set_key key_a on keys = record keys { a = on }
set_key key_d on keys = record keys { d = on }
set_key key_space on keys = record keys { space = on }
set_key key_shift on keys = record keys { shift = on }
set_key key_r on keys = record keys { r = on }
set_key _ on keys = keys

module _ {N : Type 0} where
  unfoldable pub press : Key → Bool → Player N → Player N
  unfolding set_key
  press key on p = record p { input = set_key key on p.input }

  -- The focus of the chat box lets the pointer go.
  unfoldable pub focus_chat : Controls N → Controls N
  focus_chat c = record c {
    chat_focused = true;
    lock_asked = if c.is_pointer_locked then some false else c.lock_asked;
  }

  unfoldable pub blur_chat : Controls N → Controls N
  blur_chat c = record c { chat_focused = false }

  unfoldable pub pointer_lock_change : Bool → Controls N → Controls N
  pointer_lock_change locked c = record c { is_pointer_locked = locked }

  -- What the keys do that do not move the player.
  unfoldable pub page_key : Key → Controls N → Controls N
  unfolding focus_chat
  page_key key_t c = focus_chat c
  page_key key_enter c = focus_chat c
  page_key key_h c = record c { ui_hidden = not c.ui_hidden }
  page_key key_v c = record c { third_person = not c.third_person }
  page_key _ c = c

  unfoldable pub key_down : Key → Game N → Game N
  unfolding page_key press on_local
  key_down key g =
      if g.controls.chat_focused then g else if g.controls.login_shown then g else record g {
        controls = page_key key g.controls;
        world = on_local (press key true) g.world;
      }

  unfoldable pub key_up : Key → Game N → Game N
  unfolding press on_local
  key_up key g = record g { world = on_local (press key false) g.world }

  unfoldable pub start_game : Text → Game N → Game N
  unfolding connect
  start_game name g = record g {
    net = connect name g.net;
    controls = record (g.controls) { login_shown = false; name_display = utf16 "👤 " ++ name };
  }

  -- The button for a player who is logged in: the name, or else the subject.
  unfoldable pub user_play : Option Text → Text → Game N → Game N
  unfolding start_game or_text
  user_play name subject g = start_game (or_text name subject) g

  -- The button for guests.
  unfoldable pub guest_play : Text → Game N → Game N
  unfolding start_game
  guest_play value g =
      let typed = trim value in
      let name : Text = if is_empty typed then utf16 "Guest" else typed in
      start_game name (on_controls (λ c. record c { saved_name = some name }) g)

module _ {N : Type 0} ⦃e : Engine N⦄ where
  open e use {sub, mul, max, min}

  -- Enter in the chat box.
  unfoldable pub say_chat : Game N → Game N
  unfolding on_local show_chat send_chat
  say_chat g =
      let text = trim g.controls.chat_value in
      if is_empty text then g else record g {
        world = on_local (show_chat text) g.world;
        net = send_chat text g.net;
        controls = record (g.controls) { chat_value = [] };
      }

  -- `localPlayer.throwSnowball()`, with the id that `randomId` returned.
  unfoldable pub throw_snowball : Clock → Text → Game N → Game N
  unfolding may_throw aim thrown throw_from add_snowball send_snowball
  throw_snowball now shot g = elim g.world.registry.local_player [
    | none ↦ g
    | some r ↦ elim (get_elem? g.world.registry.objects r) [
      | none ↦ g
      | some p ↦
          if may_throw now.perf p
          then record g {
            world = record (g.world) {
              registry = update_object r (throw_from now.perf) g.world.registry;
              balls = add_snowball (thrown shot g.controls.camera_pitch p) g.world.balls;
            };
            net = send_snowball now shot (aim g.controls.camera_pitch p) g.net;
          }
          else g
    ]
  ]

  unfoldable pub mouse_down : Clock → Text → ℕ → Game N → Game N
  unfolding throw_snowball
  mouse_down now shot button g =
      if g.controls.chat_focused
      then g
      else if g.controls.login_shown
      then g
      else if not (button == 0)
      then g
      else if not g.controls.is_pointer_locked
      then on_controls (λ c. record c { lock_asked = some true }) g
      else throw_snowball now shot g

  -- The player turns with the camera.
  unfoldable pub face : N → Player N → Player N
  face yaw p = if p.input.r then p else record p { rotation_y = yaw }

  unfoldable pub mouse_move : N → N → Game N → Game N
  unfolding face on_local
  mouse_move right down g = elim g.world.registry.local_player [
    | none ↦ g
    | some r ↦
        if not g.controls.is_pointer_locked
        then g
        else (let yaw = sub g.world.camera_yaw (mul right look_sensitivity) in
            let pitch = sub g.controls.camera_pitch (mul down look_sensitivity) in
            record g {
              world = on_local (face yaw) (record (g.world) { camera_yaw = yaw });
              controls = record (g.controls) { camera_pitch = max min_pitch (min max_pitch pitch) };
            })
  ]
