-- ===== src/Game/Play.antt =====
-- A play: any sequence of what the browser and the player do to the page of client_src/init.js.
use snow_brawl_game.Base.{ℕ, Bool, List, [], ◌∷◌, Option, none, some}
use snow_brawl_game.Base.Text.{Text}
use snow_brawl_game.Engine.{Engine}
use snow_brawl_game.Player.{hide_chat}
use snow_brawl_game.Player.Motion.{load_snowman}
use snow_brawl_game.Snowball.{Box, destroy}
use snow_brawl_game.Connection.{Clock}
use snow_brawl_game.Connection.Session.{Action, Session, step}
use snow_brawl_game.Game.State.{Game, on_controls, on_object}
use snow_brawl_game.Game.Input.{
  Key, focus_chat, blur_chat, pointer_lock_change, key_down, key_up, say_chat, user_play,
  guest_play, mouse_down, mouse_move,
}
use snow_brawl_game.Game.Draw.{draw_frame}

pub data Act (N : Type 0) : Type 0 where
  connection : Action N → Act N
  -- A mouse button goes down; the text is the id that `randomId` returns if a ball is thrown.
  clicks : Clock → Text → ℕ → Act N
  moves_mouse : N → N → Act N
  key_goes_down : Key → Act N
  key_goes_up : Key → Act N
  pointer_changes : Bool → Act N
  -- The chat box: a click on it, what is typed into it, Escape, Enter.
  focuses : Act N
  types : Text → Act N
  escapes : Act N
  enters : Act N
  starts : Option Text → Text → Act N
  starts_as_guest : Text → Act N
  -- Five seconds after `showChat`, and when the snowman of a bot is loaded.
  bubble_hides : ℕ → Act N
  model_loads : ℕ → Act N
  -- Three seconds after a snowball is made: the timer of its constructor.
  ball_expires : ℕ → Act N
  -- A frame, with the fuel of the turning loops, its length and the obstacles.
  frame : ℕ → Clock → N → List (Box N) → Act N

module _ {N : Type 0} where
  -- The session behind a game.
  abbrev pub session : Game N → Session N
  session g = (g.net, g.world)

  unfoldable pub with_session : Game N → Option (Session N) → Option (Game N)
  with_session g none = none
  with_session g (some (c, w)) = some (record g { net = c; world = w })

module _ {N : Type 0} ⦃e : Engine N⦄ where
  -- `none` when the page is loaded anew.
  unfoldable pub act : Act N → Game N → Option (Game N)
  unfolding with_session step mouse_down mouse_move key_down key_up pointer_lock_change focus_chat
      blur_chat say_chat user_play guest_play on_object hide_chat load_snowman destroy draw_frame
  act (connection a) g = with_session g (step a (session g))
  act (clicks now shot button) g = some (mouse_down now shot button g)
  act (moves_mouse right down) g = some (mouse_move right down g)
  act (key_goes_down key) g = some (key_down key g)
  act (key_goes_up key) g = some (key_up key g)
  act (pointer_changes locked) g = some (on_controls (pointer_lock_change locked) g)
  act focuses g = some (on_controls focus_chat g)
  act (types text) g = some (on_controls (λ c. record c { chat_value = text }) g)
  act escapes g = some (on_controls blur_chat g)
  act enters g = some (say_chat g)
  act (starts name subject) g = some (user_play name subject g)
  act (starts_as_guest value) g = some (guest_play value g)
  act (bubble_hides r) g = some (on_object r hide_chat g)
  act (model_loads r) g = some (on_object r load_snowman g)
  act (ball_expires r) g =
      some (record g { world = record (g.world) { balls = destroy r g.world.balls } })
  act (frame fuel now delta boxes) g = some (draw_frame fuel now delta boxes g)

  unfoldable pub play : List (Act N) → Game N → Option (Game N)
  unfolding act
  play [] g = some g
  play (a ∷ rest) g = elim (act a g) [ none ↦ none | some g' ↦ play rest g' ]
