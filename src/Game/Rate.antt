-- ===== src/Game/Rate.antt =====
-- How often a play of client_src/init.js reports the player's state to the server.
use snow_brawl_game.Base.{
  ℕ, ◌+◌, ◌*◌, ◌≤◌, ◌≡◌, inl, inr, List, [], ◌∷◌, Option, none, some, arith, Bool-cases,
  Option-cases, get_elem?, Holds,
}
use snow_brawl_game.Base.Int.{pos}
use snow_brawl_game.Base.Text.{Text}
use snow_brawl_game.Engine.{Engine}
use snow_brawl_game.Player.Motion.{may_throw, aim}
use snow_brawl_game.Utils.Config.{send_interval}
use snow_brawl_game.Utils.Strings.{trim}
use snow_brawl_game.Snowball.{Box}
use snow_brawl_game.Connection.{Clock, maybe_send_local_state}
use snow_brawl_game.Connection.Session.{Session}
use snow_brawl_game.Connection.Rate.{
  Paced, SessionPaced, step-Paced, send_chat-Paced, send_snowball-Paced, connect-Paced,
  maybe_send-Paced,
}
use snow_brawl_game.Connection.Reports.{reports}
use snow_brawl_game.Game.{Game}
use snow_brawl_game.Game.Input.{throw_snowball, mouse_down, mouse_move, key_down, say_chat}
use snow_brawl_game.Game.Clicks.{mouse_down_cases}
use snow_brawl_game.Game.Draw.{
  update_music_volume, draw_frame, show_local, advance_world, local_player_of,
}
use snow_brawl_game.Game.Play.{
  Act, connection, clicks, moves_mouse, key_goes_down, key_goes_up, pointer_changes, focuses, types,
  escapes, enters, starts, starts_as_guest, bubble_hides, model_loads, ball_expires, frame,
  with_session, act, play,
}

module _ {N : Type 0} ⦃e : Engine N⦄ where
  open e use {decimal, min}

  abbrev GamePaced : ℕ → ℕ → Game N → Type 0
  GamePaced a b g = Paced a b g.net

  throw_snowball-Paced :
      (now : Clock) (shot : Text) (a b : ℕ) (g : Game N)
      → GamePaced a b g
      → GamePaced a b (throw_snowball now shot g)
  unfolding throw_snowball
  throw_snowball-Paced now shot a b g v = elim (Option-cases g.world.registry.local_player) [
    | inl nobody ↦ rw (nobody, throw_snowball) v
    | inr (r, known) ↦ elim (Option-cases (get_elem? g.world.registry.objects r)) [
      | inl lost ↦ rw (known, lost, throw_snowball) v
      | inr (p, found) ↦ elim (Bool-cases (may_throw now.perf p)) [
        | inl ready ↦
            rw (known, found, ready, throw_snowball)
              (send_snowball-Paced now shot (aim g.controls.camera_pitch p) a b g.net v)
        | inr waits ↦ rw (known, found, waits, throw_snowball) v
      ]
    ]
  ]

  mouse_down-Paced :
      (now : Clock) (shot : Text) (button a b : ℕ) (g : Game N)
      → GamePaced a b g
      → GamePaced a b (mouse_down now shot button g)
  mouse_down-Paced now shot button a b g v =
      mouse_down_cases (GamePaced a b) now shot button g v v (throw_snowball-Paced now shot a b g v)

  mouse_move-Paced :
      (right down : N) (a b : ℕ) (g : Game N)
      → GamePaced a b g
      → GamePaced a b (mouse_move right down g)
  unfolding mouse_move
  mouse_move-Paced right down a b g v = ground arith

  say_chat-Paced : (a b : ℕ) (g : Game N) → GamePaced a b g → GamePaced a b (say_chat g)
  unfolding say_chat
  say_chat-Paced a b g v = ground (arith, send_chat-Paced (trim g.controls.chat_value) a b g.net v)

  show_local-net : (g : Game N) → (show_local g).net ≡ g.net
  unfolding show_local
  show_local-net g = ground arith

  draw_frame-Paced :
      (fuel : ℕ) (now : Clock) (delta : N) (boxes : List (Box N)) (a b : ℕ) (g : Game N)
      → GamePaced a b g
      → GamePaced a b (draw_frame fuel now delta boxes g)
  unfolding draw_frame
  draw_frame-Paced fuel now delta boxes a b g v =
      let world = advance_world fuel now (min delta (decimal (pos 1) 1)) boxes g.world in
      let sent = maybe_send_local_state now (local_player_of world) g.net in
      let heard = update_music_volume (local_player_of world) g.controls in
      let drawn : Game N = record { net = sent; world = world; controls = heard } in
      rw (show_local-net drawn) (maybe_send-Paced now (local_player_of world) a b g.net v)

  with_session-Paced :
      (a b : ℕ) (g : Game N) (o : Option (Session N))
      → Holds (SessionPaced a b) o
      → Holds (GamePaced a b) (with_session g o)
  unfolding with_session
  with_session-Paced a b g none h = tt
  with_session-Paced a b g (some s) h = h

  act-Paced :
      (what : Act N) (a b : ℕ) (g : Game N) → GamePaced a b g → Holds (GamePaced a b) (act what g)
  unfolding act
  act-Paced (connection what) a b g v =
      with_session-Paced a b g _ (step-Paced what a b g.net g.world v)
  act-Paced (clicks now shot button) a b g v = mouse_down-Paced now shot button a b g v
  act-Paced (moves_mouse right down) a b g v = mouse_move-Paced right down a b g v
  act-Paced (key_goes_down key) a b g v = unfold key_down in ground arith
  act-Paced (key_goes_up key) a b g v = v
  act-Paced (pointer_changes locked) a b g v = v
  act-Paced focuses a b g v = v
  act-Paced (types text) a b g v = v
  act-Paced escapes a b g v = v
  act-Paced enters a b g v = say_chat-Paced a b g v
  act-Paced (starts name subject) a b g v = connect-Paced _ a b g.net v
  act-Paced (starts_as_guest value) a b g v = connect-Paced _ a b g.net v
  act-Paced (bubble_hides r) a b g v = v
  act-Paced (model_loads r) a b g v = v
  act-Paced (ball_expires r) a b g v = v
  act-Paced (frame fuel now delta boxes) a b g v = draw_frame-Paced fuel now delta boxes a b g v

  play-Paced :
      (acts : List (Act N)) (a b : ℕ) (g : Game N)
      → GamePaced a b g
      → Holds (GamePaced a b) (play acts g)
  unfolding play
  play-Paced [] a b g v = v
  play-Paced (what ∷ rest) a b g v = elim (Option-cases (act what g)) [
    | inl reloaded ↦ rw (reloaded, play) tt
    | inr (g', went) ↦
        let kept : Holds (GamePaced a b) (some g') = rw went at (act-Paced what a b g v) in
        rw (went, play) (play-Paced rest a b g' kept)
  ]

  -- In every play the reports of the player's state that are added, times 50 milliseconds, take no
  -- longer than the time by which `lastStateSend` advances.
  pub play-rate :
      (acts : List (Act N)) (g g' : Game N)
      → play acts g ≡ some g'
      → reports g'.net * send_interval + g.net.last_state_send
        ≤ reports g.net * send_interval + g'.net.last_state_send
  play-rate acts g g' e =
      let kept : Holds (GamePaced g.net.last_state_send (reports g.net * send_interval)) (some g') =
        rw e at
          (play-Paced acts g.net.last_state_send (reports g.net * send_interval) g (omega arith)) in
      kept
