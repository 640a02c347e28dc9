-- ===== src/Game/Consistent.antt =====
-- The registry of the players through a whole play of client_src/init.js.
use snow_brawl_game.Base.{
  ℕ, ◌≡◌, refl, inl, inr, true, false, List, [], ◌∷◌, Option, none, some, arith, Bool-cases,
  Option-cases, get_elem?, Holds, if_cases,
}
use snow_brawl_game.Base.Int.{pos}
use snow_brawl_game.Base.Text.{Text, is_empty}
use snow_brawl_game.Engine.{Engine}
use snow_brawl_game.Player.{Player, hide_chat, show_chat}
use snow_brawl_game.Player.Identity.{update-id, load_snowman-id}
use snow_brawl_game.Player.Motion.{
  load_snowman, camera_yaw_after, Frame, may_throw, throw_from, update,
}
use snow_brawl_game.Snowball.{Box}
use snow_brawl_game.Utils.Strings.{trim}
use snow_brawl_game.World.{World, update_object}
use snow_brawl_game.World.Consistent.{IsConsistent, update_object-IsConsistent}
use snow_brawl_game.Connection.{Clock, maybe_send_local_state}
use snow_brawl_game.Connection.Session.{Session}
use snow_brawl_game.Connection.Consistent.{SessionIsConsistent, FreshWelcome, step-IsConsistent}
use snow_brawl_game.Game.{Game, on_local}
use snow_brawl_game.Game.Clicks.{mouse_down_cases}
use snow_brawl_game.Game.Input.{
  Key, press, face, throw_snowball, mouse_down, mouse_move, key_down, key_up, say_chat,
}
use snow_brawl_game.Game.Draw.{
  update_players, draw_frame, show_local, advance_world, local_player_of, update_music_volume,
}
use snow_brawl_game.Game.Play.{
  Act, connection, clicks, moves_mouse, key_goes_down, key_goes_up, pointer_changes, focuses, types,
  escapes, enters, starts, starts_as_guest, bubble_hides, model_loads, ball_expires, frame,
  with_session, act, play,
}

module _ {N : Type 0} ⦃e : Engine N⦄ where
  open e use {decimal, min}

  abbrev pub GameIsConsistent : Game N → Type 0
  GameIsConsistent g = IsConsistent g.world.registry

  on_local-IsConsistent :
      (f : Player N → Player N) (w : World N)
      → ((p : Player N) → (f p).id ≡ p.id)
      → IsConsistent w.registry
      → IsConsistent (on_local f w).registry
  unfolding on_local
  on_local-IsConsistent f w same v = elim (Option-cases w.registry.local_player) [
    | inl nobody ↦ rw (nobody, on_local) v
    | inr (r, known) ↦ rw (known, on_local) (update_object-IsConsistent r f w.registry same v)
  ]

  throw_snowball-IsConsistent :
      (now : Clock) (shot : Text) (g : Game N)
      → GameIsConsistent g
      → GameIsConsistent (throw_snowball now shot g)
  unfolding throw_snowball
  throw_snowball-IsConsistent now shot g v = elim (Option-cases g.world.registry.local_player) [
    | inl nobody ↦ rw (nobody, throw_snowball) v
    | inr (r, known) ↦ elim (Option-cases (get_elem? g.world.registry.objects r)) [
      | inl lost ↦ rw (known, lost, throw_snowball) v
      | inr (p, found) ↦ elim (Bool-cases (may_throw now.perf p)) [
        | inl ready ↦
            rw (known, found, ready, throw_snowball)
              (update_object-IsConsistent r (throw_from now.perf) g.world.registry
                (λ q. unfold throw_from in refl) v)
        | inr waits ↦ rw (known, found, waits, throw_snowball) v
      ]
    ]
  ]

  mouse_down-IsConsistent :
      (now : Clock) (shot : Text) (button : ℕ) (g : Game N)
      → GameIsConsistent g
      → GameIsConsistent (mouse_down now shot button g)
  mouse_down-IsConsistent now shot button g v =
      mouse_down_cases GameIsConsistent now shot button g v v
        (throw_snowball-IsConsistent now shot g v)

  mouse_move-IsConsistent :
      (right down : N) (g : Game N)
      → GameIsConsistent g
      → GameIsConsistent (mouse_move right down g)
  unfolding mouse_move
  mouse_move-IsConsistent right down g v = elim (Option-cases g.world.registry.local_player) [
    | inl nobody ↦ rw (nobody, mouse_move) v
    | inr (r, known) ↦ elim (Bool-cases g.controls.is_pointer_locked) [
      | inl locked ↦
          rw (known, locked, mouse_move)
            (on_local-IsConsistent (face _) (record (g.world) { camera_yaw = _ })
              (λ q. unfold face in ground arith) v)
      | inr loose ↦ rw (known, loose, mouse_move) v
    ]
  ]

  key_down-IsConsistent :
      (key : Key) (g : Game N) → GameIsConsistent g → GameIsConsistent (key_down key g)
  unfolding key_down
  key_down-IsConsistent key g v =
      if_cases GameIsConsistent g.controls.chat_focused (λ _. v)
        (λ _.
          if_cases GameIsConsistent g.controls.login_shown (λ _. v)
            (λ _. on_local-IsConsistent (press key true) g.world (λ p. unfold press in refl) v))

  key_up-IsConsistent :
      (key : Key) (g : Game N) → GameIsConsistent g → GameIsConsistent (key_up key g)
  unfolding key_up
  key_up-IsConsistent key g v =
      on_local-IsConsistent (press key false) g.world (λ p. unfold press in refl) v

  say_chat-IsConsistent : (g : Game N) → GameIsConsistent g → GameIsConsistent (say_chat g)
  unfolding say_chat
  say_chat-IsConsistent g v =
      if_cases GameIsConsistent (is_empty (trim g.controls.chat_value)) (λ _. v)
        (λ _.
          on_local-IsConsistent (show_chat (trim g.controls.chat_value)) g.world
            (λ p. unfold show_chat in refl) v)

  update_players-IsConsistent :
      (f : Frame N) (rs : List ℕ) (w : World N)
      → IsConsistent w.registry
      → IsConsistent (update_players f rs w).registry
  unfolding update_players
  update_players-IsConsistent f [] w v = v
  update_players-IsConsistent f (r ∷ rs) w v =
      elim (Option-cases (get_elem? w.registry.objects r)) [
        | inl lost ↦ rw (lost, update_players) (update_players-IsConsistent f rs w v)
        | inr (p, found) ↦
            rw (found, update_players)
              (update_players-IsConsistent f rs
                (record w {
                  registry = update_object r (update f) w.registry;
                  camera_yaw = camera_yaw_after f p w.camera_yaw;
                })
                (update_object-IsConsistent r (update f) w.registry (update-id f) v))
      ]

  show_local-IsConsistent : (g : Game N) → GameIsConsistent g → GameIsConsistent (show_local g)
  unfolding show_local
  show_local-IsConsistent g v = elim (Option-cases (local_player_of g.world)) [
    | inl nobody ↦ rw (nobody, show_local) v
    | inr (p, known) ↦
        rw (known, show_local)
          (on_local-IsConsistent (λ q. record q { visible = g.controls.third_person }) g.world
            (λ q. refl) v)
  ]

  draw_frame-IsConsistent :
      (fuel : ℕ) (now : Clock) (delta : N) (boxes : List (Box N)) (g : Game N)
      → GameIsConsistent g
      → GameIsConsistent (draw_frame fuel now delta boxes g)
  unfolding draw_frame advance_world
  draw_frame-IsConsistent fuel now delta boxes g v =
      let dt = min delta (decimal (pos 1) 1) in
      let world = advance_world fuel now dt boxes g.world in
      let sent = maybe_send_local_state now (local_player_of world) g.net in
      let heard = update_music_volume (local_player_of world) g.controls in
      let f : Frame N = record {
        world_seed = g.world.world_seed;
        fuel = fuel;
        now = now.date;
        dt = dt;
      } in
      show_local-IsConsistent (record { net = sent; world = world; controls = heard })
        (update_players-IsConsistent f g.world.registry.players g.world v)

  with_session-IsConsistent :
      (g : Game N) (o : Option (Session N))
      → Holds SessionIsConsistent o
      → Holds GameIsConsistent (with_session g o)
  unfolding with_session
  with_session-IsConsistent g none h = tt
  with_session-IsConsistent g (some s) h = h

  -- A `welcome` that comes names an id which no player of the map has.
  abbrev pub Greets : Act N → Game N → Type 0
  Greets (connection what) g = FreshWelcome what g.world
  Greets _ g = Unit {0}

  act-IsConsistent :
      (what : Act N) (g : Game N)
      → Greets what g
      → GameIsConsistent g
      → Holds GameIsConsistent (act what g)
  unfolding act
  act-IsConsistent (connection what) g new v =
      with_session-IsConsistent g _ (step-IsConsistent what g.net g.world new v)
  act-IsConsistent (clicks now shot button) g new v = mouse_down-IsConsistent now shot button g v
  act-IsConsistent (moves_mouse right down) g new v = mouse_move-IsConsistent right down g v
  act-IsConsistent (key_goes_down key) g new v = key_down-IsConsistent key g v
  act-IsConsistent (key_goes_up key) g new v = key_up-IsConsistent key g v
  act-IsConsistent (pointer_changes locked) g new v = v
  act-IsConsistent focuses g new v = v
  act-IsConsistent (types text) g new v = v
  act-IsConsistent escapes g new v = v
  act-IsConsistent enters g new v = say_chat-IsConsistent g v
  act-IsConsistent (starts name subject) g new v = v
  act-IsConsistent (starts_as_guest value) g new v = v
  act-IsConsistent (bubble_hides r) g new v =
      update_object-IsConsistent r hide_chat g.world.registry (λ p. unfold hide_chat in refl) v
  act-IsConsistent (model_loads r) g new v =
      update_object-IsConsistent r load_snowman g.world.registry load_snowman-id v
  act-IsConsistent (ball_expires r) g new v = v
  act-IsConsistent (frame fuel now delta boxes) g new v =
      draw_frame-IsConsistent fuel now delta boxes g v

  -- Every `welcome` of a play names an id that no player then in the map has.
  abbrev pub FreshWelcomes : List (Act N) → Game N → Type 0
  FreshWelcomes [] g = Unit {0}
  FreshWelcomes (what ∷ rest) g = Greets what g × Holds (FreshWelcomes rest) (act what g)

  -- In every play in which each welcome names an id that no player then in the map has, a consistent
  -- registry stays consistent.
  pub play-IsConsistent :
      (acts : List (Act N)) (g : Game N)
      → FreshWelcomes acts g
      → GameIsConsistent g
      → Holds GameIsConsistent (play acts g)
  unfolding play
  play-IsConsistent [] g new v = v
  play-IsConsistent (what ∷ rest) g (new, later) v = elim (Option-cases (act what g)) [
    | inl reloaded ↦ rw (reloaded, play) tt
    | inr (g', went) ↦
        let kept : Holds GameIsConsistent (some g') = rw went at (act-IsConsistent what g new v) in
        let fresh : Holds (FreshWelcomes rest) (some g') = rw went at later in
        rw (went, play) (play-IsConsistent rest g' fresh kept)
  ]
