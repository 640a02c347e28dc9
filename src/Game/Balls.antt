-- ===== src/Game/Balls.antt =====
-- The snowballs in flight through a whole play of client_src/init.js.
use snow_brawl_game.Base.{
  ℕ, ◌≡◌, refl, inl, inr, List, [], ◌∷◌, Option, none, some, arith, Bool-cases, Option-cases,
  get_elem?, Holds,
}
use snow_brawl_game.Base.Int.{pos}
use snow_brawl_game.Base.Text.{Text}
use snow_brawl_game.Engine.{Engine}
use snow_brawl_game.Connection.Balls.{SessionIsSound, step-IsSound}
use snow_brawl_game.Player.Motion.{Frame, may_throw, thrown}
use snow_brawl_game.Snowball.{Box, Balls, update_snowballs, new_snowball}
use snow_brawl_game.Snowball.Tracked.{find, destroy-IsTracked}
use snow_brawl_game.Snowball.Flights.{update_snowballs-IsTracked, add_snowball-IsTracked}
use snow_brawl_game.Snowball.Listed.{destroy-IsListed, add_snowball-IsListed}
use snow_brawl_game.Snowball.Sweep.{update_snowballs-IsListed}
use snow_brawl_game.World.{World}
use snow_brawl_game.Network.Balls.{IsSound}
use snow_brawl_game.Connection.{Clock, maybe_send_local_state}
use snow_brawl_game.Connection.Session.{Session}
use snow_brawl_game.Game.{Game, on_local}
use snow_brawl_game.Game.Input.{
  Key, throw_snowball, mouse_down, mouse_move, key_down, key_up, say_chat,
}
use snow_brawl_game.Game.Clicks.{mouse_down_cases}
use snow_brawl_game.Game.Draw.{
  update_players, draw_frame, show_local, advance_world, local_player_of, update_music_volume,
}
use snow_brawl_game.Game.Play.{
  Act, connection, clicks, moves_mouse, key_goes_down, key_goes_up, pointer_changes, focuses, types,
  escapes, enters, starts, starts_as_guest, bubble_hides, model_loads, ball_expires, frame,
  with_session, act, play,
}

module _ {N : Type 0} ⦃e : Engine N⦄ where
  open e use {decimal, min}

  throw_snowball-IsSound :
      (now : Clock) (shot : Text) (g : Game N)
      → find shot g.world.balls.snowballs_by_id ≡ none
      → IsSound g.world.balls
      → IsSound (throw_snowball now shot g).world.balls
  unfolding throw_snowball
  throw_snowball-IsSound now shot g new v = elim (Option-cases g.world.registry.local_player) [
    | inl nobody ↦ rw (nobody, throw_snowball) v
    | inr (r, known) ↦ elim (Option-cases (get_elem? g.world.registry.objects r)) [
      | inl lost ↦ rw (known, lost, throw_snowball) v
      | inr (p, found) ↦ elim (Bool-cases (may_throw now.perf p)) [
        | inl ready ↦
            let ball = thrown shot g.controls.camera_pitch p in
            rw (known, found, ready, throw_snowball)
              (
                unfold thrown new_snowball in
                    add_snowball-IsTracked ball g.world.balls refl refl new v.0,
                add_snowball-IsListed ball g.world.balls v.1,
              )
        | inr waits ↦ rw (known, found, waits, throw_snowball) v
      ]
    ]
  ]

  update_players-balls :
      (f : Frame N) (rs : List ℕ) (w : World N) → (update_players f rs w).balls ≡ w.balls
  unfolding update_players
  update_players-balls f [] w = refl
  update_players-balls f (r ∷ rs) w = elim (Option-cases (get_elem? w.registry.objects r)) [
    | inl lost ↦ rw (lost, update_players) (update_players-balls f rs w)
    | inr (p, found) ↦ rw (found, update_players) (update_players-balls f rs _)
  ]

  update_snowballs-IsSound :
      (seed : ℕ) (boxes : List (Box N)) (dt : N) (balls : Balls N)
      → IsSound balls
      → IsSound (update_snowballs seed boxes dt balls)
  update_snowballs-IsSound seed boxes dt balls v = (
    update_snowballs-IsTracked seed boxes dt balls v.0,
    update_snowballs-IsListed seed boxes dt balls v.1,
  )

  advance_world-IsSound :
      (fuel : ℕ) (now : Clock) (dt : N) (boxes : List (Box N)) (w : World N)
      → IsSound w.balls
      → IsSound (advance_world fuel now dt boxes w).balls
  unfolding advance_world
  advance_world-IsSound fuel now dt boxes w v =
      let f : Frame N = record {
        world_seed = w.world_seed;
        fuel = fuel;
        now = now.date;
        dt = dt;
      } in
      update_snowballs-IsSound w.world_seed boxes dt (update_players f w.registry.players w).balls
        (rw (update_players-balls f w.registry.players w) v)

  show_local-balls : (g : Game N) → (show_local g).world.balls ≡ g.world.balls
  unfolding show_local on_local
  show_local-balls g = ground arith

  abbrev pub GameIsSound : Game N → Type 0
  GameIsSound g = IsSound g.world.balls

  draw_frame-IsSound :
      (fuel : ℕ) (now : Clock) (delta : N) (boxes : List (Box N)) (g : Game N)
      → GameIsSound g
      → GameIsSound (draw_frame fuel now delta boxes g)
  unfolding draw_frame
  draw_frame-IsSound fuel now delta boxes g v =
      let dt = min delta (decimal (pos 1) 1) in
      let world = advance_world fuel now dt boxes g.world in
      let sent = maybe_send_local_state now (local_player_of world) g.net in
      let heard = update_music_volume (local_player_of world) g.controls in
      let drawn : Game N = record { net = sent; world = world; controls = heard } in
      rw (show_local-balls drawn) (advance_world-IsSound fuel now dt boxes g.world v)

  mouse_down-IsSound :
      (now : Clock) (shot : Text) (button : ℕ) (g : Game N)
      → find shot g.world.balls.snowballs_by_id ≡ none
      → GameIsSound g
      → GameIsSound (mouse_down now shot button g)
  mouse_down-IsSound now shot button g new v =
      mouse_down_cases GameIsSound now shot button g v v (throw_snowball-IsSound now shot g new v)

  mouse_move-balls :
      (right down : N) (g : Game N) → (mouse_move right down g).world.balls ≡ g.world.balls
  unfolding mouse_move on_local
  mouse_move-balls right down g = ground arith

  key_down-balls : (key : Key) (g : Game N) → (key_down key g).world.balls ≡ g.world.balls
  unfolding key_down on_local
  key_down-balls key g = ground arith

  key_up-balls : (key : Key) (g : Game N) → (key_up key g).world.balls ≡ g.world.balls
  unfolding key_up on_local
  key_up-balls key g = ground arith

  say_chat-balls : (g : Game N) → (say_chat g).world.balls ≡ g.world.balls
  unfolding say_chat on_local
  say_chat-balls g = ground arith

  with_session-IsSound :
      (g : Game N) (o : Option (Session N))
      → Holds SessionIsSound o
      → Holds GameIsSound (with_session g o)
  unfolding with_session
  with_session-IsSound g none h = tt
  with_session-IsSound g (some s) h = h

  -- A click brings an id that no ball in flight has.
  abbrev pub Unused : Act N → Game N → Type 0
  Unused (clicks now shot button) g = find shot g.world.balls.snowballs_by_id ≡ none
  Unused _ g = Unit {0}

  act-IsSound :
      (what : Act N) (g : Game N) → Unused what g → GameIsSound g → Holds GameIsSound (act what g)
  unfolding act
  act-IsSound (connection what) g new v =
      with_session-IsSound g _ (step-IsSound what g.net g.world v)
  act-IsSound (clicks now shot button) g new v = mouse_down-IsSound now shot button g new v
  act-IsSound (moves_mouse right down) g new v = rw (mouse_move-balls right down g) v
  act-IsSound (key_goes_down key) g new v = rw (key_down-balls key g) v
  act-IsSound (key_goes_up key) g new v = rw (key_up-balls key g) v
  act-IsSound (pointer_changes locked) g new v = v
  act-IsSound focuses g new v = v
  act-IsSound (types text) g new v = v
  act-IsSound escapes g new v = v
  act-IsSound enters g new v = rw (say_chat-balls g) v
  act-IsSound (starts name subject) g new v = v
  act-IsSound (starts_as_guest value) g new v = v
  act-IsSound (bubble_hides r) g new v = v
  act-IsSound (model_loads r) g new v = v
  act-IsSound (ball_expires r) g new v =
      (destroy-IsTracked r g.world.balls v.0, destroy-IsListed r g.world.balls v.1)
  act-IsSound (frame fuel now delta boxes) g new v = draw_frame-IsSound fuel now delta boxes g v

  -- Every click of a play brings an id that no ball then in flight has.
  abbrev pub FreshShots : List (Act N) → Game N → Type 0
  FreshShots [] g = Unit {0}
  FreshShots (what ∷ rest) g = Unused what g × Holds (FreshShots rest) (act what g)

  -- In every play in which each click brings an id that no ball then in flight has, the store, the
  -- map, the scene and the array go on agreeing on which balls are in flight: a ball is in the map,
  -- under its id, and in the scene exactly while it is active, and the array holds every active ball,
  -- none twice.
  pub play-IsSound :
      (acts : List (Act N)) (g : Game N)
      → FreshShots acts g
      → GameIsSound g
      → Holds GameIsSound (play acts g)
  unfolding play
  play-IsSound [] g new v = v
  play-IsSound (what ∷ rest) g (new, later) v = elim (Option-cases (act what g)) [
    | inl reloaded ↦ rw (reloaded, play) tt
    | inr (g', went) ↦
        let kept : Holds GameIsSound (some g') = rw went at (act-IsSound what g new v) in
        let fresh : Holds (FreshShots rest) (some g') = rw went at later in
        rw (went, play) (play-IsSound rest g' fresh kept)
  ]
