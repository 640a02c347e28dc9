-- ===== src/Game/Draw.antt =====
-- `animate`, the frame loop of client_src/init.js, with `updateMusicVolume`. The Christmas tree is
-- left out.
use snow_brawl_game.Base.{ℕ, List, [], ◌∷◌, map, Option, none, some, if◌then◌else◌, get_elem?}
use snow_brawl_game.Base.Int.{pos, negsuc}
use snow_brawl_game.Engine.{Engine, Vec3}
use snow_brawl_game.Player.{Player}
use snow_brawl_game.Player.Motion.{Frame, update, camera_yaw_after}
use snow_brawl_game.Snowball.{Box, update_snowballs}
use snow_brawl_game.World.{World, update_object}
use snow_brawl_game.Connection.{Clock, maybe_send_local_state}
use snow_brawl_game.Game.State.{Controls, Game, on_controls, on_local}

module _ {N : Type 0} ⦃e : Engine N⦄ where
  open e use {
    decimal, add, sub, mul, div, lt, le, pow, max, min, vec_add, vec_lerp, vec_length, apply_euler,
  }

  abbrev num : ℕ → N
  num n = decimal (pos n) 0

  -- `players.forEach(p => p.update(dt))`; a player who spins turns the camera.
  unfoldable pub update_players : Frame N → List ℕ → World N → World N
  unfolding update camera_yaw_after
  update_players frame [] w = w
  update_players frame (r ∷ rs) w = elim (get_elem? w.registry.objects r) [
    | none ↦ update_players frame rs w
    | some p ↦ update_players frame rs (record w {
      registry = update_object r (update frame) w.registry;
      camera_yaw = camera_yaw_after frame p w.camera_yaw;
    })
  ]

  -- The volume at a distance from the tree.
  unfoldable pub volume_at : N → N
  volume_at distance =
      let low = decimal (pos 5) 2 in
      if le distance (num 10)
      then num 1
      else if le (num 180) distance
      then low
      else max low (
          pow (sub (num 1) (div (sub distance (num 10)) (sub (num 180) (num 10))))
            (decimal (pos 15) 1))

  -- The tree stands at the origin: the distance is the length of the position.
  unfoldable pub update_music_volume : Option (Player N) → Controls N → Controls N
  unfolding volume_at
  update_music_volume none c = c
  update_music_volume (some p) c = record c { gain = volume_at (vec_length p.position) }

  -- The camera behind the player's head, or in it.
  unfoldable pub place_camera : N → Player N → Controls N → Controls N
  place_camera yaw p c =
      let eye = if p.input.shift then decimal (pos 135) 2 else decimal (pos 15) 1 in
      let head : Vec3 N = record (p.position) { y = add p.position.y eye } in
      let turned = λ (v : Vec3 N). apply_euler c.camera_pitch yaw v in
      let behind : Vec3 N = record { x = num 0; y = num 0; z = decimal (pos 35) 1 } in
      let ahead : Vec3 N = record { x = num 0; y = num 0; z = decimal (negsuc 0) 0 } in
      let half = decimal (pos 5) 1 in
      if c.third_person
      then record c {
        camera_position = vec_lerp c.camera_position (vec_add head (turned behind)) half;
        camera_target = head;
      }
      else record c {
        camera_position = vec_lerp c.camera_position head half;
        camera_target = vec_add head (turned ahead);
      }

  unfoldable pub fall : N → N → N
  fall dt y = let lower = sub y (mul (num 5) dt) in if lt lower (num 0) then num 50 else lower

  unfoldable pub fall_all : N → Option (List N) → Option (List N)
  unfolding fall
  fall_all dt none = none
  fall_all dt (some ys) = some (map (fall dt) ys)

  -- The object of the local player.
  unfoldable pub local_player_of : World N → Option (Player N)
  local_player_of w = elim w.registry.local_player [
    | none ↦ none
    | some r ↦ get_elem? w.registry.objects r
  ]

  unfoldable pub show_local : Game N → Game N
  unfolding local_player_of place_camera on_local
  show_local g = elim (local_player_of g.world) [
    | none ↦ g
    | some p ↦ record g {
      controls = place_camera g.world.camera_yaw p g.controls;
      world = on_local (λ q. record q { visible = g.controls.third_person }) g.world;
    }
  ]

  -- What moves in a frame: players, then snowballs.
  unfoldable pub advance_world : ℕ → Clock → N → List (Box N) → World N → World N
  unfolding update_players update_snowballs
  advance_world fuel now dt boxes w =
      let frame : Frame N = record {
        world_seed = w.world_seed;
        fuel = fuel;
        now = now.date;
        dt = dt;
      } in
      let moved = update_players frame w.registry.players w in
      record moved { balls = update_snowballs w.world_seed boxes dt moved.balls }

  -- A frame, `delta` seconds after the one before.
  unfoldable pub draw_frame : ℕ → Clock → N → List (Box N) → Game N → Game N
  unfolding advance_world local_player_of update_music_volume show_local fall_all
  draw_frame fuel now delta boxes g =
      let dt = min delta (decimal (pos 1) 1) in
      let world = advance_world fuel now dt boxes g.world in
      let sent = maybe_send_local_state now (local_player_of world) g.net in
      let heard = update_music_volume (local_player_of world) g.controls in
      on_controls (λ c. record c { snow = fall_all dt c.snow })
        (show_local (record { net = sent; world = world; controls = heard }))
