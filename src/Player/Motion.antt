-- ===== src/Player/Motion.antt =====
-- `update` and `throwSnowball` of client_src/player.js. The loops that turn a remote player's angle
-- have fuel: Player/Turn compares them with a `while`.
use snow_brawl_game.Base.{ℕ, zero, suc, ◌-◌, Bool, true, false, not, ◌&&◌, some, ltb, if◌then◌else◌}
use snow_brawl_game.Base.Int.{pos, negsuc}
use snow_brawl_game.Base.Text.{Text}
use snow_brawl_game.Engine.{Engine, Vec3}
use snow_brawl_game.Player.State.{Player, Input}
use snow_brawl_game.Player.Animation.{update_animation, update_flash}
use snow_brawl_game.Snowball.{Snowball, new_snowball}
use snow_brawl_game.Utils.Config.{
  gravity, move_speed, crouch_speed, jump_force, remote_lerp, map_half, snowball_cooldown,
}
use snow_brawl_game.Utils.Terrain.{ground_height_with_obstacles}

-- What `update` is called with: the seed, the fuel, `Date.now()` and the length of the frame.
pub record Frame (N : Type 0) : Type 0 where
  pub world_seed : ℕ
  pub fuel : ℕ
  pub now : ℕ
  pub dt : N

module _ {N : Type 0} ⦃e : Engine N⦄ where
  open e use {
    decimal, add, sub, mul, div, neg, lt, le, exp, pi, clamp, vec_add, vec_scale, vec_lerp,
    vec_length, normalize, apply_euler,
  }

  abbrev num : ℕ → N
  num n = decimal (pos n) 0

  abbrev pub full_turn : N
  full_turn = mul pi (decimal (pos 2) 0)

  -- `while (tarY - curY > Math.PI) curY += Math.PI * 2`.
  unfoldable pub turn_up : ℕ → N → N → N
  turn_up zero target current = current
  turn_up (suc fuel) target current =
      let rest = turn_up fuel target (add current full_turn) in
      if lt pi (sub target current) then rest else current

  -- `while (tarY - curY < -Math.PI) curY -= Math.PI * 2`.
  unfoldable pub turn_down : ℕ → N → N → N
  turn_down zero target current = current
  turn_down (suc fuel) target current =
      let rest = turn_down fuel target (sub current full_turn) in
      if lt (sub target current) (neg pi) then rest else current

  unfoldable pub turn : ℕ → N → N → N
  unfolding turn_up turn_down
  turn fuel target current = turn_down fuel target (turn_up fuel target current)

  unfoldable pub ground_below : ℕ → Vec3 N → N
  ground_below seed p = ground_height_with_obstacles seed p.x p.z

  -- A dead player lies on the ground.
  unfoldable pub lie_down : Frame N → Player N → Player N
  unfolding ground_below
  lie_down frame p = record p {
    rotation_x = div (neg pi) (num 2);
    position = record (p.position) {
      y = add (ground_below frame.world_seed p.position) (decimal (pos 2) 1);
    };
  }

  unfoldable pub follow : Frame N → Player N → Player N
  unfolding turn
  follow frame p =
      let k = sub (num 1) (exp (mul (neg remote_lerp) frame.dt)) in
      let current = turn frame.fuel p.target_rot_y p.rotation_y in
      record p {
        position = vec_lerp p.position p.target_pos k;
        rotation_y = add current (mul (sub p.target_rot_y current) k);
        velocity = vec_lerp p.velocity p.target_vel k;
        is_crouching = p.target_crouch;
      }

  -- Where the keys want to go.
  unfoldable pub move_dir : Input → Vec3 N
  move_dir keys =
      let z = if keys.w then sub (num 0) (num 1) else num 0 in
      let x = if keys.a then sub (num 0) (num 1) else num 0 in
      record {
        x = if keys.d then add x (num 1) else x;
        y = num 0;
        z = if keys.s then add z (num 1) else z;
      }

  -- The velocity that the keys, friction and gravity make.
  unfoldable pub accelerate : N → Player N → Player N
  unfolding move_dir
  accelerate dt p =
      let speed : N = if p.input.shift then crouch_speed else move_speed in
      let dir = move_dir p.input in
      let ahead = apply_euler (num 0) p.rotation_y (normalize dir) in
      let moves = lt (num 0) (vec_length dir) in
      let push = λ (v : N) (d : N). add v (mul (mul (mul d speed) dt) (num 8)) in
      let x : N = if moves then push p.velocity.x ahead.x else p.velocity.x in
      let z : N = if moves then push p.velocity.z ahead.z else p.velocity.z in
      let friction =
        if p.on_ground
        then exp (mul (decimal (negsuc 9) 0) dt)
        else exp (mul (decimal (negsuc 1) 0) dt) in
      record p {
        is_crouching = p.input.shift;
        velocity = record {
          x = mul x friction;
          y = sub p.velocity.y (mul gravity dt);
          z = mul z friction;
        };
      }

  unfoldable pub jump : Player N → Player N
  jump p =
      if p.input.space && p.on_ground
      then record p {
        velocity = record (p.velocity) { y = jump_force };
        on_ground = false;
        input = record (p.input) { space = false };
      }
      else p

  unfoldable pub spin : N → Player N → Player N
  spin dt p = if p.input.r then record p { rotation_y = add p.rotation_y (mul (num 20) dt) } else p

  -- The step of a frame, cut to the map.
  unfoldable pub step : N → Player N → Player N
  step dt p =
      let low = decimal (negsuc 189) 0 in
      let next = vec_add p.position (vec_scale p.velocity dt) in
      record p {
        position = record {
          x = clamp next.x low map_half;
          y = next.y;
          z = clamp next.z low map_half;
        };
      }

  unfoldable pub land : ℕ → Player N → Player N
  unfolding ground_below
  land seed p =
      let ground = ground_below seed p.position in
      if le p.position.y ground
      then record p {
        position = record (p.position) { y = ground };
        velocity = record (p.velocity) { y = num 0 };
        on_ground = true;
      }
      else p

  -- The local player's own motion; resolvePlayerStaticCollisions does nothing.
  unfoldable pub control : Frame N → Player N → Player N
  control frame p =
      land frame.world_seed (step frame.dt (spin frame.dt (jump (accelerate frame.dt p))))

  unfoldable pub animate : Frame N → Player N → Player N
  animate frame p =
      update_flash frame.dt (if p.is_bot then p else update_animation frame.now frame.dt p)

  unfoldable pub update : Frame N → Player N → Player N
  update frame p =
      if p.dead
      then lie_down frame p
      else (let upright : Player N = record p { rotation_x = num 0 } in
          if p.is_remote
          then animate frame (follow frame upright)
          else if p.is_bot
          then upright
          else animate frame (control frame upright))

  -- `cameraYaw` after `update`: a spinning local player turns the camera too.
  unfoldable pub camera_yaw_after : Frame N → Player N → N → N
  camera_yaw_after frame p yaw =
      if not p.dead && (not p.is_remote && (not p.is_bot && p.input.r))
      then (update frame p).rotation_y
      else yaw

  -- Whether `throwSnowball` returns at once; `now` is in microseconds. A clock that stands before the
  -- last shot counts as no time.
  unfoldable pub may_throw : ℕ → Player N → Bool
  may_throw now p = not p.dead && not (ltb (now - p.last_shot_at) snowball_cooldown)

  unfoldable pub aim : N → Player N → Vec3 N
  aim pitch p =
      normalize
        (apply_euler pitch p.rotation_y (record { x = num 0; y = num 0; z = decimal (negsuc 0) 0 }))

  unfoldable pub thrown : Text → N → Player N → Snowball N
  unfolding aim new_snowball
  thrown shot pitch p =
      let dir = aim pitch p in
      let hand : Vec3 N = record (p.position) { y = add p.position.y (decimal (pos 14) 1) } in
      new_snowball shot (vec_add hand (vec_scale dir (decimal (pos 5) 1))) dir p.id

  unfoldable pub throw_from : ℕ → Player N → Player N
  throw_from now p = record p { last_shot_at = now; attack_time = num 1 }

  -- The model of a bot has been loaded; it does not glow yet.
  unfoldable pub load_snowman : Player N → Player N
  load_snowman p = if p.is_bot then record p { snowman = some (num 0) } else p
