-- ===== src/Snowball.antt =====
-- `Snowball` of client_src/snowball.js, and the snowballs that the scripts share: `snowballs` and
-- `snowballsById` of client_src/utils.js. Balls are shared objects in a store.
pub mod Tracked
pub mod Flights
pub mod Listed
pub mod Sweep
use snow_brawl_game.Base.{
  ℕ, Bool, true, false, ◌&&◌, ◌||◌, List, [], ◌∷◌, ◌++◌, none, some, length, get_elem?, modify,
  if◌then◌else◌,
}
use snow_brawl_game.Base.Int.{pos}
use snow_brawl_game.Base.Text.{Text, Text-discrete}
use snow_brawl_game.Base.Dict
use snow_brawl_game.Engine.{Engine, Vec3}
use snow_brawl_game.Utils.Config.{gravity, snowball_speed}
use snow_brawl_game.Utils.Terrain.{terrain_height}

pub record Snowball (N : Type 0) : Type 0 where
  pub id : Text
  pub active : Bool
  pub owner_id : Text
  pub position : Vec3 N
  pub velocity : Vec3 N
  pub rotation_x : N
  pub rotation_y : N
  pub in_scene : Bool

-- A `Box3`.
pub record Box (N : Type 0) : Type 0 where
  pub low : Vec3 N
  pub high : Vec3 N

pub record Balls (N : Type 0) : Type 0 where
  pub objects : List (Snowball N)
  pub snowballs : List ℕ
  pub snowballs_by_id : List (Text × ℕ)

module _ {N : Type 0} where
  -- The part of `destroy` on the ball itself; a second call changes nothing.
  unfoldable pub deactivate : Snowball N → Snowball N
  deactivate b = if b.active then record b { active = false; in_scene = false } else b

  -- `destroy`: the ball leaves the scene and the map, not the array.
  unfoldable pub destroy : ℕ → Balls N → Balls N
  unfolding deactivate
  destroy r balls = elim (get_elem? balls.objects r) [
    | none ↦ balls
    | some b ↦
        if b.active
        then record balls {
          objects = modify balls.objects r deactivate;
          snowballs_by_id = Dict.delete Text-discrete b.id balls.snowballs_by_id;
        }
        else balls
  ]

  -- `snowballs.push(sb); snowballsById.set(id, sb)`.
  unfoldable pub add_snowball : Snowball N → Balls N → Balls N
  add_snowball b balls = record {
    objects = balls.objects ++ b ∷ [];
    snowballs = balls.snowballs ++ length balls.objects ∷ [];
    snowballs_by_id = Dict.set Text-discrete b.id (length balls.objects) balls.snowballs_by_id;
  }

  -- `snowballs[i].active`.
  unfoldable pub is_active : ℕ → Balls N → Bool
  is_active r balls = elim (get_elem? balls.objects r) [ none ↦ false | some b ↦ b.active ]

module _ {N : Type 0} ⦃e : Engine N⦄ where
  open e use {decimal, add, sub, mul, lt, le, vec_add, vec_scale}

  -- The constructor; its timer of three seconds is an act of the play, in Game/Play.antt.
  unfoldable pub new_snowball : Text → Vec3 N → Vec3 N → Text → Snowball N
  new_snowball id p dir owner_id = record {
    id = id;
    active = true;
    owner_id = owner_id;
    position = p;
    velocity = vec_scale dir snowball_speed;
    rotation_x = decimal (pos 0) 0;
    rotation_y = decimal (pos 0) 0;
    in_scene = true;
  }

  -- The test of one obstacle, for a ball of radius 0.2.
  unfoldable pub hits_box : Vec3 N → Box N → Bool
  hits_box p box =
      let radius = decimal (pos 2) 1 in
      if lt (add p.y radius) box.low.y || lt box.high.y (sub p.y radius)
      then false
      else le (sub box.low.x radius) p.x
        && le p.x (add box.high.x radius)
        && le (sub box.low.z radius) p.z
        && le p.z (add box.high.z radius)

  unfoldable pub hits_any : Vec3 N → List (Box N) → Bool
  unfolding hits_box
  hits_any p [] = false
  hits_any p (box ∷ boxes) = hits_box p box || hits_any p boxes

  -- The motion of one frame.
  unfoldable pub fly : N → Snowball N → Snowball N
  fly dt b =
      let v : Vec3 N = record (b.velocity) { y = sub b.velocity.y (mul gravity dt) } in
      record b {
        velocity = v;
        position = vec_add b.position (vec_scale v dt);
        rotation_x = add b.rotation_x (mul dt (decimal (pos 10) 0));
        rotation_y = add b.rotation_y (mul dt (decimal (pos 10) 0));
      }

  -- Whether the ball has met the ground or an obstacle.
  unfoldable pub stopped : ℕ → List (Box N) → Snowball N → Bool
  unfolding hits_any terrain_height
  stopped world_seed boxes b =
      le b.position.y (terrain_height world_seed b.position.x b.position.z)
      || hits_any b.position boxes

  unfoldable pub update : ℕ → List (Box N) → N → ℕ → Balls N → Balls N
  unfolding fly stopped destroy
  update world_seed boxes dt r balls = elim (get_elem? balls.objects r) [
    | none ↦ balls
    | some b ↦
        if b.active
        then (let moved = record balls { objects = modify balls.objects r (fly dt) } in
            if stopped world_seed boxes (fly dt b) then destroy r moved else moved)
        else balls
  ]

  -- The loop of `animate` in client_src/init.js, from the end of the array to its beginning: the
  -- references that stay, and the balls.
  unfoldable pub sweep : ℕ → List (Box N) → N → List ℕ → Balls N → List ℕ × Balls N
  unfolding update is_active
  sweep world_seed boxes dt [] balls = ([], balls)
  sweep world_seed boxes dt (r ∷ rs) balls =
      let (kept, later) = sweep world_seed boxes dt rs balls in
      let after = update world_seed boxes dt r later in
      (if is_active r after then r ∷ kept else kept, after)

  unfoldable pub update_snowballs : ℕ → List (Box N) → N → Balls N → Balls N
  unfolding sweep
  update_snowballs world_seed boxes dt balls =
      let (kept, after) = sweep world_seed boxes dt balls.snowballs balls in
      record after { snowballs = kept }
