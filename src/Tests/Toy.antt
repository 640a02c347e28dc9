-- ===== src/Tests/Toy.antt =====
-- An engine to run the model with: numbers are thousandths, the ground is flat, and the functions that
-- a test does not need are constant.
use snow_brawl_game.Base.{false, true, ℕ, ◌+◌, ◌*◌, ◌/◌, ◌^◌, not, [], none, some, if◌then◌else◌}
use snow_brawl_game.Base.Int.{ℤ, pos, negsuc, ◌+ℤ◌, ◌-ℤ◌, ◌*ℤ◌, ltb_ℤ, abs}
use snow_brawl_game.Base.Text.{Text, utf16}
use snow_brawl_game.Engine.{Engine, Vec3}
use snow_brawl_game.Base.{ℕ_discrete}
use snow_brawl_game.Base.Text.{Text-discrete}
use snow_brawl_game.Base.Dict
use snow_brawl_game.World.{Snapshot, Registry, World, is_local, update_object}
use snow_brawl_game.Network.{apply_snapshot, apply_entry, in_snapshot}
use snow_brawl_game.Network.Events.{apply_event}

abbrev pub milli : ℤ → ℕ → ℤ
milli (pos m) k = pos (m * 1000 / 10 ^ k)
milli (negsuc m) k = pos 0 -ℤ pos ((m + 1) * 1000 / 10 ^ k)

abbrev div_milli : ℤ → ℤ
div_milli (pos n) = pos (n / 1000)
div_milli (negsuc n) = negsuc (n / 1000)

abbrev max_ℤ : ℤ → ℤ → ℤ
max_ℤ a b = if ltb_ℤ a b then b else a

abbrev min_ℤ : ℤ → ℤ → ℤ
min_ℤ a b = if ltb_ℤ a b then a else b

abbrev times : ℤ → ℤ → ℤ
times a b = div_milli (a *ℤ b)

abbrev vec : (ℤ → ℤ → ℤ) → Vec3 ℤ → Vec3 ℤ → Vec3 ℤ
vec f v w = record { x = f v.x w.x; y = f v.y w.y; z = f v.z w.z }

instance abbrev pub toy : Engine ℤ
toy = record {
  decimal = milli;
  add = ◌+ℤ◌;
  sub = ◌-ℤ◌;
  mul = times;
  div = λ a b. a;
  neg = λ a. pos 0 -ℤ a;
  lt = ltb_ℤ;
  le = λ a b. not (ltb_ℤ b a);
  pi = pos 3142;
  sin = λ a. pos 0;
  cos = λ a. pos 0;
  exp = λ a. pos 500;
  sqrt = λ a. a;
  abs = abs;
  pow = λ a b. a;
  hypot = λ a b. max_ℤ (abs a) (abs b);
  hypot3 = λ a b c. max_ℤ (abs a) (max_ℤ (abs b) (abs c));
  atan2 = λ a b. pos 0;
  is_finite = λ a. true;
  truthy = λ a. ltb_ℤ (pos 0) (abs a);
  max = max_ℤ;
  min = min_ℤ;
  clamp = λ v lo hi. max_ℤ lo (min_ℤ hi v);
  lerp = λ a b t. b;
  vec_add = vec ◌+ℤ◌;
  vec_scale = λ v k. record { x = times v.x k; y = times v.y k; z = times v.z k };
  vec_lerp = λ v w k. w;
  vec_length = λ v. max_ℤ (abs v.x) (max_ℤ (abs v.y) (abs v.z));
  normalize = λ v. v;
  apply_euler = λ pitch yaw v. v;
  decode_utf8 = λ bytes. bytes;
}

abbrev pub at : ℕ → Vec3 ℤ
at n = record { x = pos n; y = pos 6000; z = pos 0 }

-- What the server says of a player.
abbrev pub entry : Text → ℤ → ℕ → Snapshot ℤ
entry id hp updated_at = record {
  id = id;
  name = id;
  pos = at 1000;
  rot_y = pos 0;
  vel = at 0;
  hp = some hp;
  crouch = false;
  updated_at = some updated_at;
  ping_ms = none;
}

abbrev pub me : Text
me = utf16 "me"

abbrev pub you : Text
you = utf16 "you"

-- Nobody is there.
abbrev pub nobody : Registry ℤ
nobody = record {
  objects = [];
  players = [];
  players_by_id = [];
  local_player = none;
  local_player_id = some me;
}

abbrev pub quiet : World ℤ
quiet = record {
  registry = nobody;
  balls = record { objects = []; snowballs = []; snowballs_by_id = [] };
  world_seed = 7;
  environment_ready = true;
  camera_yaw = pos 0;
  dead_overlay = false;
  hp_ui = record { percent = 100; hearts = 5 };
  chat_log = [];
  hit_flashes = 0;
}

-- What a test computes with.
unfoldable pub registry_runs : Unit {0}
unfolding apply_snapshot apply_entry apply_event is_local Text-discrete ℕ_discrete update_object
    Dict.get Dict.set Dict.delete in_snapshot
registry_runs = tt
