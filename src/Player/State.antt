-- ===== src/Player/State.antt =====
-- The state of `PlayerModel` (client_src/player.js). The meshes are the fields that the program
-- changes later; `in_scene` says whether the group of meshes hangs in the scene, and a label is its
-- text, its height and its visibility.
use snow_brawl_game.Base.{ℕ, Bool, false, Option}
use snow_brawl_game.Base.Int.{ℤ}
use snow_brawl_game.Base.Text.{Text}
use snow_brawl_game.Engine.{Vec3}

pub record Input : Type 0 where
  pub w : Bool
  pub a : Bool
  pub s : Bool
  pub d : Bool
  pub space : Bool
  pub shift : Bool
  pub r : Bool

-- A text sprite.
pub record Label (N : Type 0) : Type 0 where
  pub text : Text
  pub height : N
  pub visible : Bool

-- Angles of the limbs and of the body, and the height of the body.
pub record Pose (N : Type 0) : Type 0 where
  pub body_y : N
  pub body_lean : N
  pub left_leg : N
  pub right_leg : N
  pub left_arm_x : N
  pub right_arm_x : N
  pub left_arm_z : N
  pub right_arm_z : N

-- Colours of the three materials; `none` is `undefined`.
pub record Colors : Type 0 where
  pub skin : Option ℕ
  pub shirt : Option ℕ
  pub pants : Option ℕ

pub record Player (N : Type 0) : Type 0 where
  pub id : Text
  pub is_remote : Bool
  pub name : Text
  pub ping_ms : Option ℕ
  pub dead : Bool
  pub health : ℤ
  -- in microseconds of `performance.now()`
  pub last_shot_at : ℕ
  pub is_bot : Bool
  pub velocity : Vec3 N
  pub on_ground : Bool
  pub is_crouching : Bool
  pub target_crouch : Bool
  pub input : Input
  pub target_pos : Vec3 N
  pub target_rot_y : N
  pub target_vel : Vec3 N
  pub colors : Colors
  pub base_colors : Colors
  pub hit_flash_time : N
  pub position : Vec3 N
  pub rotation_x : N
  pub rotation_y : N
  pub in_scene : Bool
  pub visible : Bool
  pub name_sprite : Label N
  pub chat_sprite : Label N
  pub walk_time : N
  pub attack_time : N
  pub pose : Pose N
  -- The glow of the snowman of a bot, once its model is loaded.
  pub snowman : Option N
  -- Set by the network code; in milliseconds of `Date.now()`.
  pub last_hp_at : Option ℕ

-- No key is down.
abbrev pub no_input : Input
no_input = record {
  w = false;
  a = false;
  s = false;
  d = false;
  space = false;
  shift = false;
  r = false;
}
