-- ===== src/Player.antt =====
-- `PlayerModel` of client_src/player.js: its constructor and its short methods.
mod State
pub mod Animation
pub mod Motion
pub mod Turn
pub mod Bounds
pub mod Identity
use snow_brawl_game.Base.{
  ℕ, ◌≡◌, Bool, true, false, [], ◌++◌, Option, none, some, if◌then◌else◌, ite,
}
use snow_brawl_game.Base.Int.{ℤ, pos, negsuc}
use snow_brawl_game.Base.Text.{Text, utf16, is_empty, starts_with, Text-discrete}
use snow_brawl_game.Engine.{Engine, Vec3}
use snow_brawl_game.Utils.Config.{map_half}
use snow_brawl_game.Utils.Palette.{pick_pastel_pair}
use snow_brawl_game.Utils.Strings.{trim, fix_utf8, show_number}
use snow_brawl_game.Utils.Terrain.{terrain_height}
unfoldable pub use State.*

-- `displayName` of a name and a ping.
unfoldable pub display_name : Text → Option ℕ → Text
display_name name none = name
display_name name (some ms) = name ++ utf16 " (" ++ show_number ms ++ utf16 "ms)"

module _ {N : Type 0} where
  unfoldable pub destroy : Player N → Player N
  destroy p = record p { in_scene = false }

  -- The timer of `showChat`, five seconds later.
  unfoldable pub hide_chat : Player N → Player N
  hide_chat p = record p { chat_sprite = record (p.chat_sprite) { visible = false } }

module _ {N : Type 0} ⦃e : Engine N⦄ where
  open e use {decimal, add, clamp}

  abbrev pub num : ℕ → N
  num n = decimal (pos n) 0

  abbrev pub zero_vec : Vec3 N
  zero_vec = record { x = num 0; y = num 0; z = num 0 }

  abbrev pub sprite_height : Bool → N
  sprite_height is_bot = if is_bot then decimal (pos 35) 1 else decimal (pos 24) 1

  -- The sprite that shows the name.
  unfoldable pub name_label : Bool → Text → Option ℕ → Label N
  unfolding display_name
  name_label is_bot name ping = record {
    text = display_name name ping;
    height = sprite_height is_bot;
    visible = true;
  }

  -- `new PlayerModel(scene, id, pos, name, isRemote)`, on the terrain of a seed.
  unfoldable pub new_player : ℕ → Text → Vec3 N → Text → Bool → Player N
  unfolding name_label starts_with
  new_player world_seed id p name is_remote =
      let fixed = fix_utf8 N name in
      let is_bot = starts_with (utf16 "bot-") id in
      let palette_key = if is_empty (trim name) then id else trim name in
      let pastel = pick_pastel_pair palette_key in
      let own : Colors = record {
        skin = some 0xFACC9E;
        shirt = pastel.shirt;
        pants = pastel.pants;
      } in
      record {
        id = id;
        is_remote = is_remote;
        name = fixed;
        ping_ms = none;
        dead = false;
        health = pos 100;
        last_shot_at = 0;
        is_bot = is_bot;
        velocity = zero_vec;
        on_ground = false;
        is_crouching = false;
        target_crouch = false;
        input = no_input;
        target_pos = p;
        target_rot_y = num 0;
        target_vel = zero_vec;
        colors = own;
        base_colors = own;
        hit_flash_time = num 0;
        position = record {
          x = p.x;
          y = if is_remote then p.y else terrain_height world_seed p.x p.z;
          z = p.z;
        };
        rotation_x = num 0;
        rotation_y = num 0;
        in_scene = true;
        visible = true;
        name_sprite = name_label is_bot fixed none;
        chat_sprite = record {
          text = [];
          height = if is_bot then decimal (pos 4) 0 else decimal (pos 28) 1;
          visible = false;
        };
        walk_time = num 0;
        attack_time = num 0;
        pose = record {
          body_y = decimal (pos 75) 2;
          body_lean = num 0;
          left_leg = num 0;
          right_leg = num 0;
          left_arm_x = num 0;
          right_arm_x = num 0;
          left_arm_z = num 0;
          right_arm_z = num 0;
        };
        snowman = none;
        last_hp_at = none;
      }

  unfoldable pub on_hit : Player N → Player N
  on_hit p = record p { hit_flash_time = decimal (pos 25) 2 }

  unfoldable pub update_name_label : Text → Player N → Player N
  unfolding name_label
  update_name_label name p =
      let fixed = fix_utf8 N name in
      ite (Text-discrete p.name fixed) p
        (record p { name = fixed; name_sprite = name_label p.is_bot fixed p.ping_ms })

  unfoldable pub update_ping : ℕ → Player N → Player N
  unfolding name_label
  update_ping ms p = record p {
    ping_ms = some ms;
    name_sprite = name_label p.is_bot p.name (some ms);
  }

  unfoldable pub show_chat : Text → Player N → Player N
  show_chat text p = record p {
    chat_sprite = record { text = text; height = decimal (pos 28) 1; visible = true };
  }

  unfoldable pub set_remote_target : Vec3 N → N → Vec3 N → Bool → Player N → Player N
  set_remote_target p rot_y vel crouch player =
      let low = decimal (negsuc 189) 0 in
      record player {
        target_pos = record { x = clamp p.x low map_half; y = p.y; z = clamp p.z low map_half };
        target_rot_y = rot_y;
        target_vel = vel;
        target_crouch = crouch;
      }

  unfoldable pub apply_knockback : Vec3 N → Player N → Player N
  apply_knockback impulse p = record p {
    velocity = record {
      x = add p.velocity.x impulse.x;
      y = add p.velocity.y impulse.y;
      z = add p.velocity.z impulse.z;
    };
    on_ground = false;
  }
