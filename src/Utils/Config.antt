-- ===== src/Utils/Config.antt =====
-- `CONFIG` of client_src/utils.js. Times that are compared with `performance.now()` are in
-- microseconds.
use snow_brawl_game.Base.{ℕ}
use snow_brawl_game.Base.Int.{pos, negsuc}
use snow_brawl_game.Engine.{Engine}

abbrev pub snowball_cooldown : ℕ
snowball_cooldown = 250000

-- 1000 / netSendHz milliseconds.
abbrev pub send_interval : ℕ
send_interval = 50000

module _ {N : Type 0} ⦃e : Engine N⦄ where
  open e use {decimal}

  abbrev pub gravity : N
  gravity = decimal (pos 22) 0

  abbrev pub move_speed : N
  move_speed = decimal (pos 8) 0

  abbrev pub crouch_speed : N
  crouch_speed = decimal (pos 3) 0

  abbrev pub jump_force : N
  jump_force = decimal (pos 95) 1

  abbrev pub snowball_speed : N
  snowball_speed = decimal (pos 28) 0

  abbrev pub remote_lerp : N
  remote_lerp = decimal (pos 12) 0

  abbrev pub look_sensitivity : N
  look_sensitivity = decimal (pos 2) 3

  abbrev pub min_pitch : N
  min_pitch = decimal (negsuc 14) 1

  abbrev pub max_pitch : N
  max_pitch = decimal (pos 15) 1

  abbrev pub map_half : N
  map_half = decimal (pos 190) 0
