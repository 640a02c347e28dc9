-- ===== src/Player/Animation.antt =====
-- `updateAnimation` of client_src/player.js, and the colours of a hit in `update`. `now` is
-- `Date.now()`.
use snow_brawl_game.Base.{ℕ, Bool, Option, none, some, if◌then◌else◌}
use snow_brawl_game.Base.Int.{pos, negsuc}
use snow_brawl_game.Engine.{Engine}
use snow_brawl_game.Player.State.{Player, Pose}

-- The colour of all materials while a hit flashes.
abbrev pub flash_color : Option ℕ
flash_color = some 0xFF4444

module _ {N : Type 0} ⦃e : Engine N⦄ where
  open e use {decimal, add, sub, mul, div, neg, lt, le, sin, pi, lerp, hypot, max}

  abbrev zero_num : N
  zero_num = decimal (pos 0) 0

  -- The limbs of a player who walks.
  unfoldable pub walking : N → Bool → Pose N → Pose N
  walking walk_time crouching pose =
      let amp = if crouching then zero_num else decimal (pos 6) 1 in
      let angle = mul (sin walk_time) amp in
      let half = decimal (pos 5) 1 in
      record pose {
        left_leg = angle;
        right_leg = neg angle;
        left_arm_x = if crouching then half else neg angle;
        right_arm_x = if crouching then half else angle;
        left_arm_z = zero_num;
        right_arm_z = zero_num;
      }

  -- The limbs of a player who stands still: they swing back, and the arms breathe.
  unfoldable pub standing : ℕ → N → N → Pose N → Pose N
  standing now dt attack_time pose =
      let speed = mul dt (decimal (pos 10) 0) in
      let breath =
        mul (sin (div (decimal (pos now) 0) (decimal (pos 300) 0))) (decimal (pos 2) 2) in
      let rests = le attack_time zero_num in
      record pose {
        left_leg = lerp pose.left_leg zero_num speed;
        right_leg = lerp pose.right_leg zero_num speed;
        left_arm_z = add (decimal (pos 5) 2) breath;
        right_arm_z = sub (decimal (negsuc 4) 2) breath;
        left_arm_x = if rests then lerp pose.left_arm_x zero_num speed else pose.left_arm_x;
        right_arm_x = if rests then lerp pose.right_arm_x zero_num speed else pose.right_arm_x;
      }

  -- The right arm of a throw.
  unfoldable pub throwing_arm : N → N
  throwing_arm attack_time =
      let phase = sub (decimal (pos 1) 0) attack_time in
      let low = div (neg pi) (decimal (pos 2) 0) in
      if lt phase (decimal (pos 2) 1)
      then mul low (div phase (decimal (pos 2) 1))
      else add low (
          mul (div pi (decimal (pos 15) 1))
            (div (sub phase (decimal (pos 2) 1)) (decimal (pos 8) 1)))

  unfoldable pub bend : N → Player N → Pose N
  bend dt p = record (p.pose) {
    body_y =
        lerp p.pose.body_y (if p.is_crouching then decimal (pos 60) 2 else decimal (pos 75) 2)
          (mul dt (decimal (pos 15) 0));
    body_lean =
        lerp p.pose.body_lean (if p.is_crouching then decimal (negsuc 7) 1 else zero_num)
          (mul dt (decimal (pos 10) 0));
  }

  -- The throw that is going on.
  unfoldable pub swing : N → Player N → Player N
  unfolding throwing_arm
  swing dt p =
      if lt zero_num p.attack_time
      then (let left = sub p.attack_time (mul dt (decimal (pos 4) 0)) in
          record p {
            attack_time = left;
            pose = record (p.pose) { right_arm_x = throwing_arm left };
          })
      else p

  unfoldable pub stride : ℕ → N → Player N → Player N
  unfolding walking standing bend
  stride now dt p =
      let moving = lt (decimal (pos 1) 1) (hypot p.velocity.x p.velocity.z) in
      let pace = if p.is_crouching then decimal (pos 6) 0 else decimal (pos 10) 0 in
      let walk_time = add p.walk_time (mul dt pace) in
      if moving
      then record p { walk_time = walk_time; pose = walking walk_time p.is_crouching (bend dt p) }
      else record p { pose = standing now dt p.attack_time (bend dt p) }

  unfoldable pub update_animation : ℕ → N → Player N → Player N
  update_animation now dt p = swing dt (stride now dt p)

  -- The glow of a snowman whose model is loaded.
  unfoldable pub glow : N → Option N → Option N
  glow intensity none = none
  glow intensity (some _) = some intensity

  -- The end of `update`: the flash of a hit, or the player's own colours.
  unfoldable pub update_flash : N → Player N → Player N
  unfolding glow
  update_flash dt p =
      if lt zero_num p.hit_flash_time
      then (let left = sub p.hit_flash_time dt in
          let strength = max (div left (decimal (pos 25) 2)) zero_num in
          if p.is_bot
          then record p {
            hit_flash_time = left;
            snowman = glow (mul strength (decimal (pos 5) 1)) p.snowman;
          }
          else record p {
            hit_flash_time = left;
            colors = record { skin = flash_color; shirt = flash_color; pants = flash_color };
          })
      else if p.is_bot
      then record p { snowman = glow zero_num p.snowman }
      else record p { colors = p.base_colors }
