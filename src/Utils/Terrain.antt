-- ===== src/Utils/Terrain.antt =====
-- `terrainHeight` and `groundHeightWithObstacles` of client_src/utils.js; `worldSeed` is an argument.
use snow_brawl_game.Base.{ℕ, if◌then◌else◌}
use snow_brawl_game.Base.Int.{pos, negsuc}
use snow_brawl_game.Engine.{Engine}

module _ {N : Type 0} ⦃e : Engine N⦄ where
  open e use {decimal, add, sub, mul, le, sin, cos, abs, pow}

  unfoldable pub terrain_height : ℕ → N → N → N
  terrain_height world_seed x z =
      let scale1 = decimal (pos 6) 2 in
      let scale2 = decimal (pos 12) 2 in
      let s = mul (decimal (pos world_seed) 0) (decimal (pos 1) 4) in
      let n1 =
        add (sin (add (mul x scale1) (mul s (decimal (pos 1337) 2))))
          (cos (sub (mul z scale1) (mul s (decimal (pos 721) 2)))) in
      let n2 =
        sub (sin (sub (mul (add x (decimal (pos 1000) 0)) scale2) (mul s (decimal (pos 317) 2))))
          (cos (add (mul (sub z (decimal (pos 500) 0)) scale2) (mul s (decimal (pos 999) 2)))) in
      let h = add (mul n1 (decimal (pos 7) 1)) (mul n2 (decimal (pos 3) 1)) in
      let sign = if le (decimal (pos 0) 0) h then decimal (pos 1) 0 else decimal (negsuc 0) 0 in
      add (mul (mul sign (pow (abs h) (decimal (pos 18) 1))) (decimal (pos 25) 1))
        (decimal (pos 6) 0)

  unfoldable pub ground_height_with_obstacles : ℕ → N → N → N
  unfolding terrain_height
  ground_height_with_obstacles world_seed x z = terrain_height world_seed x z
