-- ===== src/Environment/Drawing.antt =====
-- What `createEnvironment` of client_src/environment.js draws from the seeded generator before it places
-- the models: the ground's texture and the snow.
use snow_brawl_game.Base.{ℕ, zero, suc, ◌*◌, ◌/◌, Bool, List, [], ◌∷◌, ltb}
use snow_brawl_game.Base.Int.{pos}
use snow_brawl_game.Engine.{Engine, Vec3}
use snow_brawl_game.Utils.Hash.{u32_mod}
use snow_brawl_game.Utils.Rng.{draw}

-- A rectangle of the ground's texture: whether it is of the first colour, and its place.
pub record Patch : Type 0 where
  pub bright : Bool
  pub left : ℕ
  pub top : ℕ

-- `Math.floor(rng() * n)`, of a draw.
unfoldable pub floor_of : ℕ → ℕ → ℕ
floor_of n r = r * n / u32_mod

-- `rng() > 0.5` is a draw above 2^31.
unfoldable pub patch : ℕ → Patch × ℕ
unfolding floor_of
patch s =
    let (s1, a) = draw s in
    let (s2, b) = draw s1 in
    let (s3, c) = draw s2 in
    (record { bright = ltb 0x80000000 a; left = floor_of 64 b; top = floor_of 64 c }, s3)

unfoldable pub draw_patches : ℕ → ℕ → List Patch × ℕ
unfolding patch
draw_patches zero s = ([], s)
draw_patches (suc n) s =
    let (p, s') = patch s in let (ps, after) = draw_patches n s' in (p ∷ ps, after)

module _ {N : Type 0} ⦃e : Engine N⦄ where
  open e use {decimal, sub, mul, div}

  abbrev num : ℕ → N
  num n = decimal (pos n) 0

  -- `rng()` as a number.
  unfoldable pub unit_of : ℕ → N
  unit_of r = div (num r) (num u32_mod)

  -- `(rng() - 0.5) * width`.
  unfoldable pub centred : N → ℕ → N
  unfolding unit_of
  centred width r = mul (sub (unit_of r) (decimal (pos 5) 1)) width

  unfoldable pub flake : ℕ → Vec3 N × ℕ
  unfolding centred
  flake s =
      let (s1, a) = draw s in
      let (s2, b) = draw s1 in
      let (s3, c) = draw s2 in
      (
        record { x = centred (num 240) a; y = mul (unit_of b) (num 50); z = centred (num 240) c },
        s3,
      )

  unfoldable pub draw_flakes : ℕ → ℕ → List (Vec3 N) × ℕ
  unfolding flake
  draw_flakes zero s = ([], s)
  draw_flakes (suc n) s =
      let (p, s') = flake s in let (ps, after) = draw_flakes n s' in (p ∷ ps, after)
