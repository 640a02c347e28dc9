-- ===== src/Server/Bots.antt =====
-- The bots of bot.ts: their records, the places they are put at, and the walk.
pub mod Turn
pub mod Places
pub mod Room
use snow_brawl_game.Base.{
  ◌++◌, ℕ, zero, suc, ◌+◌, ◌*◌, Bool, true, false, not, ◌||◌, List, [], ◌∷◌, Option, none, some,
  leb, ltb, if◌then◌else◌,
}
use snow_brawl_game.Base.Int.{pos, negsuc}
use snow_brawl_game.Base.Text.{Text, utf16, starts_with, Text-discrete}
use snow_brawl_game.Base.Dict
use snow_brawl_game.Engine.{Engine, Vec3}
use snow_brawl_game.Utils.Strings.{show_number}
use snow_brawl_game.Server.Protocol.{PlayerSnapshot}
use snow_brawl_game.Server.State.{Server, cache_player}

pub record Bot (N : Type 0) : Type 0 where
  pub id : Text
  pub name : Text
  pub pos : Vec3 N
  pub rot_y : N
  pub vel : Vec3 N
  pub hp : ℕ
  pub target_pos : Option (Vec3 N)
  pub last_shot_at : N
  pub move_timer : ℕ

-- `BOT_NAMES[i]` and the id of the same bot.
abbrev pub bot_name : ℕ → Text
bot_name i = utf16 "雪人Bot-" ++ show_number (suc i)

abbrev pub bot_id : ℕ → Text
bot_id i = utf16 "bot-" ++ show_number i

module _ {N : Type 0} ⦃e : Engine N⦄ where
  open e use {
    decimal, add, sub, mul, div, neg, lt, le, pi, sin, cos, sqrt, abs, pow, max, min, atan2,
    is_finite,
  }

  -- `terrainHeight`, on the server's side; the world's seed is an argument.
  unfoldable pub bot_terrain_height : ℕ → N → N → N
  bot_terrain_height seed x z =
      let scale1 = decimal (pos 6) 2 in
      let scale2 = decimal (pos 12) 2 in
      let s = mul (decimal (pos seed) 0) (decimal (pos 1) 4) in
      let n1 =
        add (sin (add (mul x scale1) (mul s (decimal (pos 1337) 2))))
          (cos (sub (mul z scale1) (mul s (decimal (pos 721) 2)))) in
      let n2 =
        sub (sin (sub (mul (add x (decimal (pos 1000) 0)) scale2) (mul s (decimal (pos 317) 2))))
          (cos (add (mul (sub z (decimal (pos 500) 0)) scale2) (mul s (decimal (pos 999) 2)))) in
      let h = add (mul n1 (decimal (pos 7) 1)) (mul n2 (decimal (pos 3) 1)) in
      let sign = if le (decimal (pos 0) 0) h then decimal (pos 1) 0 else decimal (negsuc 0) 0 in
      add (mul (mul sign (pow (abs h) (decimal (pos 18) 1))) (decimal (pos 25) 1))
        (decimal (pos 6) 0)

  -- `Math.max(-half, Math.min(half, x))`.
  unfoldable pub within : N → N → N
  within half x = max (neg half) (min half x)

  unfoldable pub from_centre : N → N → N
  from_centre x z = sqrt (add (mul x x) (mul z z))

  -- `CHRISTMAS_TREE_RADIUS` is 25, `MAP_HALF` 190.
  abbrev pub tree_radius : N
  tree_radius = decimal (pos 25) 0

  abbrev pub map_half : N
  map_half = decimal (pos 190) 0

  -- The two draws of a round of `getRandomSpawnPos`; `draws` are the results of `Math.random` in order.
  unfoldable pub spawn_draw : (ℕ → N) → ℕ → N × N
  spawn_draw draws i =
      let span = mul map_half (decimal (pos 15) 1) in
      let half = decimal (pos 5) 1 in
      (mul (sub (draws (2 * i)) half) span, mul (sub (draws (2 * i + 1)) half) span)

  -- The loop of `getRandomSpawnPos` and of `getRandomMoveTarget`: the first draw that is far enough
  -- from the tree, `more` rounds after this one at most.
  unfoldable pub until_clear : (ℕ → N × N) → ℕ → ℕ → N × N
  unfolding from_centre
  until_clear draw zero i = draw i
  until_clear draw (suc more) i =
      let (x, z) = draw i in
      let later = until_clear draw more (suc i) in
      if lt tree_radius (from_centre x z) then (x, z) else later

  unfoldable pub random_spawn_pos : ℕ → (ℕ → N) → Vec3 N
  unfolding until_clear spawn_draw within bot_terrain_height
  random_spawn_pos seed draws =
      let (x, z) = until_clear (spawn_draw draws) 49 0 in
      let x' = within map_half x in
      let z' = within map_half z in record { x = x'; y = bot_terrain_height seed x' z'; z = z' }

  -- The border of the safe zone is `half - 40`.
  abbrev pub safe_zone : N
  safe_zone = sub map_half (decimal (pos 40) 0)

  -- A step from a place, kept in the safe zone.
  unfoldable pub step_to : Vec3 N → N → N → N × N
  unfolding within
  step_to from angle distance = (
    within safe_zone (add from.x (mul (cos angle) distance)),
    within safe_zone (add from.z (mul (sin angle) distance)),
  )

  -- A round of the loop of `getRandomMoveTarget`.
  unfoldable pub target_draw : Vec3 N → (ℕ → N) → ℕ → N × N
  unfolding step_to
  target_draw from draws i =
      step_to from (mul (mul (draws (2 * i)) pi) (decimal (pos 2) 0))
        (add (decimal (pos 10) 0) (mul (draws (2 * i + 1)) (decimal (pos 20) 0)))

  -- The way back from outside the safe zone, aside of the tree.
  unfoldable pub way_back : Vec3 N → (ℕ → N) → N × N
  unfolding step_to from_centre
  way_back from draws =
      let angle = atan2 (neg from.z) (neg from.x) in
      let distance = add (decimal (pos 40) 0) (mul (draws 0) (decimal (pos 30) 0)) in
      let (x, z) = step_to from angle distance in
      if lt (from_centre x z) tree_radius
      then step_to from
          (add angle (div (mul (sub (draws 1) (decimal (pos 5) 1)) pi) (decimal (pos 2) 0)))
          distance
      else (x, z)

  unfoldable pub random_move_target : ℕ → (ℕ → N) → Vec3 N → Vec3 N
  unfolding way_back until_clear target_draw bot_terrain_height
  random_move_target seed draws from =
      let outside = lt safe_zone (abs from.x) || lt safe_zone (abs from.z) in
      let (x, z) =
        if outside then way_back from draws else until_clear (target_draw from draws) 19 0 in
      record { x = x; y = bot_terrain_height seed x z; z = z }
