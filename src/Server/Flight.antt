-- ===== src/Server/Flight.antt =====
-- The search for the player whom a snowball hits: the loop that `serverHandleSnowball` of game.ts and
-- `botShoot` of bot.ts share.
use snow_brawl_game.Base.{
  ℕ, zero, suc, Bool, true, ◌&&◌, List, [], ◌∷◌, Option, none, some, leb, ltb, if◌then◌else◌,
  or_else,
}
use snow_brawl_game.Base.Int.{pos}
use snow_brawl_game.Base.Text.{Text, Text-discrete}
use snow_brawl_game.Engine.{Engine, Vec3}
use snow_brawl_game.Server.Utils.{snowball_pos_at, intersects_player_cylinder}
use snow_brawl_game.Server.Protocol.{PlayerSnapshot}

-- `snowballSimSteps`.
abbrev pub sim_steps : ℕ
sim_steps = 60

-- A victim with the time of the hit.
pub record Best (N : Type 0) : Type 0 where
  pub victim : PlayerSnapshot N
  pub time : N

module _ {N : Type 0} ⦃e : Engine N⦄ where
  open e use {decimal, div, mul, lt}

  -- `i * dt`; `snowballLifeSec` is 3.
  unfoldable pub time_of : ℕ → N
  time_of i = mul (decimal (pos i) 0) (div (decimal (pos 3) 0) (decimal (pos sim_steps) 0))

  -- The rounds of the inner loop from `i` on: the time of the hit, if the ball hits before it is
  -- below the ground.
  unfoldable pub first_hit : Vec3 N → Vec3 N → Vec3 N → ℕ → ℕ → Option N
  unfolding time_of snowball_pos_at intersects_player_cylinder
  first_hit origin v0 target zero i = none
  first_hit origin v0 target (suc rounds) i =
      let later = first_hit origin v0 target rounds (suc i) in
      let ball = snowball_pos_at origin v0 (time_of i) in
      if lt ball.y (decimal (pos 0) 0)
      then none
      else if intersects_player_cylinder ball target
      then some (time_of i)
      else later

  -- Players whom the ball passes: the shooter, and the dead whose time is not up.
  unfoldable pub passes : ℕ → Text → PlayerSnapshot N → Bool
  passes now shooter p = elim (Text-discrete p.id shooter) [
    | yes _ ↦ true
    | no _ ↦ leb p.hp 0 && ltb now (or_else p.dead_until 0)
  ]

  -- `if (!best || t < best.t) best = {victim: p, t}`.
  unfoldable pub better : Option (Best N) → PlayerSnapshot N → N → Option (Best N)
  better none p t = some (record { victim = p; time = t })
  better (some best) p t =
      if lt t best.time then some (record { victim = p; time = t }) else some best

  -- One round of the outer loop.
  unfoldable pub consider :
      ℕ → Text → Vec3 N → Vec3 N → PlayerSnapshot N → Option (Best N) → Option (Best N)
  unfolding passes first_hit better
  consider now shooter origin v0 p best =
      if passes now shooter p then best else elim (first_hit origin v0 p.pos (suc sim_steps) 0) [
        | none ↦ best
        | some t ↦ better best p t
      ]

  unfoldable pub find_best :
      ℕ → Text → Vec3 N → Vec3 N → List (PlayerSnapshot N) → Option (Best N) → Option (Best N)
  unfolding consider
  find_best now shooter origin v0 [] best = best
  find_best now shooter origin v0 (p ∷ players) best =
      find_best now shooter origin v0 players (consider now shooter origin v0 p best)
