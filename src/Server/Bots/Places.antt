-- ===== src/Server/Bots/Places.antt =====
-- Where `getRandomSpawnPos` and `getRandomMoveTarget` of bot.ts end.
use snow_brawl_game.Base.{ℕ, ◌≤◌, ◌<◌, ◌≡◌, ◌⊎◌, Bool, true, false}
use snow_brawl_game.Engine.{Engine}
use snow_brawl_game.Server.Bots.{from_centre, tree_radius}

module _ {N : Type 0} ⦃e : Engine N⦄ where
  -- The draw is clear of the Christmas tree.
  abbrev pub clear : N × N → Bool
  clear (x, z) = e.lt tree_radius (from_centre x z)

  -- Of the draws from `low` on, `i` is the first that is clear, or the last one allowed.
  pub record Picked (draw : ℕ → N × N) (low last : ℕ) (place : N × N) : Type 0 where
    pub round : ℕ
    pub reached : low ≤ round
    pub allowed : round ≤ last
    pub is : place ≡ draw round
    pub before : (j : ℕ) → low ≤ j → j < round → clear (draw j) ≡ false
    pub why : (clear (draw round) ≡ true) ⊎ (round ≡ last)
