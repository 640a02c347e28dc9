-- ===== src/Network/Messages.antt =====
-- The messages of the server, as far as client_src/network.js reads them.
use snow_brawl_game.Base.{ℕ, Option, Bool}
use snow_brawl_game.Base.Int.{ℤ}
use snow_brawl_game.Base.Text.{Text}
use snow_brawl_game.Engine.{Vec3}
use snow_brawl_game.World.{Snapshot}

-- An entry of a `states` message.
pub record StateEntry (N : Type 0) : Type 0 where
  pub id : Text
  pub pos : Vec3 N
  pub rot_y : N
  pub vel : Vec3 N
  pub crouch : Bool

-- The events that `applyEvent` switches on; `none` where the code allows for a missing part.
pub data Event (N : Type 0) : Type 0 where
  join : Snapshot N → Event N
  leave : Text → Event N
  chat : Text → Option Text → Text → Event N
  state : StateEntry N → Event N
  snowball : Text → Text → Vec3 N → Vec3 N → Event N
  hit : Text → Vec3 N → ℤ → Option ℕ → Event N
  rename : Text → Text → Event N
  death : Text → Option Text → Option Text → Event N
  respawn : Text → Vec3 N → Option ℤ → Event N
