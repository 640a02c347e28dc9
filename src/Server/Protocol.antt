-- ===== src/Server/Protocol.antt =====
-- The messages and records of protocol.ts, as the server reads and writes them. A part that the code
-- itself checks for is an `Option`.
use snow_brawl_game.Base.{ℕ, Bool, List, Option}
use snow_brawl_game.Base.Text.{Text}
use snow_brawl_game.Engine.{Vec3}

pub record PlayerSnapshot (N : Type 0) : Type 0 where
  pub id : Text
  pub name : Text
  pub pos : Vec3 N
  pub rot_y : N
  pub vel : Vec3 N
  pub hp : ℕ
  pub crouch : Bool
  pub dead_until : Option ℕ
  pub updated_at : ℕ
  pub ping_ms : Option ℕ

-- `ClientState`, less `ts`, which nothing reads.
pub record ClientState (N : Type 0) : Type 0 where
  pub pos : Option (Vec3 N)
  pub rot_y : N
  pub vel : Option (Vec3 N)
  pub crouch : Option Bool
  pub ping_ms : Option ℕ

pub data ClientMsg (N : Type 0) : Type 0 where
  hello : Text → ClientMsg N
  chat : Text → ClientMsg N
  state : ClientState N → ClientMsg N
  -- The shot's id and direction.
  snowball : Text → Option (Vec3 N) → ClientMsg N
  ping : ClientMsg N
  rename : Text → ClientMsg N

pub record Snowball (N : Type 0) : Type 0 where
  pub id : Text
  pub owner_id : Text
  pub origin : Vec3 N
  pub dir : Vec3 N
  pub speed : N

pub record Hit (N : Type 0) : Type 0 where
  pub attacker_id : Text
  pub victim_id : Text
  pub impulse : Vec3 N
  pub victim_hp : ℕ
  pub shot_id : Text

pub record Death : Type 0 where
  pub victim_id : Text
  pub victim_name : Text
  pub attacker_id : Text
  pub attacker_name : Text
  pub shot_id : Text
  pub respawn_at : ℕ

-- What an event says, less `seq` and `at`. Nobody sends a `state` event.
pub data WorldEvent (N : Type 0) : Type 0 where
  join : PlayerSnapshot N → WorldEvent N
  leave : Text → Text → WorldEvent N
  chat : Text → Text → Text → WorldEvent N
  state : Text → Vec3 N → N → Vec3 N → Bool → WorldEvent N
  snowball : Snowball N → WorldEvent N
  hit : Hit N → WorldEvent N
  rename : Text → Text → WorldEvent N
  death : Death → WorldEvent N
  respawn : Text → Vec3 N → Option ℕ → WorldEvent N

-- An event with its number and its time.
pub record Numbered (N : Type 0) : Type 0 where
  pub seq : ℕ
  pub at : ℕ
  pub event : WorldEvent N

-- `PendingState` of state.ts, an entry of a `states` message.
pub record PendingState (N : Type 0) : Type 0 where
  pub id : Text
  pub pos : Vec3 N
  pub rot_y : N
  pub vel : Vec3 N
  pub crouch : Bool
  pub updated_at : ℕ
  pub ping_ms : Option ℕ

-- `ServerMsg`, with the `states` message of state.ts.
pub data ServerMsg (N : Type 0) : Type 0 where
  welcome : Text → ℕ → ℕ → ServerMsg N
  snapshot : List (PlayerSnapshot N) → ℕ → ServerMsg N
  event : Numbered N → ServerMsg N
  states : ℕ → List (PendingState N) → ServerMsg N
  pong : ℕ → ServerMsg N
  error : Text → ServerMsg N
