-- ===== src/Server/Mirror.antt =====
-- The snapshot that state.ts broadcasts, as `applySnapshot` of client_src/network.js reads it.
use snow_brawl_game.Base.{ℕ, ◌≡◌, refl, ◌∙◌, true, false, List, [], ◌∷◌, map, none, some, arith}
use snow_brawl_game.Base.Int.{pos}
use snow_brawl_game.Base.Text.{Text, is_empty}
use snow_brawl_game.Base.Dict
use snow_brawl_game.Base.Every.{Every}
use snow_brawl_game.Engine.{Engine}
use snow_brawl_game.World.{Snapshot, World, is_local, lookup}
use snow_brawl_game.World.Consistent.{IsConsistent}
use snow_brawl_game.Network.{in_snapshot, apply_snapshot}
use snow_brawl_game.Network.Sync.{lookup-apply_snapshot}
use snow_brawl_game.Server.Protocol.{PlayerSnapshot}
use snow_brawl_game.Server.State.{Players, Server, values}
use snow_brawl_game.Server.Bots.Room.{Move, Room, play_room}
use snow_brawl_game.Server.Sound.{Fit, has_player}
use snow_brawl_game.Server.Sound.Turns.{RoomIsSound}
use snow_brawl_game.Server.Sound.Room.{play_room-IsSound}

module _ {N : Type 0} where
  -- A snapshot after `JSON.stringify` and `JSON.parse`; the client does not read `deadUntil`.
  unfoldable pub wire : PlayerSnapshot N → Snapshot N
  wire p = record {
    id = p.id;
    name = p.name;
    pos = p.pos;
    rot_y = p.rot_y;
    vel = p.vel;
    hp = some (pos p.hp);
    crouch = p.crouch;
    updated_at = some p.updated_at;
    ping_ms = p.ping_ms;
  }

  -- The `players` of a `snapshot` message.
  abbrev pub players_message : Server N → List (Snapshot N)
  players_message s = map wire (values s.players_cache)

  in_snapshot-wire :
      (id : Text) (ps : Players N)
      → is_empty id ≡ false
      → Every Fit ps
      → in_snapshot id (map wire (values ps)) ≡ has_player id ps
  unfolding in_snapshot wire Dict.get
  in_snapshot-wire id [] named v = refl
  in_snapshot-wire id ((k, p) ∷ ps) named (fit, rest) =
      rw (fit.0) (ground (arith, in_snapshot-wire id ps named rest))

module _ {N : Type 0} ⦃e : Engine N⦄ where
  -- For a sound room, every run of the gateway and the bots, a consistent registry of a client, and every id
  -- that is not empty and not the client's own: after the client has applied the server's
  -- snapshot, it has a player of that id exactly when the server has one.
  pub play_room-mirrored :
      (moves : List (Move N)) (room : Room N) (w : World N) (id : Text)
      → RoomIsSound room
      → IsConsistent w.registry
      → is_empty id ≡ false
      → is_local w.registry.local_player_id id ≡ false
      → let server = (play_room moves room).hub.server in
        let after = (apply_snapshot (players_message server) w).registry.players_by_id in
        (has_player id server.players_cache ≡ true → (r : ℕ) × (lookup id after ≡ some r))
        × (has_player id server.players_cache ≡ false → lookup id after ≡ none)
  play_room-mirrored moves room w id sound v named remote =
      let s = (play_room moves room).hub.server in
      let same =
        in_snapshot-wire id s.players_cache named (play_room-IsSound moves room sound).memory.fit in
      let (gone, there, kept) = lookup-apply_snapshot (players_message s) w id v in
      (λ on. there remote (same ∙ on), λ off. gone remote (same ∙ off))
