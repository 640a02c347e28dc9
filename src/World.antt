-- ===== src/World.antt =====
-- The objects and the maps that the client's scripts share: `players`, `playersById`, `localPlayer`
-- and `localPlayerId` of client_src/utils.js, with `createLocalPlayer` and `removePlayer` of
-- client_src/network.js. Player objects are shared between the array, the map and `localPlayer`, so
-- they stand in a store and are referred to by their place there.
pub mod Entries
pub mod Consistent
use snow_brawl_game.Base.{
  ℕ, ◌≡◌, Bool, true, false, List, [], ◌∷◌, ◌++◌, map, Option, none, some, ite, length, get_elem?,
  modify, ℕ_discrete, or_else,
}
use snow_brawl_game.Base.Int.{ℤ, pos}
use snow_brawl_game.Base.Text.{Text, Text-discrete, is_empty}
use snow_brawl_game.Base.Dict
use snow_brawl_game.Engine.{Engine, Vec3}
use snow_brawl_game.Player.{Player, new_player, destroy}
use snow_brawl_game.Snowball.{Balls}
use snow_brawl_game.Utils.Ui.{HpUi, set_hp_ui}

-- `PlayerSnapshot` of the protocol; what the client reads with `??` or `typeof` is optional here. A
-- missing id is the empty one: both are falsy.
pub record Snapshot (N : Type 0) : Type 0 where
  pub id : Text
  pub name : Text
  pub pos : Vec3 N
  pub rot_y : N
  pub vel : Vec3 N
  pub hp : Option ℤ
  pub crouch : Bool
  pub updated_at : Option ℕ
  pub ping_ms : Option ℕ

abbrev pub Index : Type 0
Index = List (Text × ℕ)

pub record Registry (N : Type 0) : Type 0 where
  pub objects : List (Player N)
  pub players : List ℕ
  pub players_by_id : Index
  pub local_player : Option ℕ
  pub local_player_id : Option Text

-- `id === localPlayerId`.
unfoldable pub is_local : Option Text → Text → Bool
is_local none id = false
is_local (some l) id = ite (Text-discrete id l) true false

abbrev pub lookup : Text → Index → Option ℕ
lookup = Dict.get Text-discrete

-- `players.splice(players.indexOf(p), 1)`, if `p` is there.
unfoldable pub splice : ℕ → List ℕ → List ℕ
splice r [] = []
splice r (q ∷ qs) = ite (ℕ_discrete q r) qs (q ∷ splice r qs)

module _ {N : Type 0} where
  abbrev pub object_ids : List (Player N) → List Text
  object_ids = map (λ p. p.id)

  -- Change the object behind a reference.
  unfoldable pub update_object : ℕ → (Player N → Player N) → Registry N → Registry N
  update_object r f reg = record reg { objects = modify reg.objects r f }

  -- `players.push(p); playersById.set(id, p)` for a new object.
  unfoldable pub add_player : Text → Player N → Registry N → Registry N
  add_player id p reg = record reg {
    objects = reg.objects ++ p ∷ [];
    players = reg.players ++ length reg.objects ∷ [];
    players_by_id = Dict.set Text-discrete id (length reg.objects) reg.players_by_id;
  }

  unfoldable pub remove_player : Text → Registry N → Registry N
  unfolding splice
  remove_player id reg = elim (lookup id reg.players_by_id) [
    | none ↦ reg
    | some r ↦ record reg {
      objects = modify reg.objects r destroy;
      players = splice r reg.players;
      players_by_id = Dict.delete Text-discrete id reg.players_by_id;
    }
  ]

-- The rest of what the handlers of client_src/network.js read and write: the camera, the overlay.
pub record World (N : Type 0) : Type 0 where
  pub registry : Registry N
  pub balls : Balls N
  pub world_seed : ℕ
  pub environment_ready : Bool
  pub camera_yaw : N
  pub dead_overlay : Bool
  pub hp_ui : HpUi
  pub chat_log : List Text
  -- How often the red flash of a hit was shown.
  pub hit_flashes : ℕ

module _ {N : Type 0} ⦃e : Engine N⦄ where
  -- The object that `createLocalPlayer` makes.
  unfoldable pub local_object : ℕ → Snapshot N → Player N
  unfolding new_player
  local_object seed snap = record (new_player seed snap.id snap.pos snap.name false) {
    last_hp_at = some (or_else snap.updated_at 0);
    health = or_else snap.hp (pos 100);
  }

  unfoldable pub create_local_player : Snapshot N → World N → World N
  unfolding local_object add_player
  create_local_player snap w =
      let reg = w.registry in
      record w {
        registry = record (add_player snap.id (local_object w.world_seed snap) reg) {
          local_player = some (length reg.objects);
        };
        camera_yaw = snap.rot_y;
        hp_ui = set_hp_ui (or_else snap.hp (pos 100));
      }
