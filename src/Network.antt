-- ===== src/Network.antt =====
-- `NetworkManager` of client_src/network.js: what the messages of the server do to the world.
pub mod Messages
pub mod Events
pub mod Invariant
pub mod EventInvariant
pub mod Balls
pub mod Sync
use snow_brawl_game.Base.{
  ℕ, ◌+◌, ◌≡◌, Bool, true, false, not, ◌&&◌, ◌||◌, List, [], ◌∷◌, ◌++◌, map, Option, none, some,
  leb, ltb, ◌==◌, if◌then◌else◌, or_else, get_elem?, length,
}
use snow_brawl_game.Base.Int.{ℤ, pos, ltb_ℤ}
use snow_brawl_game.Base.Text.{Text, utf16, is_empty, Text-discrete}
use snow_brawl_game.Base.Dict
use snow_brawl_game.Engine.{Engine, Vec3}
use snow_brawl_game.Player.{
  Player, new_player, update_ping, update_name_label, set_remote_target, show_chat, on_hit,
  apply_knockback,
}
use snow_brawl_game.Utils.Strings.{fix_utf8}
use snow_brawl_game.Utils.Ui.{set_hp_ui, append_chat_log}
use snow_brawl_game.World.{
  Index, Registry, Snapshot, World, is_local, lookup, update_object, add_player, remove_player,
  create_local_player,
}
use Messages.{StateEntry, Event, join, leave, chat, state, hit, rename, death, respawn}

module _ {N : Type 0} where
  abbrev pub on_registry : (Registry N → Registry N) → World N → World N
  on_registry f w = record w { registry = f w.registry }

  -- Change the player with an id, if there is one.
  unfoldable pub with_player : Text → (Player N → Player N) → Registry N → Registry N
  with_player id f reg = elim (lookup id reg.players_by_id) [
    | none ↦ reg
    | some r ↦ update_object r f reg
  ]

  -- `ids.has(id)`, for the set that the loop has built.
  unfoldable pub in_snapshot : Text → List (Snapshot N) → Bool
  in_snapshot id [] = false
  in_snapshot id (snap ∷ list) = elim (Text-discrete snap.id id) [
    | yes _ ↦ not (is_empty id) || in_snapshot id list
    | no _ ↦ in_snapshot id list
  ]

  -- The second loop of `applySnapshot`, over the entries that the map has when it begins.
  unfoldable pub drop_missing : List (Snapshot N) → Index → Registry N → Registry N
  drop_missing list [] reg = reg
  drop_missing list ((id, _) ∷ m) reg = drop_missing list m (
      if not (is_local reg.local_player_id id) && not (in_snapshot id list)
      then remove_player id reg
      else reg)

module _ {N : Type 0} ⦃e : Engine N⦄ where
  -- What a snapshot does to the object of the local player.
  unfoldable pub refresh_health : Snapshot N → Player N → Player N
  refresh_health snap p =
      let snap_at = or_else snap.updated_at 0 in
      if leb (or_else p.last_hp_at 0) snap_at
      then record p { health = or_else snap.hp p.health; last_hp_at = some snap_at }
      else p

  unfoldable pub ping_from : Option ℕ → Player N → Player N
  ping_from none p = p
  ping_from (some ms) p = update_ping ms p

  unfoldable pub refresh_local : Snapshot N → Player N → Player N
  unfolding refresh_health ping_from
  refresh_local snap p = ping_from snap.ping_ms (refresh_health snap p)

  -- `setHpUI` is called only if the snapshot is not older than the health.
  unfoldable pub refresh_hp_ui : Snapshot N → Player N → World N → World N
  refresh_hp_ui snap p w =
      if leb (or_else p.last_hp_at 0) (or_else snap.updated_at 0)
      then record w { hp_ui = set_hp_ui (or_else snap.hp p.health) }
      else w

  unfoldable pub snapshot_of_local : Snapshot N → World N → World N
  unfolding refresh_local refresh_hp_ui
  snapshot_of_local snap w = elim w.registry.local_player [
    | none ↦ w
    | some r ↦ elim (get_elem? w.registry.objects r) [
      | none ↦ w
      | some p ↦ refresh_hp_ui snap p (on_registry (update_object r (refresh_local snap)) w)
    ]
  ]

  -- `if (!localPlayer) createLocalPlayer(snap)`.
  unfoldable pub ensure_local : Snapshot N → World N → World N
  unfolding create_local_player
  ensure_local snap w = elim w.registry.local_player [
    | none ↦ create_local_player snap w
    | some _ ↦ w
  ]

  -- `if (!playersById.has(id))` a remote player is made; its label is `name` for now.
  unfoldable pub ensure_remote : ℕ → Text → Vec3 N → Text → Registry N → Registry N
  ensure_remote seed id p name reg = elim (lookup id reg.players_by_id) [
    | none ↦ add_player id (new_player seed id p name true) reg
    | some _ ↦ reg
  ]

  unfoldable pub refresh_remote : Snapshot N → Player N → Player N
  unfolding ping_from
  refresh_remote snap p =
      ping_from snap.ping_ms
        (update_name_label snap.name (set_remote_target snap.pos snap.rot_y snap.vel snap.crouch p))

  -- One round of the loop of `applySnapshot`.
  unfoldable pub apply_entry : Snapshot N → World N → World N
  unfolding ensure_local snapshot_of_local ensure_remote with_player refresh_remote
  apply_entry snap w =
      if is_empty snap.id
      then w
      else if is_local w.registry.local_player_id snap.id
      then snapshot_of_local snap (ensure_local snap w)
      else on_registry
          (λ reg.
            with_player snap.id (refresh_remote snap)
              (ensure_remote w.world_seed snap.id snap.pos snap.name reg))
          w

  unfoldable pub apply_entries : List (Snapshot N) → World N → World N
  apply_entries [] w = w
  apply_entries (snap ∷ list) w = apply_entries list (apply_entry snap w)

  unfoldable pub apply_snapshot : List (Snapshot N) → World N → World N
  unfolding apply_entries drop_missing
  apply_snapshot list w =
      let after = apply_entries list w in
      on_registry (drop_missing list after.registry.players_by_id) after

  -- One round of the loop over a `states` message.
  unfoldable pub apply_state : StateEntry N → World N → World N
  unfolding ensure_remote with_player
  apply_state s w =
      if is_empty s.id
      then w
      else if is_local w.registry.local_player_id s.id
      then w
      else on_registry
          (λ reg.
            with_player s.id (set_remote_target s.pos s.rot_y s.vel s.crouch)
              (ensure_remote w.world_seed s.id s.pos (utf16 "Player") reg))
          w

  unfoldable pub apply_states : List (StateEntry N) → World N → World N
  apply_states [] w = w
  apply_states (s ∷ list) w = apply_states list (apply_state s w)
