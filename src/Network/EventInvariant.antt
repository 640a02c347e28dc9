-- ===== src/Network/EventInvariant.antt =====
-- The registry's invariant through `applyEvent` of client_src/network.js.
use snow_brawl_game.Base.{ℕ, refl, inl, inr, Option, Bool-cases, Option-cases, or_else}
use snow_brawl_game.Base.Int.{ℤ, pos}
use snow_brawl_game.Base.Text.{Text, Text-discrete}
use snow_brawl_game.Base.Dict
use snow_brawl_game.Engine.{Engine, Vec3}
use snow_brawl_game.Player.{set_remote_target, show_chat, on_hit}
use snow_brawl_game.World.{Snapshot, World, is_local}
use snow_brawl_game.World.Consistent.{
  IsConsistent, update_object-IsConsistent, remove_player-IsConsistent,
}
use snow_brawl_game.Network.{on_registry, with_player}
use snow_brawl_game.Network.Invariant.{
  wound-id, update_name_label-id, with_player-IsConsistent, ensure_remote-IsConsistent,
  ensure_local-IsConsistent,
}
use snow_brawl_game.Network.Messages.{
  StateEntry, Event, join, leave, chat, state, snowball, hit, rename, death, respawn,
}
use snow_brawl_game.Network.Events.{
  time_or, no_local_id, player_of, on_join, on_chat, on_state, on_snowball, on_hit_event, hit_local,
  wound, die, revive, on_respawn, apply_event,
}

module _ {N : Type 0} ⦃e : Engine N⦄ where
  on_join-IsConsistent :
      (snap : Snapshot N) (w : World N)
      → IsConsistent w.registry
      → IsConsistent (on_join snap w).registry
  unfolding on_join
  on_join-IsConsistent snap w v = elim (Bool-cases (no_local_id w.registry.local_player_id)) [
    | inl early ↦ rw (early, on_join) v
    | inr late ↦ elim (Bool-cases (is_local w.registry.local_player_id snap.id)) [
      | inl mine ↦ rw (late, mine, on_join) (ensure_local-IsConsistent snap w mine v)
      | inr remote ↦
          rw (late, remote, on_join)
            (ensure_remote-IsConsistent w.world_seed snap.id snap.pos snap.name w.registry remote v)
    ]
  ]

  on_state-IsConsistent :
      (s : StateEntry N) (w : World N)
      → IsConsistent w.registry
      → IsConsistent (on_state s w).registry
  unfolding on_state
  on_state-IsConsistent s w v = elim (Bool-cases (is_local w.registry.local_player_id s.id)) [
    | inl mine ↦ rw (mine, on_state) v
    | inr remote ↦
        rw (remote, on_state)
          (with_player-IsConsistent s.id _ w.registry (λ p. unfold set_remote_target in refl) v)
  ]

  on_snowball-IsConsistent :
      (id owner : Text) (origin dir : Vec3 N) (w : World N)
      → IsConsistent w.registry
      → IsConsistent (on_snowball id owner origin dir w).registry
  unfolding on_snowball
  on_snowball-IsConsistent id owner origin dir w v =
      elim (Bool-cases (Dict.has Text-discrete id w.balls.snowballs_by_id)) [
        | inl seen ↦ rw (seen, on_snowball) v
        | inr new ↦ rw (new, on_snowball) v
      ]

  hit_local-IsConsistent :
      (impulse : Vec3 N) (hp : ℤ) (at : ℕ) (w : World N)
      → IsConsistent w.registry
      → IsConsistent (hit_local impulse hp at w).registry
  unfolding hit_local
  hit_local-IsConsistent impulse hp at w v = elim (Option-cases w.registry.local_player) [
    | inl nobody ↦ rw (nobody, hit_local) v
    | inr (r, known) ↦
        rw (known, hit_local)
          (update_object-IsConsistent r (wound impulse hp at) w.registry (wound-id impulse hp at) v)
  ]

  on_hit_event-IsConsistent :
      (now : ℕ) (victim : Text) (impulse : Vec3 N) (hp : ℤ) (at : Option ℕ) (w : World N)
      → IsConsistent w.registry
      → IsConsistent (on_hit_event now victim impulse hp at w).registry
  unfolding on_hit_event
  on_hit_event-IsConsistent now victim impulse hp at w v =
      let flashed =
        with_player-IsConsistent victim on_hit w.registry (λ p. unfold on_hit in refl) v in
      elim (Bool-cases (is_local w.registry.local_player_id victim)) [
        | inl mine ↦
            rw (mine, on_hit_event)
              (hit_local-IsConsistent impulse hp (time_or at now)
                (on_registry (with_player victim on_hit) w) flashed)
        | inr other ↦ rw (other, on_hit_event) flashed
      ]

  on_respawn-IsConsistent :
      (id : Text) (place : Vec3 N) (hp : Option ℤ) (w : World N)
      → IsConsistent w.registry
      → IsConsistent (on_respawn id place hp w).registry
  unfolding on_respawn
  on_respawn-IsConsistent id place hp w v =
      let revived =
        with_player-IsConsistent id (revive place (or_else hp (pos 100))) w.registry
          (λ p. unfold revive in refl) v in
      elim (Option-cases (player_of id w.registry)) [
        | inl nobody ↦ rw (nobody, on_respawn) revived
        | inr (p, found) ↦ elim (Bool-cases (is_local w.registry.local_player_id p.id)) [
          | inl mine ↦ rw (found, mine, on_respawn) revived
          | inr other ↦ rw (found, other, on_respawn) revived
        ]
      ]

  -- Every event that applyEvent handles leaves a consistent registry consistent: the array lists
  -- exactly the objects of the map in its order, every entry refers to an object of its own with
  -- the key for id, and no entry has the local id while there is no local player.
  pub apply_event-IsConsistent :
      (now : ℕ) (ev : Event N) (w : World N)
      → IsConsistent w.registry
      → IsConsistent (apply_event now ev w).registry
  unfolding apply_event
  apply_event-IsConsistent now (join snap) w v = unfold on_join in on_join-IsConsistent snap w v
  apply_event-IsConsistent now (leave id) w v = remove_player-IsConsistent id w.registry v
  apply_event-IsConsistent now (chat id name text) w v =
      unfold on_chat in with_player-IsConsistent id _ w.registry (λ p. unfold show_chat in refl) v
  apply_event-IsConsistent now (state s) w v = on_state-IsConsistent s w v
  apply_event-IsConsistent now (snowball id owner origin dir) w v =
      on_snowball-IsConsistent id owner origin dir w v
  apply_event-IsConsistent now (hit victim impulse hp at) w v =
      on_hit_event-IsConsistent now victim impulse hp at w v
  apply_event-IsConsistent now (rename id name) w v =
      with_player-IsConsistent id _ w.registry (update_name_label-id name) v
  apply_event-IsConsistent now (death victim attacker fallen) w v =
      with_player-IsConsistent victim _ w.registry (λ p. unfold die in refl) v
  apply_event-IsConsistent now (respawn id place hp) w v = on_respawn-IsConsistent id place hp w v
