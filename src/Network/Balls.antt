-- ===== src/Network/Balls.antt =====
-- The snowballs under the messages of the server: client_src/network.js touches them in one case of
-- `applyEvent` only.
use snow_brawl_game.Base.{ℕ, Option, ◌≡◌, refl, ◌∙◌, inl, inr, List, [], ◌∷◌, arith, Bool-cases}
use snow_brawl_game.Base.Text.{Text, Text-discrete}
use snow_brawl_game.Base.Dict
use snow_brawl_game.Engine.{Engine, Vec3}
use snow_brawl_game.Snowball.{Balls, new_snowball}
use snow_brawl_game.Snowball.Tracked.{IsTracked}
use snow_brawl_game.Snowball.Flights.{add_snowball-IsTracked}
use snow_brawl_game.Snowball.Listed.{IsListed, add_snowball-IsListed}
use snow_brawl_game.World.{Snapshot, World, create_local_player}
use snow_brawl_game.Network.{
  ℤ, apply_entry, apply_entries, apply_snapshot, apply_state, apply_states, ensure_local,
  snapshot_of_local,
}
use snow_brawl_game.Network.Messages.{
  StateEntry, Event, join, leave, chat, state, snowball, hit, rename, death, respawn,
}
use snow_brawl_game.Network.Events.{
  on_join, on_state, on_snowball, on_hit_event, hit_local, on_respawn, apply_event,
}

-- The store, the map, the scene and the array agree on which balls are in flight.
abbrev pub IsSound : {N : Type 0} → Balls N → Type 0
IsSound balls = IsTracked balls × IsListed balls

module _ {N : Type 0} ⦃e : Engine N⦄ where
  ensure_local-balls : (snap : Snapshot N) (w : World N) → (ensure_local snap w).balls ≡ w.balls
  unfolding ensure_local create_local_player
  ensure_local-balls snap w = ground arith

  snapshot_of_local-balls :
      (snap : Snapshot N) (w : World N) → (snapshot_of_local snap w).balls ≡ w.balls
  unfolding snapshot_of_local
  snapshot_of_local-balls snap w = ground arith

  apply_entry-balls : (snap : Snapshot N) (w : World N) → (apply_entry snap w).balls ≡ w.balls
  unfolding apply_entry
  apply_entry-balls snap w =
      ground (arith, snapshot_of_local-balls snap (ensure_local snap w), ensure_local-balls snap w)

  apply_entries-balls :
      (list : List (Snapshot N)) (w : World N) → (apply_entries list w).balls ≡ w.balls
  unfolding apply_entries
  apply_entries-balls [] w = refl
  apply_entries-balls (snap ∷ list) w =
      apply_entries-balls list (apply_entry snap w) ∙ apply_entry-balls snap w

  pub apply_snapshot-balls :
      (list : List (Snapshot N)) (w : World N) → (apply_snapshot list w).balls ≡ w.balls
  unfolding apply_snapshot
  apply_snapshot-balls list w = apply_entries-balls list w

  apply_state-balls : (s : StateEntry N) (w : World N) → (apply_state s w).balls ≡ w.balls
  unfolding apply_state
  apply_state-balls s w = ground arith

  pub apply_states-balls :
      (list : List (StateEntry N)) (w : World N) → (apply_states list w).balls ≡ w.balls
  unfolding apply_states
  apply_states-balls [] w = refl
  apply_states-balls (s ∷ list) w =
      apply_states-balls list (apply_state s w) ∙ apply_state-balls s w

  on_join-balls : (snap : Snapshot N) (w : World N) → (on_join snap w).balls ≡ w.balls
  unfolding on_join
  on_join-balls snap w = ground (arith, ensure_local-balls snap w)

  on_state-balls : (s : StateEntry N) (w : World N) → (on_state s w).balls ≡ w.balls
  unfolding on_state
  on_state-balls s w = ground arith

  on_hit_event-balls :
      (now : ℕ) (victim : Text) (impulse : Vec3 N) (hp : ℤ) (at : Option ℕ) (w : World N)
      → (on_hit_event now victim impulse hp at w).balls ≡ w.balls
  unfolding on_hit_event hit_local
  on_hit_event-balls now victim impulse hp at w = ground arith

  on_respawn-balls :
      (id : Text) (place : Vec3 N) (hp : Option ℤ) (w : World N)
      → (on_respawn id place hp w).balls ≡ w.balls
  unfolding on_respawn
  on_respawn-balls id place hp w = ground arith

  -- A ball that is known already is not made again.
  on_snowball-IsSound :
      (id owner : Text) (origin dir : Vec3 N) (w : World N)
      → IsSound w.balls
      → IsSound (on_snowball id owner origin dir w).balls
  unfolding on_snowball
  on_snowball-IsSound id owner origin dir w (tracked, listed) =
      elim (Bool-cases (Dict.has Text-discrete id w.balls.snowballs_by_id)) [
        | inl known ↦ rw (known, on_snowball) (tracked, listed)
        | inr new ↦
            let ball = new_snowball id origin dir owner in
            rw (new, on_snowball)
              (
                add_snowball-IsTracked ball w.balls (unfold new_snowball in refl)
                    (unfold new_snowball in refl)
                    (Dict.get-none_of_has Text-discrete id w.balls.snowballs_by_id new) tracked,
                add_snowball-IsListed ball w.balls listed,
              )
      ]

  pub apply_event-IsSound :
      (now : ℕ) (ev : Event N) (w : World N)
      → IsSound w.balls
      → IsSound (apply_event now ev w).balls
  unfolding apply_event
  apply_event-IsSound now (join snap) w v = rw (on_join-balls snap w) v
  apply_event-IsSound now (leave id) w v = v
  apply_event-IsSound now (chat id name text) w v = v
  apply_event-IsSound now (state s) w v = rw (on_state-balls s w) v
  apply_event-IsSound now (snowball id owner origin dir) w v =
      on_snowball-IsSound id owner origin dir w v
  apply_event-IsSound now (hit victim impulse hp at) w v =
      rw (on_hit_event-balls now victim impulse hp at w) v
  apply_event-IsSound now (rename id name) w v = v
  apply_event-IsSound now (death victim attacker_name victim_name) w v = v
  apply_event-IsSound now (respawn id place hp) w v = rw (on_respawn-balls id place hp w) v
