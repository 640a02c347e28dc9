-- ===== src/Connection/Welcome.antt =====
-- `onmessage` of client_src/network.js and the registry: every message keeps it consistent, if the
-- server welcomes the client under an id that is new. After a reconnection it is not new: the `join`
-- of the client's own new id arrives before the `welcome`.
use snow_brawl_game.Base.{
  ◌≡◌, [], inl, inr, none, some, Bool-cases, Option-cases, get_elem?, or_else,
}
use snow_brawl_game.Base.Text.{Text}
use snow_brawl_game.Engine.{Engine}
use snow_brawl_game.World.{Registry, World, is_local, lookup}
use snow_brawl_game.World.Consistent.{IsConsistent, remove_player-IsConsistent}
use snow_brawl_game.Network.Events.{no_local_id}
use snow_brawl_game.Network.Invariant.{apply_snapshot-IsConsistent, apply_states-IsConsistent}
use snow_brawl_game.Network.EventInvariant.{apply_event-IsConsistent}
use snow_brawl_game.Network.Sync.Remove.{remove_player-lookup-none}
use snow_brawl_game.Connection.{Connection, Clock}
use snow_brawl_game.Connection.Receive.{
  Message, error, welcome, snapshot, states, event, pong, other, forget_old, greet, on_message,
}

module _ {N : Type 0} ⦃e : Engine N⦄ where
  greeted-IsConsistent :
      (id : Text) (reg : Registry N)
      → lookup id reg.players_by_id ≡ none
      → IsConsistent reg
      → IsConsistent (record (forget_old id reg) { local_player_id = some id })
  unfolding forget_old
  greeted-IsConsistent id reg new v = elim (Option-cases reg.local_player) [
    | inl nobody ↦
        rw (nobody, forget_old)
          (record { aligned = v.aligned; entries = v.entries; vacant = rw nobody new })
    | inr (r, known) ↦ elim (Option-cases (get_elem? reg.objects r)) [
      | inl lost ↦
          rw (known, lost, forget_old)
            (record { aligned = v.aligned; entries = v.entries; vacant = rw known tt })
      | inr (p, found) ↦ elim (Bool-cases (is_local (some id) p.id)) [
        | inl same ↦
            rw (known, found, same, forget_old)
              (record { aligned = v.aligned; entries = v.entries; vacant = rw known tt })
        | inr old ↦
            let left = remove_player-IsConsistent p.id reg v in
            rw (known, found, old, forget_old)
              (record {
                aligned = left.aligned;
                entries = left.entries;
                vacant = remove_player-lookup-none p.id id reg v new;
              })
      ]
    ]
  ]

  -- A `welcome` names an id that no player of the map has.
  abbrev pub Fresh : Message N → World N → Type 0
  Fresh (welcome id seed) w = lookup id w.registry.players_by_id ≡ none
  Fresh _ w = Unit {0}

  -- Every message leaves a consistent registry consistent, provided that a `welcome` brings an id which
  -- no player of the map has.
  pub on_message-IsConsistent :
      (now : Clock) (m : Message N) (c : Connection N) (w : World N)
      → Fresh m w
      → IsConsistent w.registry
      → IsConsistent (on_message now m (c, w)).1.registry
  unfolding on_message
  on_message-IsConsistent now (error text) c w f v = v
  on_message-IsConsistent now (welcome id seed) c w f v =
      let greeted : IsConsistent (greet id seed w).registry =
        unfold greet in greeted-IsConsistent id w.registry f v in
      elim (Option-cases c.pending_snapshot) [
        | inl no_list ↦ rw (no_list, on_message) greeted
        | inr (list, waiting) ↦
            rw (waiting, on_message) (apply_snapshot-IsConsistent list (greet id seed w) greeted)
      ]
  on_message-IsConsistent now (snapshot list) c w f v =
      elim (Bool-cases (no_local_id w.registry.local_player_id)) [
        | inl early ↦ rw (early, on_message) v
        | inr late ↦ rw (late, on_message) (apply_snapshot-IsConsistent (or_else list []) w v)
      ]
  on_message-IsConsistent now (states list) c w f v =
      apply_states-IsConsistent (or_else list []) w v
  on_message-IsConsistent now (event none) c w f v = v
  on_message-IsConsistent now (event (some ev)) c w f v = apply_event-IsConsistent now.date ev w v
  on_message-IsConsistent now pong c w f v = v
  on_message-IsConsistent now other c w f v = v
