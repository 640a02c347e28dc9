-- ===== src/Connection/Receive.antt =====
-- `onmessage` of `NetworkManager` in client_src/network.js.
use snow_brawl_game.Base.{
  ℕ, ◌+◌, ◌-◌, ◌/◌, true, List, [], ◌∷◌, ◌++◌, Option, none, some, ◌==◌, if◌then◌else◌, or_else,
  get_elem?,
}
use snow_brawl_game.Base.Text.{Text, utf16}
use snow_brawl_game.Engine.{Engine}
use snow_brawl_game.Utils.Strings.{show_number}
use snow_brawl_game.World.{Snapshot, Registry, World, is_local, remove_player}
use snow_brawl_game.Network.{apply_snapshot, apply_states}
use snow_brawl_game.Network.Messages.{StateEntry, Event}
use snow_brawl_game.Network.Events.{apply_event, no_local_id, or_text}
use snow_brawl_game.Connection.{Connection, Clock, max_connect_attempts, green, red, say_status}

-- `Math.round` of a time in microseconds, in milliseconds.
unfoldable pub round_ms : ℕ → ℕ
round_ms us = (us + 500) / 1000

-- The messages that `onmessage` tells apart; `pong` and `other` carry nothing that is read.
pub data Message (N : Type 0) : Type 0 where
  error : Option Text → Message N
  welcome : Text → Option ℕ → Message N
  snapshot : Option (List (Snapshot N)) → Message N
  states : Option (List (StateEntry N)) → Message N
  event : Option (Event N) → Message N
  pong : Message N
  other : Message N

module _ {N : Type 0} ⦃e : Engine N⦄ where
  unfoldable pub on_pong : Clock → Connection N → Connection N
  unfolding round_ms
  on_pong now c =
      if c.last_ping_sent_at == 0
      then c
      else (let ms = round_ms (now.perf - c.last_ping_sent_at) in
          say_status (utf16 "🟢 已连接 - ping: " ++ show_number ms ++ utf16 " ms") green
            (record c { last_ping_ms = some ms }))

  -- A local player of another id is taken away.
  unfoldable pub forget_old : Text → Registry N → Registry N
  forget_old id reg = elim reg.local_player [
    | none ↦ reg
    | some r ↦ elim (get_elem? reg.objects r) [
      | none ↦ reg
      | some p ↦
          if is_local (some id) p.id
          then reg
          else record (remove_player p.id reg) { local_player = none }
    ]
  ]

  -- The first part of `welcome`: the registry, the seed, and `ensureEnvironment`.
  unfoldable pub greet : Text → Option ℕ → World N → World N
  unfolding forget_old
  greet id seed w = record w {
    registry = record (forget_old id w.registry) { local_player_id = some id };
    world_seed = or_else seed w.world_seed;
    environment_ready = true;
  }

  unfoldable pub on_message : Clock → Message N → Connection N × World N → Connection N × World N
  unfolding greet on_pong or_text no_local_id
  on_message now (error text) (c, w) =
      let shown = or_text text (utf16 "连接错误") in
      (
        record (say_status (utf16 "🔴 " ++ shown) red c) {
          alerts = c.alerts ++ shown ∷ [];
          connect_attempts = max_connect_attempts;
        },
        w,
      )
  on_message now (welcome id seed) (c, w) = elim c.pending_snapshot [
    | none ↦ (c, greet id seed w)
    | some list ↦ (record c { pending_snapshot = none }, apply_snapshot list (greet id seed w))
  ]
  on_message now (snapshot list) (c, w) =
      if no_local_id w.registry.local_player_id
      then (record c { pending_snapshot = some (or_else list []) }, w)
      else (c, apply_snapshot (or_else list []) w)
  on_message now (states list) (c, w) = (c, apply_states (or_else list []) w)
  on_message now (event none) (c, w) = (c, w)
  on_message now (event (some ev)) (c, w) = (c, apply_event now.date ev w)
  on_message now pong (c, w) = (on_pong now c, w)
  on_message now other (c, w) = (c, w)
