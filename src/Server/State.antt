-- ===== src/Server/State.antt =====
-- The server's memory: state.ts, and the table of shots of game.ts.
use snow_brawl_game.Base.{
  ℕ, suc, ◌+◌, ◌*◌, Bool, true, false, List, [], ◌∷◌, ◌++◌, map, Option, none, some, ltb, leb,
  if◌then◌else◌, or_else, ◌||◌, not,
}
use snow_brawl_game.Base.Text.{Text, Text-discrete}
use snow_brawl_game.Base.Dict
use snow_brawl_game.Server.Protocol.{
  PlayerSnapshot, WorldEvent, Numbered, PendingState, ServerMsg, join, leave, chat, state, snowball,
  hit, rename, death, respawn, event, snapshot, states,
}

abbrev pub Players : Type 0 → Type 0
Players N = List (Text × PlayerSnapshot N)

-- `WSClient`, less the socket.
pub record WsClient : Type 0 where
  pub id : Text
  pub name : Text
  pub connected_at : ℕ
  pub bucket_start : ℕ
  pub bucket_count : ℕ
  pub last_state_at : ℕ

-- What goes out, in the order in which it is handed to the encryption.
pub data Output (N : Type 0) : Type 0 where
  broadcast : ServerMsg N → Output N
  broadcast_droppable : ServerMsg N → Output N
  send : ℕ → ServerMsg N → Output N
  close : ℕ → ℕ → Output N

-- What `recordKill` of storage.ts is told.
pub record KillRecord : Type 0 where
  pub attacker_id : Text
  pub attacker_name : Text
  pub victim_id : Text
  pub victim_name : Text
  pub shot_id : Text

-- The module's variables. The closure of `handleWs` of each socket holds its client in `sessions`, and
-- `clients` refers to that same object by the socket's number.
pub record Server (N : Type 0) : Type 0 where
  pub latest_seq : ℕ
  pub last_seen_seq : ℕ
  pub events : List (Numbered N)
  pub players_cache : Players N
  pub clients : List (Text × ℕ)
  pub sessions : List (ℕ × WsClient)
  pub pending_states : List (Text × PendingState N)
  pub seen_shots : List (Text × ℕ)
  pub outbox : List (Output N)
  pub kills : List KillRecord

abbrev pub event_ms : ℕ
event_ms = 2 * 60000

-- The values of a map, in its order.
abbrev pub values {ℓ} : {K V : Type ℓ} → List (K × V) → List V
values = map (λ entry. entry.1)

module _ {N : Type 0} where
  abbrev pub player_of : Text → Players N → Option (PlayerSnapshot N)
  player_of = Dict.get Text-discrete

  abbrev pub set_player : Text → PlayerSnapshot N → Players N → Players N
  set_player = Dict.set Text-discrete

  -- `playersCache.set(id, snap)`.
  abbrev pub cache_player : Text → PlayerSnapshot N → Server N → Server N
  cache_player id snap s = record s { players_cache = set_player id snap s.players_cache }

  -- `pruneEvents`: the oldest events go while they are older than the window.
  unfoldable pub prune_events : ℕ → List (Numbered N) → List (Numbered N)
  prune_events now [] = []
  prune_events now (ev ∷ events) =
      let rest = prune_events now events in if ltb (ev.at + event_ms) now then rest else ev ∷ events

  -- `prev = get(id); if (!prev) return; set(id, {...prev, ...})`.
  unfoldable pub revise : Text → (PlayerSnapshot N → PlayerSnapshot N) → Players N → Players N
  revise id f players = elim (player_of id players) [
    | none ↦ players
    | some prev ↦ set_player id (f prev) players
  ]

  unfoldable pub apply_event_to_cache : ℕ → WorldEvent N → Players N → Players N
  unfolding revise Dict.set Dict.delete
  apply_event_to_cache now (join player) ps = set_player player.id player ps
  apply_event_to_cache now (leave id name) ps = Dict.delete Text-discrete id ps
  apply_event_to_cache now (chat id name text) ps = ps
  apply_event_to_cache now (state id pos rot_y vel crouch) ps =
      revise id
        (λ prev. record prev {
          pos = pos;
          rot_y = rot_y;
          vel = vel;
          crouch = crouch;
          updated_at = now;
        })
        ps
  apply_event_to_cache now (snowball ball) ps = ps
  apply_event_to_cache now (hit h) ps =
      revise h.victim_id (λ prev. record prev { hp = h.victim_hp; updated_at = now }) ps
  apply_event_to_cache now (rename id name) ps =
      revise id (λ prev. record prev { name = name; updated_at = now }) ps
  apply_event_to_cache now (death d) ps =
      revise d.victim_id
        (λ prev. record prev { hp = 0; dead_until = some d.respawn_at; updated_at = now }) ps
  apply_event_to_cache now (respawn id pos hp) ps =
      revise id
        (λ prev. record prev {
          pos = pos;
          hp = or_else hp 100;
          dead_until = some 0;
          updated_at = now;
        })
        ps

  -- `appendEventInMem` up to the encryption.
  unfoldable pub append_event : ℕ → WorldEvent N → Server N → Server N
  unfolding prune_events apply_event_to_cache
  append_event now ev s =
      let full : Numbered N = record { seq = suc s.latest_seq; at = now; event = ev } in
      record s {
        latest_seq = suc s.latest_seq;
        last_seen_seq = suc s.latest_seq;
        events = prune_events now (s.events ++ full ∷ []);
        players_cache = apply_event_to_cache now ev s.players_cache;
        outbox = s.outbox ++ broadcast (event full) ∷ [];
      }

  -- The scan of `setInterval` for players who are gone without a word; `CLEANUP_IDLE_MS` is 5000.
  unfoldable pub cleanup_players : ℕ → List (Text × ℕ) → Players N → Players N
  cleanup_players now clients [] = []
  cleanup_players now clients ((id, snap) ∷ ps) =
      let rest = cleanup_players now clients ps in
      if Dict.has Text-discrete id clients || not (ltb (snap.updated_at + 5000) now)
      then (id, snap) ∷ rest
      else rest

  unfoldable pub cleanup : ℕ → Server N → Server N
  unfolding cleanup_players
  cleanup now s = record s { players_cache = cleanup_players now s.clients s.players_cache }

  unfoldable pub enqueue_pending_state : PendingState N → Server N → Server N
  enqueue_pending_state p s = record s {
    pending_states = Dict.set Text-discrete p.id p s.pending_states;
  }

  -- One round of the loop of `startStateSyncOnce`.
  unfoldable pub state_sync : Server N → Server N
  state_sync s = elim s.clients [
    | [] ↦ s
    | _ ∷ _ ↦ record s {
      outbox =
          s.outbox ++ broadcast_droppable (snapshot (values s.players_cache) s.last_seen_seq) ∷ [];
    }
  ]

  -- One round of the loop of `startStateTickOnce`.
  unfoldable pub state_tick : ℕ → Server N → Server N
  state_tick now s = elim s.clients [
    | [] ↦ s
    | _ ∷ _ ↦ elim s.pending_states [
      | [] ↦ s
      | _ ∷ _ ↦ record s {
        pending_states = [];
        outbox = s.outbox ++ broadcast_droppable (states now (values s.pending_states)) ∷ [];
      }
    ]
  ]

-- `rateLimitOk`: 1200 messages in 10 seconds.
unfoldable pub rate_limit_ok : ℕ → WsClient → Bool × WsClient
rate_limit_ok now c =
    let fresh =
      if ltb (c.bucket_start + 10000) now
      then record c { bucket_start = now; bucket_count = 0 }
      else c in
    (leb (suc fresh.bucket_count) 1200, record fresh { bucket_count = suc fresh.bucket_count })

-- `stateFreqOk`: with `STATE_HZ` 20 the least interval is 50 * 0.75 milliseconds.
unfoldable pub state_freq_ok : ℕ → WsClient → Bool × WsClient
state_freq_ok now c =
    if ltb (2 * now) (2 * c.last_state_at + 75)
    then (false, c)
    else (true, record c { last_state_at = now })
