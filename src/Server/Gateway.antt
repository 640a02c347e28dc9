-- ===== src/Server/Gateway.antt =====
-- The gateway of ws.ts: the messages and the end of a connection, with the timers of the other files
-- as actions, and the continuations of the handlers as tasks that may run in any order.
use snow_brawl_game.Base.{
  ℕ, Bool, false, ◌||◌, ◌==◌, List, [], ◌∷◌, ◌++◌, Option, none, some, if◌then◌else◌, get_elem?,
  remove_at, ℕ_discrete,
}
use snow_brawl_game.Base.Text.{Text, utf16, Text-discrete}
use snow_brawl_game.Base.Dict
use snow_brawl_game.Engine.{Engine}
use snow_brawl_game.Server.Protocol.{
  PlayerSnapshot, ClientMsg, PendingState, hello, chat, state, snowball, ping, rename, join, leave,
  welcome, snapshot, pong, error,
}
use snow_brawl_game.Server.State.{
  Server, WsClient, Output, values, player_of, set_player, cache_player, append_event, cleanup,
  enqueue_pending_state, state_sync, state_tick, rate_limit_ok, state_freq_ok, send, close,
}
use snow_brawl_game.Server.Game.{
  Draws, Flying, sweep_shots, server_on_hello, server_handle_rename, server_handle_chat,
  server_handle_state,
}
use snow_brawl_game.Server.Shots.{throw_ball, land_ball, finish_ball}

-- What a handler does after an `await`. After `serverOnHello`, which is no more than a value of the
-- clock, the draws and the name at the hello, `admit` goes on; after the broadcast of the join, `greet`.
pub data Task (N : Type 0) : Type 0 where
  admit : ℕ → ℕ → Draws N → Text → Task N
  greet : ℕ → ℕ → Task N
  catch_up : PendingState N → Task N
  land : Flying N → Task N
  finish : Flying N → PlayerSnapshot N → ℕ → Task N

pub record Hub (N : Type 0) : Type 0 where
  pub server : Server N
  pub tasks : List (Task N)
  pub world_seed : ℕ
  -- The sockets whose `helloTimer` is cleared.
  pub cleared : List ℕ

unfoldable pub is_cleared : ℕ → List ℕ → Bool
is_cleared socket [] = false
is_cleared socket (s ∷ rest) = socket == s || is_cleared socket rest

module _ {N : Type 0} where
  -- A handler's result: the memory after it, and what it waits to do, if anything.
  abbrev pub after {ℓ} : {A : Type ℓ} → (A → Task N) → Hub N → Server N × Option A → Hub N
  after task hub (s, none) = record hub { server = s }
  after task hub (s, some a) = record hub { server = s; tasks = hub.tasks ++ task a ∷ [] }

  unfoldable pub put_session : ℕ → WsClient → Server N → Server N
  put_session socket c s = record s { sessions = Dict.set ℕ_discrete socket c s.sessions }

  unfoldable pub output : Output N → Server N → Server N
  output o s = record s { outbox = s.outbox ++ o ∷ [] }

  -- The case `ping` of `onmessage`.
  unfoldable pub on_ping : ℕ → ℕ → Text → Server N → Server N
  unfolding output
  on_ping now socket id s = output (send socket (pong now)) (elim (player_of id s.players_cache) [
    | none ↦ s
    | some snap ↦ cache_player id (record snap { updated_at = now }) s
  ])

  unfoldable pub new_client : ℕ → PlayerSnapshot N → WsClient
  new_client now snap = record {
    id = snap.id;
    name = snap.name;
    connected_at = now;
    bucket_start = now;
    bucket_count = 0;
    last_state_at = 0;
  }

  -- What follows `serverOnHello`, up to the broadcast, for a hello that came at the second time.
  unfoldable pub enter : ℕ → ℕ → ℕ → PlayerSnapshot N → Server N → Server N
  unfolding new_client append_event
  enter now at socket snap s = append_event now (join snap) (record s {
    sessions = Dict.set ℕ_discrete socket (new_client at snap) s.sessions;
    clients = Dict.set Text-discrete snap.id socket s.clients;
    players_cache = set_player snap.id snap s.players_cache;
  })

  -- `welcome` and the first snapshot, for the client that the connection then has.
  unfoldable pub greet_client : ℕ → ℕ → ℕ → Server N → Server N
  unfolding output
  greet_client seed socket now s = elim (Dict.get ℕ_discrete socket s.sessions) [
    | none ↦ s
    | some c ↦
        output (send socket (snapshot (values s.players_cache) s.last_seen_seq))
          (output (send socket (welcome c.id now seed)) s)
  ]

  -- `onclose`.
  unfoldable pub on_close : ℕ → ℕ → Server N → Server N
  unfolding append_event
  on_close now socket s = elim (Dict.get ℕ_discrete socket s.sessions) [
    | none ↦ s
    | some c ↦
        append_event now (leave c.id c.name)
          (record s { clients = Dict.delete Text-discrete c.id s.clients })
  ]

  -- `clearTimeout(helloTimer)`.
  unfoldable pub clear_hello_timer : ℕ → Hub N → Hub N
  clear_hello_timer socket hub = record hub { cleared = socket ∷ hub.cleared }

  -- The timer of `handleWs`, if it is not cleared.
  unfoldable pub hello_timeout : ℕ → Hub N → Hub N
  unfolding is_cleared output
  hello_timeout socket hub =
      if is_cleared socket hub.cleared
      then hub
      else record hub { server = output (close socket 4000) hub.server }

module _ {N : Type 0} ⦃e : Engine N⦄ where
  -- The `switch` of `onmessage`.
  unfoldable pub dispatch : ℕ → Draws N → ℕ → WsClient → ClientMsg N → Hub N → Hub N
  unfolding on_ping server_handle_chat state_freq_ok server_handle_state throw_ball
      server_handle_rename put_session
  dispatch now d socket c ping hub = record hub { server = on_ping now socket c.id hub.server }
  dispatch now d socket c (chat text) hub = record hub {
    server = server_handle_chat now c.id c.name text hub.server;
  }
  dispatch now d socket c (state msg) hub =
      let (ok, c') = state_freq_ok now c in
      if ok
      then after catch_up hub
          (server_handle_state now d c.id c.name msg (put_session socket c' hub.server))
      else hub
  dispatch now d socket c (snowball id dir) hub =
      after land hub (throw_ball now d c.id id dir hub.server)
  dispatch now d socket c (hello name) hub = hub
  dispatch now d socket c (rename name) hub = record hub {
    server =
        server_handle_rename now c.id name
          (put_session socket (record c { name = name }) hub.server);
  }

  -- The branch `if (!client)` of `onmessage`. `ALLOW_DUPLICATE_NAMES` is true.
  unfoldable pub before_hello : ℕ → Draws N → ℕ → ClientMsg N → Hub N → Hub N
  unfolding clear_hello_timer
  before_hello now d socket (hello name) hub = record (clear_hello_timer socket hub) {
    tasks = hub.tasks ++ admit socket now d name ∷ [];
  }
  before_hello now d socket _ hub = hub

  -- `onmessage`, for a message that could be decrypted and parsed.
  unfoldable pub on_message : ℕ → Draws N → ℕ → ClientMsg N → Hub N → Hub N
  unfolding before_hello rate_limit_ok dispatch put_session output
  on_message now d socket msg hub = elim (Dict.get ℕ_discrete socket hub.server.sessions) [
    | none ↦ before_hello now d socket msg hub
    | some c ↦
        (let (ok, c') = rate_limit_ok now c in
          let counted = record hub { server = put_session socket c' hub.server } in
          if ok then dispatch now d socket c' msg counted else record hub {
            server =
                output (close socket 4008)
                  (output (send socket (error (utf16 "rate limited"))) counted.server);
          })
  ]

  unfoldable pub run_task : ℕ → Task N → Hub N → Hub N
  unfolding server_on_hello enter greet_client enqueue_pending_state land_ball finish_ball
  run_task now (admit socket at d name) hub = record hub {
    server = enter now at socket (server_on_hello at d name) hub.server;
    tasks = hub.tasks ++ greet socket at ∷ [];
  }
  run_task now (greet socket at) hub = record hub {
    server = greet_client hub.world_seed socket at hub.server;
  }
  run_task now (catch_up p) hub = record hub { server = enqueue_pending_state p hub.server }
  run_task now (land ball) hub =
      after (λ what. finish ball what.0 what.1) hub (land_ball now ball hub.server)
  run_task now (finish ball victim respawn_at) hub = record hub {
    server = finish_ball now ball victim respawn_at hub.server;
  }

-- What can happen next: a message, the end of a connection, a timer, or the rest of a handler.
pub data Action (N : Type 0) : Type 0 where
  receives : ℕ → Draws N → ℕ → ClientMsg N → Action N
  closes : ℕ → ℕ → Action N
  times_out : ℕ → Action N
  cleans_up : ℕ → Action N
  sweeps : ℕ → Action N
  syncs : Action N
  ticks : ℕ → Action N
  resumes : ℕ → ℕ → Action N

module _ {N : Type 0} ⦃e : Engine N⦄ where
  unfoldable pub act : Action N → Hub N → Hub N
  unfolding on_message on_close clear_hello_timer hello_timeout cleanup sweep_shots state_sync
      state_tick remove_at run_task
  act (receives now d socket msg) hub = on_message now d socket msg hub
  act (closes now socket) hub = record (clear_hello_timer socket hub) {
    server = on_close now socket hub.server;
  }
  act (times_out socket) hub = hello_timeout socket hub
  act (cleans_up now) hub = record hub { server = cleanup now hub.server }
  act (sweeps now) hub = record hub {
    server = record (hub.server) { seen_shots = sweep_shots now hub.server.seen_shots };
  }
  act syncs hub = record hub { server = state_sync hub.server }
  act (ticks now) hub = record hub { server = state_tick now hub.server }
  act (resumes now i) hub = elim (get_elem? hub.tasks i) [
    | none ↦ hub
    | some task ↦ run_task now task (record hub { tasks = remove_at i hub.tasks })
  ]

  unfoldable pub run : List (Action N) → Hub N → Hub N
  unfolding act
  run [] hub = hub
  run (a ∷ actions) hub = run actions (act a hub)
