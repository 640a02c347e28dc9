-- ===== src/Server/Sound/Hub.antt =====
-- The invariant of the memory, for the actions of the gateway of ws.ts.
use snow_brawl_game.Base.{
  ℕ, refl, inl, inr, Option, none, some, Option-cases, if_cases, get_elem?, remove_at, ℕ_discrete,
}
use snow_brawl_game.Base.Text.{utf16}
use snow_brawl_game.Base.Dict
use snow_brawl_game.Engine.{Engine}
use snow_brawl_game.Server.Protocol.{ClientMsg, hello, chat, state, snowball, ping, rename, error}
use snow_brawl_game.Server.State.{
  Server, WsClient, enqueue_pending_state, rate_limit_ok, state_freq_ok, send, close,
}
use snow_brawl_game.Server.Game.{server_handle_state, Draws, server_on_hello}
use snow_brawl_game.Server.Game.{server_handle_state}
use snow_brawl_game.Server.Shots.{throw_ball, land_ball}
use snow_brawl_game.Server.Gateway.{
  Task, Hub, Action, after, put_session, output, dispatch, before_hello, on_message, run_task, act,
  admit, greet, catch_up, land, finish, receives, closes, times_out, cleans_up, sweeps, syncs,
  ticks, resumes,
}
use snow_brawl_game.Server.Sound.{IsSound, say-IsSound}
use snow_brawl_game.Server.Sound.Steps.{
  cleanup-IsSound, on_close-IsSound, enter-IsSound, on_ping-IsSound, greet_client-IsSound,
  hello_timeout-IsSound, state_sync-IsSound, state_tick-IsSound,
}
use snow_brawl_game.Server.Sound.Handlers.{
  server_on_hello-Fit, server_handle_rename-IsSound, server_handle_chat-IsSound,
  server_handle_state-IsSound,
}
use snow_brawl_game.Server.Sound.Shots.{throw_ball-IsSound, land_ball-IsSound, finish_ball-IsSound}

module _ {N : Type 0} where
  after-IsSound :
      {A : Type 0} (task : A → Task N) (hub : Hub N) (r : Server N × Option A)
      → IsSound r.0
      → IsSound (after task hub r).server
  after-IsSound task hub (s, none) v = v
  after-IsSound task hub (s, some a) v = v

module _ {N : Type 0} ⦃e : Engine N⦄ where
  abbrev pub HubIsSound : Hub N → Type 0
  HubIsSound hub = IsSound hub.server

  dispatch-IsSound :
      (now : ℕ) (d : Draws N) (socket : ℕ) (c : WsClient) (msg : ClientMsg N) (hub : Hub N)
      → HubIsSound hub
      → HubIsSound (dispatch now d socket c msg hub)
  unfolding dispatch put_session
  dispatch-IsSound now d socket c ping hub v = on_ping-IsSound now socket c.id hub.server v
  dispatch-IsSound now d socket c (chat text) hub v =
      server_handle_chat-IsSound now c.id c.name text hub.server v
  dispatch-IsSound now d socket c (state msg) hub v =
      let (ok, c') = state_freq_ok now c in
      if_cases HubIsSound ok
        (λ timely.
          after-IsSound catch_up hub
            (server_handle_state now d c.id c.name msg (put_session socket c' hub.server))
            (server_handle_state-IsSound now d c.id c.name msg (put_session socket c' hub.server)
              v))
        (λ soon. v)
  dispatch-IsSound now d socket c (snowball id dir) hub v =
      after-IsSound land hub (throw_ball now d c.id id dir hub.server)
        (throw_ball-IsSound now d c.id id dir hub.server v)
  dispatch-IsSound now d socket c (hello name) hub v = v
  dispatch-IsSound now d socket c (rename name) hub v =
      server_handle_rename-IsSound now c.id name
        (put_session socket (record c { name = name }) hub.server) v

  before_hello-IsSound :
      (now : ℕ) (d : Draws N) (socket : ℕ) (msg : ClientMsg N) (hub : Hub N)
      → HubIsSound hub
      → HubIsSound (before_hello now d socket msg hub)
  unfolding before_hello
  before_hello-IsSound now d socket (hello name) hub v = v
  before_hello-IsSound now d socket _ hub v = v

  on_message-IsSound :
      (now : ℕ) (d : Draws N) (socket : ℕ) (msg : ClientMsg N) (hub : Hub N)
      → HubIsSound hub
      → HubIsSound (on_message now d socket msg hub)
  unfolding on_message put_session output
  on_message-IsSound now d socket msg hub v =
      elim (Option-cases (Dict.get ℕ_discrete socket hub.server.sessions)) [
        | inl fresh ↦ rw (fresh, on_message) (before_hello-IsSound now d socket msg hub v)
        | inr (c, known) ↦
            (let (ok, c') = rate_limit_ok now c in
              let counted = record hub { server = put_session socket c' hub.server } in
              rw (known, on_message)
                (if_cases HubIsSound ok (λ fine. dispatch-IsSound now d socket c' msg counted v)
                  (λ flood.
                    say-IsSound (close socket 4008)
                      (output (send socket (error (utf16 "rate limited"))) counted.server) refl
                      (say-IsSound (send socket (error (utf16 "rate limited"))) counted.server refl
                        v))))
      ]

  run_task-IsSound :
      (now : ℕ) (task : Task N) (hub : Hub N) → HubIsSound hub → HubIsSound (run_task now task hub)
  unfolding run_task enqueue_pending_state
  run_task-IsSound now (admit socket at d name) hub v =
      enter-IsSound now at socket (server_on_hello at d name) hub.server
        (server_on_hello-Fit at d name) v
  run_task-IsSound now (greet socket at) hub v =
      greet_client-IsSound hub.world_seed socket at hub.server v
  run_task-IsSound now (catch_up p) hub v = v
  run_task-IsSound now (land ball) hub v =
      after-IsSound (λ what. finish ball what.0 what.1) hub (land_ball now ball hub.server)
        (land_ball-IsSound now ball hub.server v)
  run_task-IsSound now (finish ball victim respawn_at) hub v =
      finish_ball-IsSound now ball victim respawn_at hub.server v

  pub act-IsSound : (a : Action N) (hub : Hub N) → HubIsSound hub → HubIsSound (act a hub)
  unfolding act
  act-IsSound (receives now d socket msg) hub v = on_message-IsSound now d socket msg hub v
  act-IsSound (closes now socket) hub v = on_close-IsSound now socket hub.server v
  act-IsSound (times_out socket) hub v = hello_timeout-IsSound socket hub v
  act-IsSound (cleans_up now) hub v = cleanup-IsSound now hub.server v
  act-IsSound (sweeps now) hub v = v
  act-IsSound syncs hub v = state_sync-IsSound hub.server v
  act-IsSound (ticks now) hub v = state_tick-IsSound now hub.server v
  act-IsSound (resumes now i) hub v = elim (Option-cases (get_elem? hub.tasks i)) [
    | inl none_such ↦ rw (none_such, act) v
    | inr (task, waiting) ↦
        rw (waiting, act)
          (run_task-IsSound now task (record hub { tasks = remove_at i hub.tasks }) v)
  ]
