-- ===== src/Server/Dedupe/Run.antt =====
-- The table of shots of game.ts, over a run of the gateway.
use snow_brawl_game.Base.{
  ℕ, ◌+◌, ◌<◌, ◌≡◌, refl, ◌∙◌, inl, inr, true, false, List, [], ◌∷◌, Option, none, some, arith,
  Option-cases, if_cases, if◌then◌else◌, List-cases, get_elem?, remove_at, ℕ_discrete,
}
use snow_brawl_game.Base.Text.{Text, Text-discrete}
use snow_brawl_game.Base.Dict
use snow_brawl_game.Engine.{Engine, Vec3}
use snow_brawl_game.Server.Utils.{is_uuid_like, is_finite_vec3}
use snow_brawl_game.Server.Protocol.{ClientMsg, hello, chat, state, snowball, ping, rename}
use snow_brawl_game.Server.State.{
  Server, WsClient, cleanup, state_sync, state_tick, rate_limit_ok, state_freq_ok, append_event,
}
use snow_brawl_game.Server.Game.{Draws, seen_shot_before, server_handle_state}
use snow_brawl_game.Server.Shots.{throw_ball, land_ball}
use snow_brawl_game.Server.Gateway.{
  Task, Hub, Action, after, put_session, output, on_ping, enter, greet_client, on_close,
  hello_timeout, dispatch, before_hello, on_message, run_task, act, run, admit, greet, catch_up,
  land, finish, receives, closes, times_out, cleans_up, sweeps, syncs, ticks, resumes,
}
use snow_brawl_game.Server.Dedupe.{
  get-sweep_shots, seen_shot_before-held, get-seen_shot_before_new, throw_ball-Held,
  server_handle_state-seen, server_handle_rename-seen, server_handle_chat-seen, land_ball-seen,
  finish_ball-seen,
}

-- The actions that look at the table read the clock before `exp`.
abbrev pub Before : {N : Type 0} → ℕ → Action N → Type 0
Before exp (receives now d socket msg) = now < exp
Before exp (sweeps now) = now < exp
Before exp _ = Unit

abbrev pub AllBefore : {N : Type 0} → ℕ → List (Action N) → Type 0
AllBefore exp [] = Unit
AllBefore exp (a ∷ actions) = Before exp a × AllBefore exp actions

abbrev pub Held : Text → ℕ → List (Text × ℕ) → Type 0
Held id exp seen = Dict.get Text-discrete id seen ≡ some exp

module _ {N : Type 0} where
  on_ping-seen :
      (now socket : ℕ) (id : Text) (s : Server N)
      → (on_ping now socket id s).seen_shots ≡ s.seen_shots
  unfolding on_ping output
  on_ping-seen now socket id s = ground arith

  on_close-seen :
      (now socket : ℕ) (s : Server N) → (on_close now socket s).seen_shots ≡ s.seen_shots
  unfolding on_close
  on_close-seen now socket s = ground arith

  hello_timeout-seen :
      (socket : ℕ) (hub : Hub N)
      → (hello_timeout socket hub).server.seen_shots ≡ hub.server.seen_shots
  unfolding hello_timeout output
  hello_timeout-seen socket hub = ground arith

  greet_client-seen :
      (seed socket now : ℕ) (s : Server N)
      → (greet_client seed socket now s).seen_shots ≡ s.seen_shots
  unfolding greet_client output
  greet_client-seen seed socket now s = ground arith

  state_sync-seen : (s : Server N) → (state_sync s).seen_shots ≡ s.seen_shots
  unfolding state_sync
  state_sync-seen s = ground (arith, List-cases s.clients)

  state_tick-seen : (now : ℕ) (s : Server N) → (state_tick now s).seen_shots ≡ s.seen_shots
  unfolding state_tick
  state_tick-seen now s = ground (arith, List-cases s.clients, List-cases s.pending_states)

  after-seen :
      {A : Type 0} (task : A → Task N) (hub : Hub N) (r : Server N × Option A)
      → (after task hub r).server.seen_shots ≡ r.0.seen_shots
  after-seen task hub (s, none) = refl
  after-seen task hub (s, some a) = refl

module _ {N : Type 0} ⦃e : Engine N⦄ where
  dispatch-Held :
      (now : ℕ) (d : Draws N) (socket : ℕ) (c : WsClient) (msg : ClientMsg N) (hub : Hub N)
      (id : Text) (exp : ℕ)
      → now < exp
      → Held id exp hub.server.seen_shots
      → Held id exp (dispatch now d socket c msg hub).server.seen_shots
  unfolding dispatch put_session
  dispatch-Held now d socket c ping hub id exp h held =
      rw (on_ping-seen now socket c.id hub.server) held
  dispatch-Held now d socket c (chat text) hub id exp h held =
      rw (server_handle_chat-seen now c.id c.name text hub.server) held
  dispatch-Held now d socket c (state msg) hub id exp h held =
      let (ok, c') = state_freq_ok now c in
      if_cases (λ (x : Hub N). Held id exp x.server.seen_shots) ok
        (λ timely.
          (let s = put_session socket c' hub.server in
            rw
              (
                after-seen catch_up hub (server_handle_state now d c.id c.name msg s),
                server_handle_state-seen now d c.id c.name msg s,
              )
              held))
        (λ soon. held)
  dispatch-Held now d socket c (snowball shot dir) hub id exp h held =
      rw (after-seen land hub (throw_ball now d c.id shot dir hub.server))
        (throw_ball-Held now d c.id shot dir hub.server id exp h held)
  dispatch-Held now d socket c (hello name) hub id exp h held = held
  dispatch-Held now d socket c (rename name) hub id exp h held =
      rw
        (server_handle_rename-seen now c.id name
          (put_session socket (record c { name = name }) hub.server))
        held

  before_hello-seen :
      (now : ℕ) (d : Draws N) (socket : ℕ) (msg : ClientMsg N) (hub : Hub N)
      → (before_hello now d socket msg hub).server.seen_shots ≡ hub.server.seen_shots
  unfolding before_hello
  before_hello-seen now d socket (hello name) hub = refl
  before_hello-seen now d socket _ hub = refl

  on_message-Held :
      (now : ℕ) (d : Draws N) (socket : ℕ) (msg : ClientMsg N) (hub : Hub N) (id : Text) (exp : ℕ)
      → now < exp
      → Held id exp hub.server.seen_shots
      → Held id exp (on_message now d socket msg hub).server.seen_shots
  unfolding on_message put_session output
  on_message-Held now d socket msg hub id exp h held =
      elim (Option-cases (Dict.get ℕ_discrete socket hub.server.sessions)) [
        | inl fresh ↦ rw (fresh, on_message) (rw (before_hello-seen now d socket msg hub) held)
        | inr (c, known) ↦
            (let (ok, c') = rate_limit_ok now c in
              let counted = record hub { server = put_session socket c' hub.server } in
              rw (known, on_message)
                (if_cases (λ (x : Hub N). Held id exp x.server.seen_shots) ok
                  (λ fine. dispatch-Held now d socket c' msg counted id exp h held)
                  (λ flood. held)))
      ]

  run_task-seen :
      (now : ℕ) (task : Task N) (hub : Hub N)
      → (run_task now task hub).server.seen_shots ≡ hub.server.seen_shots
  unfolding run_task enter append_event
  run_task-seen now (admit socket at d name) hub = refl
  run_task-seen now (greet socket at) hub = greet_client-seen hub.world_seed socket at hub.server
  run_task-seen now (catch_up p) hub = refl
  run_task-seen now (land ball) hub =
      after-seen (λ what. finish ball what.0 what.1) hub (land_ball now ball hub.server)
      ∙ land_ball-seen now ball hub.server
  run_task-seen now (finish ball victim respawn_at) hub =
      finish_ball-seen now ball victim respawn_at hub.server

  act-Held :
      (a : Action N) (hub : Hub N) (id : Text) (exp : ℕ)
      → Before exp a
      → Held id exp hub.server.seen_shots
      → Held id exp (act a hub).server.seen_shots
  unfolding act cleanup
  act-Held (receives now d socket msg) hub id exp h held =
      on_message-Held now d socket msg hub id exp h held
  act-Held (closes now socket) hub id exp h held = rw (on_close-seen now socket hub.server) held
  act-Held (times_out socket) hub id exp h held = rw (hello_timeout-seen socket hub) held
  act-Held (cleans_up now) hub id exp h held = held
  act-Held (sweeps now) hub id exp h held = get-sweep_shots now id exp hub.server.seen_shots h held
  act-Held syncs hub id exp h held = rw (state_sync-seen hub.server) held
  act-Held (ticks now) hub id exp h held = rw (state_tick-seen now hub.server) held
  act-Held (resumes now i) hub id exp h held = elim (Option-cases (get_elem? hub.tasks i)) [
    | inl none_such ↦ rw (none_such, act) held
    | inr (task, waiting) ↦
        rw (waiting, act)
          (rw (run_task-seen now task (record hub { tasks = remove_at i hub.tasks })) held)
  ]

  run-Held :
      (actions : List (Action N)) (hub : Hub N) (id : Text) (exp : ℕ)
      → AllBefore exp actions
      → Held id exp hub.server.seen_shots
      → Held id exp (run actions hub).server.seen_shots
  unfolding run
  run-Held [] hub id exp before held = held
  run-Held (a ∷ actions) hub id exp (b, before) held =
      run-Held actions (act a hub) id exp before (act-Held a hub id exp b held)

  throw_ball-again :
      (now : ℕ) (d : Draws N) (client_id id : Text) (dir : Option (Vec3 N)) (s : Server N) (exp : ℕ)
      → is_uuid_like id ≡ true
      → now < exp
      → Held id exp s.seen_shots
      → throw_ball now d client_id id dir s ≡ (s, none)
  unfolding throw_ball
  throw_ball-again now d client_id id none s exp like h held = refl
  throw_ball-again now d client_id id (some dir) s exp like h held =
      let shot_id = if is_uuid_like id then id else d.uuid in
      let same : shot_id ≡ id = rw like refl in
      let again : (seen_shot_before now shot_id s.seen_shots).0 ≡ true =
        rw same (seen_shot_before-held now id exp s.seen_shots h held) in
      ground (arith, again)

  throw_ball-holds :
      (now : ℕ) (d : Draws N) (client_id id : Text) (dir : Vec3 N) (s : Server N)
      → is_uuid_like id ≡ true
      → is_finite_vec3 (some dir) ≡ true
      → (seen_shot_before now id s.seen_shots).0 ≡ false
      → Held id (now + 10000) (throw_ball now d client_id id (some dir) s).0.seen_shots
  unfolding throw_ball
  throw_ball-holds now d client_id id dir s like finite new =
      let shot_id = if is_uuid_like id then id else d.uuid in
      let same : shot_id ≡ id = rw like refl in
      let first : (seen_shot_before now shot_id s.seen_shots).0 ≡ false = rw same new in
      let held : Held id (now + 10000) (seen_shot_before now shot_id s.seen_shots).1 =
        rw same (get-seen_shot_before_new now id s.seen_shots new) in
      ground (arith, first, held, finite)

  -- Suppose a shot id of 8 to 64 units, a finite direction, and that the shot is no repetition at
  -- time `now`. After it was handled, and after any run whose messages and sweeps read the clock
  -- before now + 10000, every throw with that id before then, by any player, in any direction,
  -- changes nothing and starts no ball.
  pub throw_ball-once :
      (now : ℕ) (d : Draws N) (client_id id : Text) (dir : Vec3 N) (hub : Hub N)
      (actions : List (Action N)) (now' : ℕ) (d' : Draws N) (client_id' : Text)
      (dir' : Option (Vec3 N))
      → is_uuid_like id ≡ true
      → is_finite_vec3 (some dir) ≡ true
      → (seen_shot_before now id hub.server.seen_shots).0 ≡ false
      → AllBefore (now + 10000) actions
      → now' < now + 10000
      → let s =
          (run actions
            (after land hub (throw_ball now d client_id id (some dir) hub.server))).server in
        throw_ball now' d' client_id' id dir' s ≡ (s, none)
  throw_ball-once now d client_id id dir hub actions now' d' client_id' dir' like finite new before
        soon =
      let thrown = throw_ball now d client_id id (some dir) hub.server in
      let start = after land hub thrown in
      throw_ball-again now' d' client_id' id dir' (run actions start).server (now + 10000) like soon
        (run-Held actions start id (now + 10000) before (
          rw (after-seen land hub thrown)
            (throw_ball-holds now d client_id id dir hub.server like finite new)))
