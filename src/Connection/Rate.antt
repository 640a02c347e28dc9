-- ===== src/Connection/Rate.antt =====
-- How often `maybeSendLocalState` of client_src/network.js reports the player's state.
use snow_brawl_game.Base.{
  ℕ, ◌+◌, ◌*◌, ◌≤◌, inl, inr, Option, none, some, arith, Bool-cases, Option-cases, get_elem?,
  remove_at, Holds,
}
use snow_brawl_game.Base.Text.{Text, utf16}
use snow_brawl_game.Engine.{Engine, Vec3}
use snow_brawl_game.Player.{Player}
use snow_brawl_game.Utils.Config.{send_interval}
use snow_brawl_game.World.{World}
use snow_brawl_game.Network.Events.{no_local_id, or_text}
use snow_brawl_game.Connection.{
  Connection, Clock, Job, Outgoing, report, hello, ping, say, throw, closed, open_now, announce,
  on_open, on_close, stop_ping, start_ping_loop, schedule_reconnect, tick, connect, send_chat,
  send_snowball, transmit, deliver, finish_encoding, maybe_send_local_state, ping_tick, reconnect,
  reload,
}
use snow_brawl_game.Connection.Receive.{
  Message, error, welcome, snapshot, states, event, pong, other, on_pong, on_message,
}
use snow_brawl_game.Connection.Session.{
  Action, opens, closes, receives, fires, draws, chats, encrypts, Session, set_ready, with_world,
  run_task, fire, step,
}
use snow_brawl_game.Connection.Reports.{
  one_if_report, reports, queued-append, gone_out-append, queued-remove_at,
}

module _ {N : Type 0} where
  -- Since the time `a`, when there were reports for the time `b`, one report for each interval at most.
  abbrev pub Paced : ℕ → ℕ → Connection N → Type 0
  Paced a b c = reports c * send_interval + a ≤ b + c.last_state_send

  transmit-Paced :
      (i : ℕ) (m : Outgoing N) (a b : ℕ) (c : Connection N)
      → (reports c + one_if_report m) * send_interval + a ≤ b + c.last_state_send
      → Paced a b (transmit i m c)
  unfolding transmit
  transmit-Paced i m a b c v = ground (arith, gone_out-append c.sent (i, m))

  deliver-Paced :
      (job : Job N) (a b : ℕ) (c : Connection N)
      → (reports c + one_if_report job.message) * send_interval + a ≤ b + c.last_state_send
      → Paced a b (deliver job c)
  unfolding deliver
  deliver-Paced job a b c v = elim (Option-cases job.socket) [
    | inr (i, own) ↦ rw (own, deliver) (transmit-Paced i job.message a b c v)
    | inl shared ↦ elim (Option-cases c.ws) [
      | inl lost ↦ rw (shared, lost, deliver) (omega arith)
      | inr (i, current) ↦ rw (shared, current, deliver) (transmit-Paced i job.message a b c v)
    ]
  ]

  finish_encoding-Paced :
      (j : ℕ) (a b : ℕ) (c : Connection N) → Paced a b c → Paced a b (finish_encoding j c)
  unfolding finish_encoding
  finish_encoding-Paced j a b c v = elim (Option-cases (get_elem? c.encoding j)) [
    | inl nothing ↦ rw (nothing, finish_encoding) v
    | inr (job, found) ↦
        rw (found, finish_encoding)
          (deliver-Paced job a b (record c { encoding = remove_at j c.encoding })
            (omega (arith, queued-remove_at c.encoding j job found)))
  ]

  pub maybe_send-Paced :
      (now : Clock) (p : Option (Player N)) (a b : ℕ) (c : Connection N)
      → Paced a b c
      → Paced a b (maybe_send_local_state now p c)
  unfolding maybe_send_local_state
  maybe_send-Paced now none a b c v = v
  maybe_send-Paced now (some p) a b c v = ground (
    arith,
    queued-append c.encoding (record {
      socket = none;
      message = report p.position p.rotation_y p.velocity p.input.shift c.last_ping_ms;
    }),
  )

  tick-Paced : (now : Clock) (a b : ℕ) (c : Connection N) → Paced a b c → Paced a b (tick now c)
  unfolding tick
  tick-Paced now a b c v =
      ground (arith, queued-append c.encoding (record { socket = none; message = ping now.date }))

  start_ping_loop-Paced :
      (now : Clock) (a b : ℕ) (c : Connection N) → Paced a b c → Paced a b (start_ping_loop now c)
  unfolding start_ping_loop
  start_ping_loop-Paced now a b c v = ground (arith, tick-Paced now a b c v)

  on_close-Paced : (a b : ℕ) (c : Connection N) → Paced a b c → Paced a b (on_close c)
  unfolding on_close stop_ping schedule_reconnect
  on_close-Paced a b c v = ground arith

  pub connect-Paced :
      (name : Text) (a b : ℕ) (c : Connection N) → Paced a b c → Paced a b (connect name c)
  unfolding connect
  connect-Paced name a b c v = ground arith

  fire-Paced :
      (now : Clock) (i a b : ℕ) (c : Connection N) → Paced a b c → Holds (Paced a b) (fire now i c)
  unfolding fire run_task
  fire-Paced now i a b c v = elim (Option-cases (get_elem? c.timers i)) [
    | inl nothing ↦ rw (nothing, fire) v
    | inr ((t, ping_tick), found) ↦
        rw (found, fire) (tick-Paced now a b (record c { timers = remove_at i c.timers }) v)
    | inr ((t, reconnect), found) ↦
        rw (found, fire)
          (connect-Paced (or_text c.player_name (utf16 "Player")) a b
            (record c { timers = remove_at i c.timers }) v)
    | inr ((t, reload), found) ↦ rw (found, fire) tt
  ]

  announce-Paced :
      (i : ℕ) (name : Text) (a b : ℕ) (c : Connection N)
      → Paced a b c
      → Paced a b (announce i name c)
  unfolding announce
  announce-Paced i name a b c v = omega (
    arith,
    queued-append c.encoding
        (record { socket = some i; message = hello (or_text c.player_name name) }),
  )

  pub send_snowball-Paced :
      (now : Clock) (id : Text) (dir : Vec3 N) (a b : ℕ) (c : Connection N)
      → Paced a b c
      → Paced a b (send_snowball now id dir c)
  unfolding send_snowball
  send_snowball-Paced now id dir a b c v =
      ground (
        arith,
        queued-append c.encoding (record { socket = none; message = throw id dir now.date }),
      )

  pub send_chat-Paced :
      (text : Text) (a b : ℕ) (c : Connection N) → Paced a b c → Paced a b (send_chat text c)
  unfolding send_chat
  send_chat-Paced text a b c v =
      ground (arith, queued-append c.encoding (record { socket = none; message = say text }))

module _ {N : Type 0} ⦃e : Engine N⦄ where
  on_message-Paced :
      (now : Clock) (m : Message N) (a b : ℕ) (c : Connection N) (w : World N)
      → Paced a b c
      → Paced a b (on_message now m (c, w)).0
  unfolding on_message on_pong
  on_message-Paced now (error text) a b c w v = v
  on_message-Paced now (welcome id seed) a b c w v = elim (Option-cases c.pending_snapshot) [
    | inl no_list ↦ rw (no_list, on_message) v
    | inr (list, waiting) ↦ rw (waiting, on_message) v
  ]
  on_message-Paced now (snapshot list) a b c w v =
      elim (Bool-cases (no_local_id w.registry.local_player_id)) [
        | inl early ↦ rw (early, on_message) v
        | inr late ↦ rw (late, on_message) v
      ]
  on_message-Paced now (states list) a b c w v = v
  on_message-Paced now (event none) a b c w v = v
  on_message-Paced now (event (some ev)) a b c w v = v
  on_message-Paced now pong a b c w v = ground arith
  on_message-Paced now other a b c w v = v

  abbrev pub SessionPaced : ℕ → ℕ → Session N → Type 0
  SessionPaced a b s = Paced a b s.0

  with_world-Paced :
      (w : World N) (a b : ℕ) (o : Option (Connection N))
      → Holds (Paced a b) o
      → Holds (SessionPaced a b) (with_world w o)
  with_world-Paced w a b none h = tt
  with_world-Paced w a b (some c) h = h

  pub step-Paced :
      (act : Action N) (a b : ℕ) (c : Connection N) (w : World N)
      → Paced a b c
      → Holds (SessionPaced a b) (step act (c, w))
  unfolding step
  step-Paced (opens now i name) a b c w v =
      unfold on_open in
      start_ping_loop-Paced now a b (announce i name (set_ready i open_now c))
        (announce-Paced i name a b (set_ready i open_now c) v)
  step-Paced (closes i) a b c w v = on_close-Paced a b (set_ready i closed c) v
  step-Paced (receives now m) a b c w v = on_message-Paced now m a b c w v
  step-Paced (fires now i) a b c w v = with_world-Paced w a b _ (fire-Paced now i a b c v)
  step-Paced (draws now) a b c w v = elim (Option-cases w.registry.local_player) [
    | inl nobody ↦ rw (nobody, step) (maybe_send-Paced now none a b c v)
    | inr (r, known) ↦
        rw (known, step) (maybe_send-Paced now (get_elem? w.registry.objects r) a b c v)
  ]
  step-Paced (chats text) a b c w v = send_chat-Paced text a b c v
  step-Paced (encrypts j) a b c w v = finish_encoding-Paced j a b c v
