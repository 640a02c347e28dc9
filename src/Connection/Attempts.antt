-- ===== src/Connection/Attempts.antt =====
-- How often `NetworkManager` tries again: a budget that only a successful connection renews.
use snow_brawl_game.Base.{
  remove_at, ℕ, ◌+◌, ◌-◌, ◌≤◌, ◌≡◌, refl, inl, inr, Bool, true, false, List, [], ◌∷◌, Option, none,
  some, arith, Bool-cases, Option-cases, length, length-append, get_elem?, length-modify,
}
use snow_brawl_game.Base.Text.{Text, utf16}
use snow_brawl_game.Engine.{Engine}
use snow_brawl_game.Player.{Player}
use snow_brawl_game.World.{World}
use snow_brawl_game.Network.Events.{or_text, no_local_id}
use snow_brawl_game.Connection.{
  Connection, Clock, Task, connecting, closed, ping_tick, reconnect, reload, schedule_reconnect,
  tick, connect, finish_encoding, stop_ping, on_close, send_chat, maybe_send_local_state,
}
use snow_brawl_game.Connection.Receive.{
  Message, error, welcome, snapshot, states, event, pong, other, on_pong, on_message,
}
use snow_brawl_game.Connection.Session.{
  Action, opens, closes, receives, fires, draws, chats, encrypts, Session, set_ready, with_world,
  run_task, fire, step, run,
}
use snow_brawl_game.Connection.Reconnects.{
  reconnects, reconnects-append, reconnects-clear, reconnects-remove_at, weight,
}

module _ {N : Type 0} where
  -- Sockets made so far, reconnections under way, and attempts left.
  abbrev pub budget : Connection N → ℕ
  budget c = length c.sockets + reconnects c.timers + (3 - c.connect_attempts)

  abbrev pub IsBounded : Connection N → Type 0
  IsBounded c = c.connect_attempts ≤ 3

  tick-budget :
      (now : Clock) (c : Connection N)
      → (budget (tick now c) ≡ budget c) × ((tick now c).connect_attempts ≡ c.connect_attempts)
  unfolding tick reconnects
  tick-budget now c = ground (arith, reconnects-append c.timers ((c.next_timer, ping_tick) ∷ []))

  connect-budget :
      (name : Text) (c : Connection N)
      → (budget (connect name c) ≡ budget c + 1)
        × ((connect name c).connect_attempts ≡ c.connect_attempts)
  unfolding connect
  connect-budget name c = ground (arith, length-append c.sockets (connecting ∷ []))

  stop_ping-budget :
      (c : Connection N)
      → (budget (stop_ping c) ≤ budget c) × ((stop_ping c).connect_attempts ≡ c.connect_attempts)
  unfolding stop_ping
  stop_ping-budget c = elim (Option-cases c.ping_timer_id) [
    | inl idle ↦ rw (idle, stop_ping) (omega arith, refl)
    | inr (t, ticking) ↦ rw (ticking, stop_ping) (omega (arith, reconnects-clear t c.timers), refl)
  ]

  schedule_reconnect-budget :
      (c : Connection N)
      → IsBounded c
      → (budget (schedule_reconnect c) ≤ budget c) × IsBounded (schedule_reconnect c)
  unfolding schedule_reconnect reconnects
  schedule_reconnect-budget c h = ground (
    arith,
    reconnects-append c.timers ((c.next_timer, reconnect) ∷ []),
    reconnects-append c.timers ((c.next_timer, reload) ∷ []),
  )

  on_close-budget :
      (c : Connection N) → IsBounded c → (budget (on_close c) ≤ budget c) × IsBounded (on_close c)
  unfolding on_close
  on_close-budget c h =
      let cut : Connection N = record c { connected = false } in
      let (less, same) = stop_ping-budget cut in
      let (again, bounded) = schedule_reconnect-budget (stop_ping cut) (omega (arith, same)) in
      (omega (arith, less, again), bounded)

  finish_encoding-quiet :
      (j : ℕ) (c : Connection N)
      → (budget (finish_encoding j c) ≡ budget c)
        × ((finish_encoding j c).connect_attempts ≡ c.connect_attempts)
  unfolding finish_encoding
  finish_encoding-quiet j c = ground arith

  -- Within a budget, or the page was loaded anew.
  abbrev pub Fits : ℕ → Option (Connection N) → Type 0
  Fits b none = Unit {0}
  Fits b (some c) = (budget c ≤ b) × IsBounded c

  run_task-Fits :
      (now : Clock) (task : Task) (b : ℕ) (c : Connection N)
      → budget c + weight task ≤ b
      → IsBounded c
      → Fits b (run_task now task c)
  unfolding run_task
  run_task-Fits now ping_tick b c h v = omega (arith, tick-budget now c)
  run_task-Fits now reconnect b c h v =
      omega (arith, connect-budget (or_text c.player_name (utf16 "Player")) c)
  run_task-Fits now reload b c h v = tt

  fire-Fits :
      (now : Clock) (i : ℕ) (c : Connection N) → IsBounded c → Fits (budget c) (fire now i c)
  unfolding fire
  fire-Fits now i c v = elim (Option-cases (get_elem? c.timers i)) [
    | inl nothing ↦ rw (nothing, fire) (omega arith, v)
    | inr ((t, task), found) ↦
        rw (found, fire)
          (run_task-Fits now task _ (record c { timers = remove_at i c.timers })
            (omega (arith, reconnects-remove_at c.timers i t task found)) v)
  ]

  set_closed-budget : (i : ℕ) (c : Connection N) → budget (set_ready i closed c) ≡ budget c
  set_closed-budget i c = omega (arith, length-modify c.sockets i (λ _. closed))

  quiet_send :
      (now : Clock) (p : Option (Player N)) (c : Connection N)
      → (budget (maybe_send_local_state now p c) ≡ budget c)
        × ((maybe_send_local_state now p c).connect_attempts ≡ c.connect_attempts)
  unfolding maybe_send_local_state
  quiet_send now none c = (refl, refl)
  quiet_send now (some p) c = ground arith

module _ {N : Type 0} ⦃e : Engine N⦄ where
  on_message-budget :
      (now : Clock) (m : Message N) (c : Connection N) (w : World N)
      → IsBounded c
      → (budget (on_message now m (c, w)).0 ≤ budget c) × IsBounded (on_message now m (c, w)).0
  unfolding on_message on_pong
  on_message-budget now (error text) c w v = omega arith
  on_message-budget now (welcome id seed) c w v = elim (Option-cases c.pending_snapshot) [
    | inl no_list ↦ rw (no_list, on_message) (omega arith, v)
    | inr (list, waiting) ↦ rw (waiting, on_message) (omega arith, v)
  ]
  on_message-budget now (snapshot list) c w v =
      elim (Bool-cases (no_local_id w.registry.local_player_id)) [
        | inl early ↦ rw (early, on_message) (omega arith, v)
        | inr late ↦ rw (late, on_message) (omega arith, v)
      ]
  on_message-budget now (states list) c w v = omega arith
  on_message-budget now (event none) c w v = omega arith
  on_message-budget now (event (some ev)) c w v = omega arith
  on_message-budget now pong c w v = ground arith
  on_message-budget now other c w v = omega arith

  abbrev pub SessionFits : ℕ → Option (Session N) → Type 0
  SessionFits b none = Unit {0}
  SessionFits b (some (c, w)) = (budget c ≤ b) × IsBounded c

  abbrev pub is_opens : Action N → Bool
  is_opens (opens now i name) = true
  is_opens _ = false

  with_world-Fits :
      (b : ℕ) (w : World N) (o : Option (Connection N)) → Fits b o → SessionFits b (with_world w o)
  with_world-Fits b w none h = tt
  with_world-Fits b w (some c) h = h

  step-Fits :
      (a : Action N) (c : Connection N) (w : World N)
      → is_opens a ≡ false
      → IsBounded c
      → SessionFits (budget c) (step a (c, w))
  unfolding step
  step-Fits (opens now i name) c w h v = cc
  step-Fits (closes i) c w h v =
      omega (arith, set_closed-budget i c, on_close-budget (set_ready i closed c) v)
  step-Fits (receives now m) c w h v = on_message-budget now m c w v
  step-Fits (fires now i) c w h v = with_world-Fits _ w _ (fire-Fits now i c v)
  step-Fits (draws now) c w h v = elim (Option-cases w.registry.local_player) [
    | inl nobody ↦ rw (nobody, step) (omega (arith, quiet_send now none c))
    | inr (r, known) ↦
        rw (known, step) (omega (arith, quiet_send now (get_elem? w.registry.objects r) c))
  ]
  step-Fits (chats text) c w h v = unfold send_chat in ground arith
  step-Fits (encrypts j) c w h v = omega (arith, finish_encoding-quiet j c)

  abbrev pub Silent : List (Action N) → Type 0
  Silent [] = Unit {0}
  Silent (a ∷ rest) = (is_opens a ≡ false) × Silent rest

  run-Fits :
      (actions : List (Action N)) (b : ℕ) (c : Connection N) (w : World N)
      → Silent actions
      → budget c ≤ b
      → IsBounded c
      → SessionFits b (run actions (c, w))
  unfolding run
  run-Fits [] b c w h le v = (le, v)
  run-Fits (a ∷ rest) b c w h le v = elim (Option-cases (step a (c, w))) [
    | inl reloaded ↦ rw (reloaded, run) tt
    | inr ((c', w'), went) ↦
        let kept : SessionFits (budget c) (some (c', w')) = rw went at (step-Fits a c w h.0 v) in
        rw (went, run) (run-Fits rest b c' w' h.1 (omega arith) kept.1)
  ]

  -- However sockets close, messages come, timers run and frames are drawn, as long as no socket
  -- opens the client makes at most one socket for each pending reconnection and each attempt left,
  -- and never counts more than three attempts.
  pub run-sockets-le :
      (actions : List (Action N)) (c c' : Connection N) (w w' : World N)
      → Silent actions
      → c.connect_attempts ≤ 3
      → run actions (c, w) ≡ some (c', w')
      → (length c'.sockets ≤ length c.sockets + reconnects c.timers + (3 - c.connect_attempts))
        × (c'.connect_attempts ≤ 3)
  run-sockets-le actions c c' w w' h v e =
      let kept : SessionFits (budget c) (some (c', w')) =
        rw e at (run-Fits actions (budget c) c w h (omega arith) v) in
      omega arith
