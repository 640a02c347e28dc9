-- ===== src/Connection/Timers.antt =====
-- The ping loop of `NetworkManager`: `pingTimerId` is always the handle of the one pending tick.
use snow_brawl_game.Base.{
  remove_at, ℕ, zero, suc, ◌+◌, ◌≤◌, ◌≡◌, ◌≢◌, refl, sym, ap, ◌∙◌, inl, inr, false, List, [], ◌∷◌,
  ◌++◌, Option, none, some, arith, Option-cases, length, get_elem?, ite, ℕ_discrete,
}
use snow_brawl_game.Base.Text.{Text}
use snow_brawl_game.Player.{Player}
use snow_brawl_game.Connection.{
  Connection, Clock, Task, ping_tick, reconnect, reload, clear_timer, schedule_reconnect, tick,
  start_ping_loop, connect, finish_encoding, stop_ping, on_close, send_chat, maybe_send_local_state,
}
use snow_brawl_game.Connection.Session.{run_task, fire}

-- The handles of the pending ticks.
unfoldable pub pings : List (ℕ × Task) → List ℕ
pings [] = []
pings ((t, ping_tick) ∷ ts) = t ∷ pings ts
pings ((t, reconnect) ∷ ts) = pings ts
pings ((t, reload) ∷ ts) = pings ts

abbrev pub handles : Option ℕ → List ℕ
handles none = []
handles (some t) = t ∷ []

pings-append : (ts us : List (ℕ × Task)) → pings (ts ++ us) ≡ pings ts ++ pings us
unfolding pings
pings-append [] us = refl
pings-append ((t, ping_tick) ∷ ts) us = ap (◌∷◌ t) (pings-append ts us)
pings-append ((t, reconnect) ∷ ts) us = pings-append ts us
pings-append ((t, reload) ∷ ts) us = pings-append ts us

abbrev without : ℕ → List ℕ → List ℕ
without t [] = []
without t (u ∷ us) = ite (ℕ_discrete u t) (without t us) (u ∷ without t us)

pings-clear : (t : ℕ) (ts : List (ℕ × Task)) → pings (clear_timer t ts) ≡ without t (pings ts)
unfolding pings clear_timer
pings-clear t [] = refl
pings-clear t ((u, ping_tick) ∷ ts) = ground (arith, pings-clear t ts)
pings-clear t ((u, reconnect) ∷ ts) = ground (arith, pings-clear t ts)
pings-clear t ((u, reload) ∷ ts) = ground (arith, pings-clear t ts)

pings-remove_other :
    (ts : List (ℕ × Task)) (i u : ℕ) (task : Task)
    → get_elem? ts i ≡ some (u, task)
    → task ≢ ping_tick
    → pings (remove_at i ts) ≡ pings ts
unfolding pings remove_at
pings-remove_other [] i u task h ne = refl
pings-remove_other ((t, ping_tick) ∷ ts) zero u task h ne = ground arith
pings-remove_other ((t, reconnect) ∷ ts) zero u task h ne = refl
pings-remove_other ((t, reload) ∷ ts) zero u task h ne = refl
pings-remove_other ((t, ping_tick) ∷ ts) (suc i) u task h ne =
    ap (◌∷◌ t) (pings-remove_other ts i u task h ne)
pings-remove_other ((t, reconnect) ∷ ts) (suc i) u task h ne = pings-remove_other ts i u task h ne
pings-remove_other ((t, reload) ∷ ts) (suc i) u task h ne = pings-remove_other ts i u task h ne

pings-remove_ping :
    (ts : List (ℕ × Task)) (i u : ℕ)
    → get_elem? ts i ≡ some (u, ping_tick)
    → length (pings (remove_at i ts)) + 1 ≡ length (pings ts)
unfolding pings remove_at
pings-remove_ping [] i u h = cc
pings-remove_ping ((t, ping_tick) ∷ ts) zero u h = omega arith
pings-remove_ping ((t, reconnect) ∷ ts) zero u h = cc
pings-remove_ping ((t, reload) ∷ ts) zero u h = cc
pings-remove_ping ((t, ping_tick) ∷ ts) (suc i) u h = omega (arith, pings-remove_ping ts i u h)
pings-remove_ping ((t, reconnect) ∷ ts) (suc i) u h = pings-remove_ping ts i u h
pings-remove_ping ((t, reload) ∷ ts) (suc i) u h = pings-remove_ping ts i u h

length-zero : (xs : List ℕ) → length xs ≡ 0 → xs ≡ []
length-zero [] h = refl
length-zero (x ∷ xs) h = absurd (omega arith)

length-handles : (o : Option ℕ) → length (handles o) ≤ 1
length-handles none = omega arith
length-handles (some t) = omega arith

module _ {N : Type 0} where
  abbrev pub OneTick : Connection N → Type 0
  OneTick c = pings c.timers ≡ handles c.ping_timer_id

  tick-OneTick : (now : Clock) (c : Connection N) → pings c.timers ≡ [] → OneTick (tick now c)
  unfolding tick pings
  tick-OneTick now c h = ground (arith, pings-append c.timers ((c.next_timer, ping_tick) ∷ []))

  pub start_ping_loop-OneTick :
      (now : Clock) (c : Connection N) → OneTick c → OneTick (start_ping_loop now c)
  unfolding start_ping_loop
  start_ping_loop-OneTick now c v = elim (Option-cases c.ping_timer_id) [
    | inl idle ↦ rw (idle, start_ping_loop) (tick-OneTick now c (v ∙ ap handles idle))
    | inr (t, ticking) ↦ rw (ticking, start_ping_loop) v
  ]

  stop_ping-OneTick : (c : Connection N) → OneTick c → pings (stop_ping c).timers ≡ []
  unfolding stop_ping
  stop_ping-OneTick c v = elim (Option-cases c.ping_timer_id) [
    | inl idle ↦ rw (idle, stop_ping) (v ∙ ap handles idle)
    | inr (t, ticking) ↦
        rw (ticking, stop_ping)
          (pings-clear t c.timers ∙ ap (without t) (v ∙ ap handles ticking) ∙ ground arith)
  ]

  stop_ping-none : (c : Connection N) → (stop_ping c).ping_timer_id ≡ none
  unfolding stop_ping
  stop_ping-none c = elim (Option-cases c.ping_timer_id) [
    | inl idle ↦ rw (idle, stop_ping) idle
    | inr (t, ticking) ↦ rw (ticking, stop_ping) refl
  ]

  schedule_reconnect-pings :
      (c : Connection N)
      → (pings (schedule_reconnect c).timers ≡ pings c.timers ++ [])
        × ((schedule_reconnect c).ping_timer_id ≡ c.ping_timer_id)
  unfolding schedule_reconnect pings
  schedule_reconnect-pings c = ground (
    arith,
    pings-append c.timers ((c.next_timer, reconnect) ∷ []),
    pings-append c.timers ((c.next_timer, reload) ∷ []),
  )

  pub on_close-OneTick : (c : Connection N) → OneTick c → OneTick (on_close c)
  unfolding on_close
  on_close-OneTick c v =
      let stopped = stop_ping (record c { connected = false }) in
      let (same, kept) = schedule_reconnect-pings stopped in
      same
      ∙ ap (λ (t : List ℕ). t ++ []) (stop_ping-OneTick (record c { connected = false }) v)
      ∙ ap handles (sym (kept ∙ stop_ping-none (record c { connected = false })))

  -- One tick pending, or the page was loaded anew.
  abbrev pub OneTickIn : Option (Connection N) → Type 0
  OneTickIn none = Unit {0}
  OneTickIn (some c) = OneTick c

  run_task-OneTick :
      (now : Clock) (u : ℕ) (task : Task) (i : ℕ) (c : Connection N)
      → get_elem? c.timers i ≡ some (u, task)
      → OneTick c
      → OneTickIn (run_task now task (record c { timers = remove_at i c.timers }))
  unfolding run_task
  run_task-OneTick now u ping_tick i c h v =
      tick-OneTick now (record c { timers = remove_at i c.timers })
        (length-zero _ (
          omega
            (arith, pings-remove_ping c.timers i u h, ap length v, length-handles c.ping_timer_id)))
  run_task-OneTick now u reconnect i c h v =
      unfold connect in ground (arith, pings-remove_other c.timers i u reconnect h (λ e. cc))
  run_task-OneTick now u reload i c h v = tt

  pub fire-OneTick : (now : Clock) (i : ℕ) (c : Connection N) → OneTick c → OneTickIn (fire now i c)
  unfolding fire
  fire-OneTick now i c v = elim (Option-cases (get_elem? c.timers i)) [
    | inl nothing ↦ rw (nothing, fire) v
    | inr ((u, task), found) ↦ rw (found, fire) (run_task-OneTick now u task i c found v)
  ]

  pub send-OneTick :
      (now : Clock) (p : Option (Player N)) (c : Connection N)
      → OneTick c
      → OneTick (maybe_send_local_state now p c)
  unfolding maybe_send_local_state
  send-OneTick now none c v = v
  send-OneTick now (some p) c v = ground arith

  pub finish_encoding-OneTick :
      (j : ℕ) (c : Connection N) → OneTick c → OneTick (finish_encoding j c)
  unfolding finish_encoding
  finish_encoding-OneTick j c v = ground arith

  pub send_chat-OneTick : (text : Text) (c : Connection N) → OneTick c → OneTick (send_chat text c)
  unfolding send_chat
  send_chat-OneTick text c v = ground arith
