-- ===== src/Connection/Reconnects.antt =====
-- The pending reconnections among the timers of `NetworkManager`.
use snow_brawl_game.Base.{
  remove_at, ℕ, zero, suc, ◌+◌, ◌≤◌, ◌≡◌, List, [], ◌∷◌, ◌++◌, some, arith, get_elem?,
}
use snow_brawl_game.Connection.{Task, ping_tick, reconnect, reload, clear_timer}

-- How many pending timers will reconnect.
unfoldable pub reconnects : List (ℕ × Task) → ℕ
reconnects [] = 0
reconnects ((t, ping_tick) ∷ ts) = reconnects ts
reconnects ((t, reconnect) ∷ ts) = suc (reconnects ts)
reconnects ((t, reload) ∷ ts) = reconnects ts

pub reconnects-append :
    (ts us : List (ℕ × Task)) → reconnects (ts ++ us) ≡ reconnects ts + reconnects us
unfolding reconnects
reconnects-append [] us = omega arith
reconnects-append ((t, ping_tick) ∷ ts) us = reconnects-append ts us
reconnects-append ((t, reconnect) ∷ ts) us = omega (arith, reconnects-append ts us)
reconnects-append ((t, reload) ∷ ts) us = reconnects-append ts us

pub reconnects-clear :
    (t : ℕ) (ts : List (ℕ × Task)) → reconnects (clear_timer t ts) ≤ reconnects ts
unfolding reconnects clear_timer
reconnects-clear t [] = omega arith
reconnects-clear t ((u, ping_tick) ∷ ts) = ground (arith, reconnects-clear t ts)
reconnects-clear t ((u, reconnect) ∷ ts) = ground (arith, reconnects-clear t ts)
reconnects-clear t ((u, reload) ∷ ts) = ground (arith, reconnects-clear t ts)

abbrev pub weight : Task → ℕ
weight ping_tick = 0
weight reconnect = 1
weight reload = 0

pub reconnects-remove_at :
    (ts : List (ℕ × Task)) (i u : ℕ) (task : Task)
    → get_elem? ts i ≡ some (u, task)
    → reconnects (remove_at i ts) + weight task ≡ reconnects ts
unfolding reconnects remove_at
reconnects-remove_at [] i u task h = cc
reconnects-remove_at ((t, ping_tick) ∷ ts) zero u task h = ground arith
reconnects-remove_at ((t, reconnect) ∷ ts) zero u task h = ground arith
reconnects-remove_at ((t, reload) ∷ ts) zero u task h = ground arith
reconnects-remove_at ((t, ping_tick) ∷ ts) (suc i) u task h = reconnects-remove_at ts i u task h
reconnects-remove_at ((t, reconnect) ∷ ts) (suc i) u task h =
    omega (arith, reconnects-remove_at ts i u task h)
reconnects-remove_at ((t, reload) ∷ ts) (suc i) u task h = reconnects-remove_at ts i u task h
