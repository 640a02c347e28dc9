-- ===== src/Connection/Reports.antt =====
-- The reports of the player's state among the messages of client_src/network.js, counted.
use snow_brawl_game.Base.{
  ℕ, zero, suc, ◌+◌, ◌≡◌, List, [], ◌∷◌, ◌++◌, some, arith, get_elem?, remove_at,
}
use snow_brawl_game.Connection.{Connection, Job, Outgoing, report}

module _ {N : Type 0} where
  abbrev pub one_if_report : Outgoing N → ℕ
  one_if_report (report p rot_y vel crouch ms) = 1
  one_if_report _ = 0

  unfoldable pub queued : List (Job N) → ℕ
  queued [] = 0
  queued (j ∷ js) = one_if_report j.message + queued js

  unfoldable pub gone_out : List (ℕ × Outgoing N) → ℕ
  gone_out [] = 0
  gone_out (m ∷ ms) = one_if_report m.1 + gone_out ms

  -- The reports that went out or wait for their encryption.
  abbrev pub reports : Connection N → ℕ
  reports c = queued c.encoding + gone_out c.sent

  pub queued-append :
      (js : List (Job N)) (j : Job N) → queued (js ++ j ∷ []) ≡ queued js + one_if_report j.message
  unfolding queued
  queued-append [] j = omega arith
  queued-append (k ∷ js) j = omega (arith, queued-append js j)

  pub gone_out-append :
      (ms : List (ℕ × Outgoing N)) (m : ℕ × Outgoing N)
      → gone_out (ms ++ m ∷ []) ≡ gone_out ms + one_if_report m.1
  unfolding gone_out
  gone_out-append [] m = omega arith
  gone_out-append (k ∷ ms) m = omega (arith, gone_out-append ms m)

  pub queued-remove_at :
      (js : List (Job N)) (i : ℕ) (j : Job N)
      → get_elem? js i ≡ some j
      → queued (remove_at i js) + one_if_report j.message ≡ queued js
  unfolding queued remove_at
  queued-remove_at [] i j h = cc
  queued-remove_at (k ∷ js) zero j h = ground arith
  queued-remove_at (k ∷ js) (suc i) j h = omega (arith, queued-remove_at js i j h)
