-- ===== src/Connection/Ticks.antt =====
-- The ping loop through every step of a session.
use snow_brawl_game.Base.{
  inl, inr, List, [], ◌∷◌, Option, none, some, arith, Bool-cases, Option-cases, get_elem?,
}
use snow_brawl_game.Engine.{Engine}
use snow_brawl_game.World.{World}
use snow_brawl_game.Network.Events.{no_local_id}
use snow_brawl_game.Connection.{Connection, Clock, closed, open_now, announce, on_open}
use snow_brawl_game.Connection.Receive.{
  Message, error, welcome, snapshot, states, event, pong, other, on_pong, on_message,
}
use snow_brawl_game.Connection.Session.{
  Action, opens, closes, receives, fires, draws, chats, encrypts, Session, set_ready, with_world,
  step, run,
}
use snow_brawl_game.Connection.Timers.{
  OneTick, OneTickIn, start_ping_loop-OneTick, on_close-OneTick, fire-OneTick, send-OneTick,
  send_chat-OneTick, finish_encoding-OneTick,
}

module _ {N : Type 0} ⦃e : Engine N⦄ where
  on_message-OneTick :
      (now : Clock) (m : Message N) (c : Connection N) (w : World N)
      → OneTick c
      → OneTick (on_message now m (c, w)).0
  unfolding on_message on_pong
  on_message-OneTick now (error text) c w v = v
  on_message-OneTick now (welcome id seed) c w v = elim (Option-cases c.pending_snapshot) [
    | inl no_list ↦ rw (no_list, on_message) v
    | inr (list, waiting) ↦ rw (waiting, on_message) v
  ]
  on_message-OneTick now (snapshot list) c w v =
      elim (Bool-cases (no_local_id w.registry.local_player_id)) [
        | inl early ↦ rw (early, on_message) v
        | inr late ↦ rw (late, on_message) v
      ]
  on_message-OneTick now (states list) c w v = v
  on_message-OneTick now (event none) c w v = v
  on_message-OneTick now (event (some ev)) c w v = v
  on_message-OneTick now pong c w v = ground arith
  on_message-OneTick now other c w v = v

  abbrev pub SessionOneTick : Option (Session N) → Type 0
  SessionOneTick none = Unit {0}
  SessionOneTick (some (c, w)) = OneTick c

  with_world-OneTick :
      (w : World N) (o : Option (Connection N)) → OneTickIn o → SessionOneTick (with_world w o)
  with_world-OneTick w none h = tt
  with_world-OneTick w (some c) h = h

  -- Whatever happens, afterwards the ticks that are pending are none if `pingTimerId` is null, and
  -- otherwise exactly the one whose handle it holds.
  pub step-OneTick :
      (a : Action N) (c : Connection N) (w : World N) → OneTick c → SessionOneTick (step a (c, w))
  unfolding step
  step-OneTick (opens now i name) c w v =
      unfold on_open announce in
      start_ping_loop-OneTick now (announce i name (set_ready i open_now c)) v
  step-OneTick (closes i) c w v = on_close-OneTick (set_ready i closed c) v
  step-OneTick (receives now m) c w v = on_message-OneTick now m c w v
  step-OneTick (fires now i) c w v = with_world-OneTick w _ (fire-OneTick now i c v)
  step-OneTick (draws now) c w v = elim (Option-cases w.registry.local_player) [
    | inl nobody ↦ rw (nobody, step) (send-OneTick now none c v)
    | inr (r, known) ↦ rw (known, step) (send-OneTick now (get_elem? w.registry.objects r) c v)
  ]
  step-OneTick (chats text) c w v = send_chat-OneTick text c v
  step-OneTick (encrypts j) c w v = finish_encoding-OneTick j c v

  -- After every history of a connection whose pending ticks are those that pingTimerId names, the
  -- pending ticks are none if pingTimerId is null and otherwise exactly the one whose handle it
  -- holds, unless the page was loaded anew.
  pub run-OneTick :
      (actions : List (Action N)) (c : Connection N) (w : World N)
      → OneTick c
      → SessionOneTick (run actions (c, w))
  unfolding run
  run-OneTick [] c w v = v
  run-OneTick (a ∷ rest) c w v = elim (Option-cases (step a (c, w))) [
    | inl reloaded ↦ rw (reloaded, run) tt
    | inr ((c', w'), went) ↦
        let kept : SessionOneTick (some (c', w')) = rw went at (step-OneTick a c w v) in
        rw (went, run) (run-OneTick rest c' w' kept)
  ]
