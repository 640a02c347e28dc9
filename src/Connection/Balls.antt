-- ===== src/Connection/Balls.antt =====
-- The snowballs in flight through a session of client_src/network.js.
use snow_brawl_game.Base.{
  inl, inr, [], Option, none, some, Bool-cases, Option-cases, or_else, Holds,
}
use snow_brawl_game.Engine.{Engine}
use snow_brawl_game.World.{World}
use snow_brawl_game.Network.Balls.{
  IsSound, apply_snapshot-balls, apply_states-balls, apply_event-IsSound,
}
use snow_brawl_game.Network.Events.{no_local_id}
use snow_brawl_game.Connection.{Clock, Connection}
use snow_brawl_game.Connection.Receive.{
  Message, error, welcome, snapshot, states, event, pong, other, on_message, greet,
}
use snow_brawl_game.Connection.Session.{
  Action, opens, closes, receives, fires, draws, chats, encrypts, Session, with_world, fire, step,
}

module _ {N : Type 0} ⦃e : Engine N⦄ where
  on_message-IsSound :
      (now : Clock) (m : Message N) (c : Connection N) (w : World N)
      → IsSound w.balls
      → IsSound (on_message now m (c, w)).1.balls
  unfolding on_message
  on_message-IsSound now (error text) c w v = v
  on_message-IsSound now (welcome id seed) c w v = elim (Option-cases c.pending_snapshot) [
    | inl no_list ↦ rw (no_list, on_message) (unfold greet in v)
    | inr (list, waiting) ↦
        rw (waiting, on_message, apply_snapshot-balls list (greet id seed w)) (unfold greet in v)
  ]
  on_message-IsSound now (snapshot list) c w v =
      elim (Bool-cases (no_local_id w.registry.local_player_id)) [
        | inl early ↦ rw (early, on_message) v
        | inr late ↦ rw (late, on_message, apply_snapshot-balls (or_else list []) w) v
      ]
  on_message-IsSound now (states list) c w v = rw (apply_states-balls (or_else list []) w) v
  on_message-IsSound now (event none) c w v = v
  on_message-IsSound now (event (some ev)) c w v = apply_event-IsSound now.date ev w v
  on_message-IsSound now pong c w v = v
  on_message-IsSound now other c w v = v

  abbrev pub SessionIsSound : Session N → Type 0
  SessionIsSound s = IsSound s.1.balls

  with_world-IsSound :
      (w : World N) (o : Option (Connection N))
      → IsSound w.balls
      → Holds SessionIsSound (with_world w o)
  with_world-IsSound w none v = tt
  with_world-IsSound w (some c) v = v

  pub step-IsSound :
      (a : Action N) (c : Connection N) (w : World N)
      → IsSound w.balls
      → Holds SessionIsSound (step a (c, w))
  unfolding step
  step-IsSound (opens now i name) c w v = v
  step-IsSound (closes i) c w v = v
  step-IsSound (receives now m) c w v = on_message-IsSound now m c w v
  step-IsSound (fires now i) c w v = with_world-IsSound w (fire now i c) v
  step-IsSound (draws now) c w v = elim (Option-cases w.registry.local_player) [
    | inl nobody ↦ rw (nobody, step) v
    | inr (r, known) ↦ rw (known, step) v
  ]
  step-IsSound (chats text) c w v = v
  step-IsSound (encrypts j) c w v = v
