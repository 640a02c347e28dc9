-- ===== src/Connection/Consistent.antt =====
-- The registry through a session of client_src/network.js.
use snow_brawl_game.Base.{inl, inr, Option, none, some, Option-cases, Holds}
use snow_brawl_game.Engine.{Engine}
use snow_brawl_game.World.{World}
use snow_brawl_game.World.Consistent.{IsConsistent}
use snow_brawl_game.Connection.{Connection}
use snow_brawl_game.Connection.Welcome.{Fresh, on_message-IsConsistent}
use snow_brawl_game.Connection.Session.{
  Action, opens, closes, receives, fires, draws, chats, encrypts, Session, with_world, fire, step,
}

module _ {N : Type 0} ⦃e : Engine N⦄ where
  abbrev pub SessionIsConsistent : Session N → Type 0
  SessionIsConsistent s = IsConsistent s.1.registry

  -- A `welcome` that comes names an id which no player of the map has.
  abbrev pub FreshWelcome : Action N → World N → Type 0
  FreshWelcome (receives now m) w = Fresh m w
  FreshWelcome _ w = Unit {0}

  with_world-IsConsistent :
      (w : World N) (o : Option (Connection N))
      → IsConsistent w.registry
      → Holds SessionIsConsistent (with_world w o)
  with_world-IsConsistent w none v = tt
  with_world-IsConsistent w (some c) v = v

  pub step-IsConsistent :
      (a : Action N) (c : Connection N) (w : World N)
      → FreshWelcome a w
      → IsConsistent w.registry
      → Holds SessionIsConsistent (step a (c, w))
  unfolding step
  step-IsConsistent (opens now i name) c w f v = v
  step-IsConsistent (closes i) c w f v = v
  step-IsConsistent (receives now m) c w f v = on_message-IsConsistent now m c w f v
  step-IsConsistent (fires now i) c w f v = with_world-IsConsistent w (fire now i c) v
  step-IsConsistent (draws now) c w f v = elim (Option-cases w.registry.local_player) [
    | inl nobody ↦ rw (nobody, step) v
    | inr (r, known) ↦ rw (known, step) v
  ]
  step-IsConsistent (chats text) c w f v = v
  step-IsConsistent (encrypts j) c w f v = v
