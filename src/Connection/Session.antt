-- ===== src/Connection/Session.antt =====
-- The connection among what the browser does to it, in any order: sockets open and close, messages
-- come, timers run, frames are drawn, the player chats.
use snow_brawl_game.Base.{remove_at, ℕ, List, [], ◌∷◌, Option, none, some, get_elem?, modify}
use snow_brawl_game.Base.Text.{Text, utf16}
use snow_brawl_game.Engine.{Engine}
use snow_brawl_game.World.{World}
use snow_brawl_game.Network.Events.{or_text}
use snow_brawl_game.Connection.{
  Connection, Clock, Ready, Task, open_now, closed, ping_tick, reconnect, reload, connect,
  finish_encoding, on_open, on_close, tick, send_chat, maybe_send_local_state,
}
use snow_brawl_game.Connection.Receive.{Message, on_message}

pub data Action (N : Type 0) : Type 0 where
  -- A socket opens or closes, and its handler runs; the text is the name it was made with.
  opens : Clock → ℕ → Text → Action N
  closes : ℕ → Action N
  receives : Clock → Message N → Action N
  -- The pending timer at a place of the list runs.
  fires : Clock → ℕ → Action N
  draws : Clock → Action N
  chats : Text → Action N
  -- The encryption of the pending message at a place is finished.
  encrypts : ℕ → Action N

abbrev pub Session : Type 0 → Type 0
Session N = Connection N × World N

module _ {N : Type 0} where
  abbrev pub set_ready : ℕ → Ready → Connection N → Connection N
  set_ready i s c = record c { sockets = modify c.sockets i (λ _. s) }

  -- `none` when the page is loaded anew.
  unfoldable pub run_task : Clock → Task → Connection N → Option (Connection N)
  unfolding tick connect or_text
  run_task now ping_tick c = some (tick now c)
  run_task now reconnect c = some (connect (or_text c.player_name (utf16 "Player")) c)
  run_task now reload c = none

  unfoldable pub fire : Clock → ℕ → Connection N → Option (Connection N)
  unfolding run_task remove_at
  fire now i c = elim (get_elem? c.timers i) [
    | none ↦ some c
    | some (t, task) ↦ run_task now task (record c { timers = remove_at i c.timers })
  ]

module _ {N : Type 0} ⦃e : Engine N⦄ where
  abbrev pub with_world : World N → Option (Connection N) → Option (Session N)
  with_world w none = none
  with_world w (some c) = some (c, w)

  unfoldable pub step : Action N → Session N → Option (Session N)
  unfolding fire on_open on_close on_message send_chat maybe_send_local_state finish_encoding
  step (opens now i name) (c, w) = some (on_open now i name (set_ready i open_now c), w)
  step (closes i) (c, w) = some (on_close (set_ready i closed c), w)
  step (receives now m) (c, w) = some (on_message now m (c, w))
  step (fires now i) (c, w) = with_world w (fire now i c)
  step (draws now) (c, w) = elim w.registry.local_player [
    | none ↦ some (maybe_send_local_state now none c, w)
    | some r ↦ some (maybe_send_local_state now (get_elem? w.registry.objects r) c, w)
  ]
  step (chats text) (c, w) = some (send_chat text c, w)
  step (encrypts j) (c, w) = some (finish_encoding j c, w)

  unfoldable pub run : List (Action N) → Session N → Option (Session N)
  unfolding step
  run [] s = some s
  run (a ∷ rest) s = elim (step a s) [ none ↦ none | some s' ↦ run rest s' ]
