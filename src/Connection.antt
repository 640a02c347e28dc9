-- ===== src/Connection.antt =====
-- The connection of `NetworkManager` in client_src/network.js: sockets, reconnection, the ping loop,
-- sending, and `onmessage`. The browser's part is explicit: the ready state of every socket that was
-- made, the pending timers with their handles, and the messages whose encryption is not finished.
mod State
pub mod Receive
pub mod Session
pub mod Reconnects
pub mod Attempts
pub mod Timers
pub mod Ticks
pub mod Welcome
pub mod Ghost
pub mod Reports
pub mod Rate
pub mod Balls
pub mod Consistent
use snow_brawl_game.Base.{
  remove_at, ℕ, zero, suc, ◌+◌, ◌-◌, ◌*◌, ◌/◌, ◌≡◌, Bool, true, false, not, ◌&&◌, ◌||◌, List, [],
  ◌∷◌, ◌++◌, Option, none, some, ite, leb, ltb, ◌==◌, if◌then◌else◌, or_else, get_elem?, modify,
  length, ℕ_discrete,
}
use snow_brawl_game.Base.Int.{ℤ}
use snow_brawl_game.Base.Text.{Text, utf16, is_empty}
use snow_brawl_game.Engine.{Engine, Vec3}
use snow_brawl_game.Player.{Player}
use snow_brawl_game.Utils.Config.{send_interval}
use snow_brawl_game.Utils.Strings.{show_number}
use snow_brawl_game.World.{Snapshot, Registry, World, is_local, remove_player}
use snow_brawl_game.Network.{apply_snapshot, apply_states}
use snow_brawl_game.Network.Messages.{StateEntry, Event}
use snow_brawl_game.Network.Events.{apply_event, no_local_id, or_text}
unfoldable pub use State.*

-- `clearTimeout`.
unfoldable pub clear_timer : ℕ → List (ℕ × Task) → List (ℕ × Task)
clear_timer t [] = []
clear_timer t ((u, task) ∷ ts) =
    ite (ℕ_discrete u t) (clear_timer t ts) ((u, task) ∷ clear_timer t ts)

module _ {N : Type 0} where
  -- `this.ws?.readyState === 1`.
  unfoldable pub is_open : Connection N → Bool
  is_open c = elim c.ws [
    | none ↦ false
    | some i ↦ elim (get_elem? c.sockets i) [
      | none ↦ false
      | some s ↦ elim s [ open_now ↦ true | _ ↦ false ]
    ]
  ]

  unfoldable pub schedule_reconnect : Connection N → Connection N
  schedule_reconnect c =
      if leb max_connect_attempts c.connect_attempts
      then set_timer reload (say_status (utf16 "🔴 重连失败 3 次，1 秒后刷新页面...") red c)
      else (let n = c.connect_attempts + 1 in
          set_timer reconnect
            (record (say_status (utf16 "🟡 连接断开，第 " ++ show_number n ++ utf16 " 次重连（1 秒后重试）...")
              yellow c) { connect_attempts = n }))

  -- The `tick` of the ping loop.
  unfoldable pub tick : Clock → Connection N → Connection N
  unfolding is_open
  tick now c =
      if is_open c
      then (let asked = encode none (ping now.date) (record c { last_ping_sent_at = now.perf }) in
          record (set_timer ping_tick asked) { ping_timer_id = some c.next_timer })
      else record c { ping_timer_id = none }

  unfoldable pub start_ping_loop : Clock → Connection N → Connection N
  unfolding tick
  start_ping_loop now c = elim c.ping_timer_id [ some _ ↦ c | none ↦ tick now c ]

  unfoldable pub connect : Text → Connection N → Connection N
  connect name c =
      let named = if is_empty name then c else record c { player_name = some name } in
      record (say_status (utf16 "🟡 连接中...") yellow named) {
        ws = some (length c.sockets);
        sockets = c.sockets ++ connecting ∷ [];
      }

  -- What `onopen` of a socket does before it starts the ping loop; its name argument counts only if no
  -- name is known.
  unfoldable pub announce : ℕ → Text → Connection N → Connection N
  unfolding or_text
  announce i name c =
      encode (some i) (hello (or_text c.player_name name))
        (say_status (utf16 "🟢 已连接") green (record c { connected = true; connect_attempts = 0 }))

  unfoldable pub on_open : Clock → ℕ → Text → Connection N → Connection N
  unfolding announce start_ping_loop
  on_open now i name c = start_ping_loop now (announce i name c)

  unfoldable pub stop_ping : Connection N → Connection N
  unfolding clear_timer
  stop_ping c = elim c.ping_timer_id [
    | none ↦ c
    | some t ↦ record c { timers = clear_timer t c.timers; ping_timer_id = none }
  ]

  unfoldable pub on_close : Connection N → Connection N
  unfolding stop_ping schedule_reconnect
  on_close c = schedule_reconnect (stop_ping (record c { connected = false }))

  unfoldable pub send_chat : Text → Connection N → Connection N
  unfolding is_open
  send_chat text c = if is_open c then encode none (say text) c else c

  unfoldable pub send_snowball : Clock → Text → Vec3 N → Connection N → Connection N
  unfolding is_open
  send_snowball now id dir c = if is_open c then encode none (throw id dir now.date) c else c

  -- `send` on a socket; a socket that is not open sends nothing.
  unfoldable pub transmit : ℕ → Outgoing N → Connection N → Connection N
  transmit i message c = elim (get_elem? c.sockets i) [
    | none ↦ c
    | some s ↦ elim s [ open_now ↦ record c { sent = c.sent ++ (i, message) ∷ [] } | _ ↦ c ]
  ]

  -- What follows `wsEncode`: the message goes to the socket that it was made for, or else to the one
  -- that `this.ws` is by now.
  unfoldable pub deliver : Job N → Connection N → Connection N
  unfolding transmit
  deliver job c = elim job.socket [
    | some i ↦ transmit i job.message c
    | none ↦ elim c.ws [ none ↦ c | some i ↦ transmit i job.message c ]
  ]

  -- The encryption of the message at a place is finished.
  unfoldable pub finish_encoding : ℕ → Connection N → Connection N
  unfolding deliver remove_at
  finish_encoding j c = elim (get_elem? c.encoding j) [
    | none ↦ c
    | some job ↦ deliver job (record c { encoding = remove_at j c.encoding })
  ]

  -- `maybeSendLocalState`, with the object of the local player. The difference stops at zero, which is
  -- as much below the interval as a negative one.
  unfoldable pub maybe_send_local_state : Clock → Option (Player N) → Connection N → Connection N
  unfolding is_open
  maybe_send_local_state now none c = c
  maybe_send_local_state now (some p) c =
      if is_open c && not (ltb (now.perf - c.last_state_send) send_interval)
      then encode none (report p.position p.rotation_y p.velocity p.input.shift c.last_ping_ms)
          (record c { last_state_send = now.perf })
      else c
