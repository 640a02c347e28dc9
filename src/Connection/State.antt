-- ===== src/Connection/State.antt =====
-- The state of `NetworkManager` in client_src/network.js. The browser's part is explicit: the ready
-- state of every socket that was made, the pending timers with their handles, and the messages whose
-- encryption is not finished.
use snow_brawl_game.Base.{ℕ, suc, Bool, false, List, [], ◌∷◌, ◌++◌, Option, none}
use snow_brawl_game.Base.Text.{Text, utf16}
use snow_brawl_game.Engine.{Vec3}
use snow_brawl_game.World.{Snapshot}

-- `readyState`.
pub data Ready : Type 0 where
  connecting open_now closed : Ready

-- What a timer of the connection will run.
pub data Task : Type 0 where
  ping_tick reconnect reload : Task

-- What the client sends.
pub data Outgoing (N : Type 0) : Type 0 where
  hello : Text → Outgoing N
  ping : ℕ → Outgoing N
  say : Text → Outgoing N
  throw : Text → Vec3 N → ℕ → Outgoing N
  report : Vec3 N → N → Vec3 N → Bool → Option ℕ → Outgoing N

-- A message behind `wsEncode`. It goes to the socket named, or else to `this.ws` at that time.
pub record Job (N : Type 0) : Type 0 where
  pub socket : Option ℕ
  pub message : Outgoing N

pub record Status : Type 0 where
  pub text : Text
  pub color : Text

-- `performance.now()` in microseconds and `Date.now()` in milliseconds.
pub record Clock : Type 0 where
  pub perf : ℕ
  pub date : ℕ

pub record Connection (N : Type 0) : Type 0 where
  pub ws : Option ℕ
  pub connected : Bool
  pub last_state_send : ℕ
  pub pending_snapshot : Option (List (Snapshot N))
  pub last_ping_ms : Option ℕ
  pub last_ping_sent_at : ℕ
  pub ping_timer_id : Option ℕ
  pub player_name : Option Text
  pub connect_attempts : ℕ
  pub status : Status
  pub alerts : List Text
  pub sockets : List Ready
  pub timers : List (ℕ × Task)
  pub next_timer : ℕ
  pub encoding : List (Job N)
  -- What went out, with its socket.
  pub sent : List (ℕ × Outgoing N)

abbrev pub max_connect_attempts : ℕ
max_connect_attempts = 3

abbrev pub green : Text
green = utf16 "#55FF55"

abbrev pub yellow : Text
yellow = utf16 "#FFFF55"

abbrev pub red : Text
red = utf16 "#FF5555"

module _ {N : Type 0} where
  -- `new NetworkManager()`; before the first status the overlay shows what the page says.
  unfoldable pub new_manager : Status → Connection N
  new_manager shown = record {
    ws = none;
    connected = false;
    last_state_send = 0;
    pending_snapshot = none;
    last_ping_ms = none;
    last_ping_sent_at = 0;
    ping_timer_id = none;
    player_name = none;
    connect_attempts = 0;
    status = shown;
    alerts = [];
    sockets = [];
    timers = [];
    next_timer = 1;
    encoding = [];
    sent = [];
  }

  abbrev pub say_status : Text → Text → Connection N → Connection N
  say_status text color c = record c { status = record { text = text; color = color } }

  -- `setTimeout`; the new handle is the old `next_timer`.
  abbrev pub set_timer : Task → Connection N → Connection N
  set_timer task c = record c {
    timers = c.timers ++ (c.next_timer, task) ∷ [];
    next_timer = suc c.next_timer;
  }

  abbrev pub encode : Option ℕ → Outgoing N → Connection N → Connection N
  encode socket message c = record c {
    encoding = c.encoding ++ record { socket = socket; message = message } ∷ [];
  }
