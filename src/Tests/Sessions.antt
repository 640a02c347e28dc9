-- ===== src/Tests/Sessions.antt =====
-- The connection of client_src/network.js at concrete inputs.
use snow_brawl_game.Base.{◌≡◌, refl, ◌+◌, ◌≤◌, List, [], ◌∷◌, some, none, length, arith}
use snow_brawl_game.Base.Int.{ℤ, pos}
use snow_brawl_game.Base.Text.{utf16}
use snow_brawl_game.World.{World}
use snow_brawl_game.World.Consistent.{IsConsistent}
use snow_brawl_game.Network.{apply_entry}
use snow_brawl_game.Network.Events.{on_join}
use snow_brawl_game.Connection.{Connection, Clock, new_manager, connect, on_close}
use snow_brawl_game.Connection.Receive.{welcome, on_message, greet}
use snow_brawl_game.Connection.Session.{Action, opens, closes, fires, run}
use snow_brawl_game.Connection.Reconnects.{reconnects}
use snow_brawl_game.Connection.Attempts.{run-sockets-le}
use snow_brawl_game.Connection.Timers.{pings}
use snow_brawl_game.Connection.Ticks.{SessionOneTick, run-OneTick}
use snow_brawl_game.Connection.Welcome.{on_message-IsConsistent}
use snow_brawl_game.Connection.Ghost.{reconnect-doubles}
use snow_brawl_game.Tests.Toy.{toy, entry, me, quiet, registry_runs}
use snow_brawl_game.Tests.Registry.{both, both-IsConsistent}

abbrev fresh : Connection ℤ
fresh = connect me (new_manager (record { text = []; color = [] }))

abbrev time : Clock
time = record { perf = 1000000; date = 1000 }

-- The first socket never opens, nor does any later one.
abbrev failures : List (Action ℤ)
failures =
    closes 0 ∷ fires time 0 ∷ closes 1 ∷ fires time 0 ∷ closes 2 ∷ fires time 0 ∷ closes 3 ∷ []

after_failures : (s : Connection ℤ × World ℤ) × (run failures (fresh, quiet) ≡ some s)
unfolding run connect new_manager on_close
after_failures = (_, refl)

run-sockets-le_example : length after_failures.0.0.sockets ≤ 4
unfolding connect new_manager reconnects
run-sockets-le_example =
    (run-sockets-le failures fresh after_failures.0.0 quiet after_failures.0.1 (ground arith)
      (omega arith) after_failures.1).0

run-OneTick_example :
    SessionOneTick (run (opens time 0 me ∷ fires time 0 ∷ closes 0 ∷ []) (fresh, quiet))
unfolding pings connect new_manager
run-OneTick_example = run-OneTick (opens time 0 me ∷ fires time 0 ∷ closes 0 ∷ []) fresh quiet refl

on_message-IsConsistent_example :
    IsConsistent (on_message time (welcome (utf16 "new") (some 3)) (fresh, both)).1.registry
unfolding registry_runs
on_message-IsConsistent_example =
    on_message-IsConsistent time (welcome (utf16 "new") (some 3)) fresh both refl both-IsConsistent

-- The player "me" comes back as "me2".
reconnect-doubles_example :
    let snap = entry (utf16 "me2") (pos 100) 9 in
    let after = (apply_entry snap (greet (utf16 "me2") none (on_join snap both))).registry in
    length after.players ≡ length after.players_by_id + 1
unfolding registry_runs
reconnect-doubles_example =
    reconnect-doubles (entry (utf16 "me2") (pos 100) 9) none both 0 _ both-IsConsistent refl refl
      refl refl refl (λ e. cc) refl
