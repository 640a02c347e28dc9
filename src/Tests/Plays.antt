-- ===== src/Tests/Plays.antt =====
-- Whole plays of client_src/init.js at concrete inputs.
use snow_brawl_game.Base.{
  get_elem?, ℕ, ◌≡◌, refl, ◌+◌, ◌*◌, ◌≤◌, [], ◌∷◌, List, some, none, true, false, arith, Holds,
}
use snow_brawl_game.Base.Int.{ℤ, pos}
use snow_brawl_game.Base.Text.{utf16}
use snow_brawl_game.Base.Dict
use snow_brawl_game.Snowball.{Snowball, is_active}
use snow_brawl_game.Network.Balls.{IsSound}
use snow_brawl_game.Utils.Config.{send_interval}
use snow_brawl_game.Connection.{Clock, new_manager, connect}
use snow_brawl_game.Connection.Session.{opens, receives}
use snow_brawl_game.Connection.Receive.{welcome, snapshot}
use snow_brawl_game.Connection.Reports.{reports}
use snow_brawl_game.Game.{Controls, Game}
use snow_brawl_game.Game.Play.{Act, connection, clicks, key_goes_down, ball_expires, frame, play}
use snow_brawl_game.Game.Input.{key_w}
use snow_brawl_game.Game.Rate.{play-rate}
use snow_brawl_game.Game.Balls.{GameIsSound, FreshShots, play-IsSound}
use snow_brawl_game.Game.Consistent.{GameIsConsistent, FreshWelcomes, play-IsConsistent}
use snow_brawl_game.Tests.Toy.{toy, entry, me, you, at, quiet, registry_runs}
use snow_brawl_game.Tests.Registry.{both, both-IsConsistent}

abbrev pointer_locked : Controls ℤ
pointer_locked = record {
  camera_pitch = pos 0;
  third_person = true;
  ui_hidden = false;
  is_pointer_locked = true;
  lock_asked = none;
  login_shown = false;
  chat_focused = false;
  chat_value = [];
  name_display = [];
  saved_name = none;
  camera_position = at 0;
  camera_target = at 0;
  gain = pos 0;
  snow = none;
}

abbrev in_play : Game ℤ
in_play = record {
  net = connect me (new_manager (record { text = []; color = [] }));
  world = both;
  controls = pointer_locked;
}

abbrev at_second : ℕ → Clock
at_second n = record { perf = n * 1000000; date = n * 1000 }

-- The socket opens, the server welcomes the player and tells who is there, the player walks and
-- throws, two frames are drawn, and the ball expires.
abbrev some_acts : List (Act ℤ)
some_acts =
    connection (opens (at_second 1) 0 me)
    ∷ connection (receives (at_second 1) (welcome (utf16 "me2") (some 7)))
    ∷ connection (
        receives (at_second 1)
          (snapshot (some (entry (utf16 "me2") (pos 100) 6 ∷ entry you (pos 80) 6 ∷ []))))
    ∷ key_goes_down key_w
    ∷ clicks (at_second 2) (utf16 "shot") 0
    ∷ frame 3 (at_second 2) (pos 16) []
    ∷ frame 3 (at_second 3) (pos 16) []
    ∷ ball_expires 0
    ∷ []

after_acts : (g : Game ℤ) × (play some_acts in_play ≡ some g)
unfolding play registry_runs connect new_manager
after_acts = (_, refl)

play-rate_example :
    reports after_acts.0.net * send_interval + 0
    ≤ reports in_play.net * send_interval + after_acts.0.net.last_state_send
unfolding connect new_manager
play-rate_example = play-rate some_acts in_play after_acts.0 after_acts.1

fresh_welcomes : FreshWelcomes some_acts in_play
unfolding play registry_runs connect new_manager
fresh_welcomes = (tt, (refl, (tt, (tt, (tt, (tt, (tt, (tt, tt))))))))

play-IsConsistent_example : Holds GameIsConsistent (play some_acts in_play)
play-IsConsistent_example = play-IsConsistent some_acts in_play fresh_welcomes both-IsConsistent

fresh_shots : FreshShots some_acts in_play
unfolding play registry_runs connect new_manager
fresh_shots = (tt, (tt, (tt, (tt, (refl, (tt, (tt, (tt, tt))))))))

nothing_at : (r : ℕ) (b : Snowball ℤ) → get_elem? [] r ≡ some b → ⊥
nothing_at r b h = ground arith

no_balls-IsSound : IsSound quiet.balls
unfolding Dict.get is_active
no_balls-IsSound = (
  record {
    distinct = tt;
    found = λ k r h. cc;
    listed = λ r b h on. absurd (nothing_at r b h);
    drawn = λ r b h. absurd (nothing_at r b h);
  },
  record { rising = omega arith; complete = λ r h. ground arith },
)

play-IsSound_example : Holds GameIsSound (play some_acts in_play)
unfolding registry_runs
play-IsSound_example = play-IsSound some_acts in_play fresh_shots no_balls-IsSound
