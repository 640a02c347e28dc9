-- ===== src/Tests/Motion.antt =====
-- The motion of players and snowballs, at concrete inputs.
use snow_brawl_game.Base.{◌↔◌, length, ℕ, ℕ_discrete, ◌≡◌, refl, true, false, [], arith}
use snow_brawl_game.Base.Int.{◌+ℤ◌, ◌*ℤ◌, ℤ, pos, negsuc, ◌-ℤ◌, ◌*ℤ◌, ◌+ℤ◌}
use snow_brawl_game.Base.Text.{utf16}
use snow_brawl_game.Engine.{IsNumber, Clamps, Total}
use snow_brawl_game.Player.{Player, new_player}
use snow_brawl_game.Player.Motion.{
  ground_below, full_turn, Frame, turn, turn_up, turn_down, update, full_turn,
}
use snow_brawl_game.Player.Turn.{While, turn-While}
use snow_brawl_game.Player.Bounds.{next_place, upright, cut_place, InBounds, update_bounds}
use snow_brawl_game.Utils.Config.{map_half}
use snow_brawl_game.Snowball.{
  Snowball, Balls, new_snowball, add_snowball, is_active, update_snowballs,
}
use snow_brawl_game.Snowball.Listed.{IsListed, Rising, Contains, add_snowball-IsListed}
use snow_brawl_game.Snowball.Sweep.{update_snowballs-Contains}
use snow_brawl_game.Tests.Toy.{toy, me, you, at, quiet}
open toy use {lt, le, sub, neg, pi}

toy-Total : Total le
toy-Total a b na nb h = ground arith

toy-IsNumber : (a : ℤ) → IsNumber le a
toy-IsNumber a = ground arith

toy-Clamps : Clamps toy
toy-Clamps = record {
  clamp_low = λ v lo hi n h. ground arith;
  clamp_high = λ v lo hi n h. ground arith;
}

abbrev walker : Player ℤ
walker = new_player 7 me (at 3) (utf16 "me") false

abbrev frame : Frame ℤ
frame = record { world_seed = 7; fuel = 3; now = 0; dt = pos 16 }

wide : le (toy.decimal (negsuc 189) 0) map_half ≡ true
unfolding ◌-ℤ◌
wide = refl

update_bounds_example : InBounds 7 (update frame walker).position
unfolding new_player ℕ_discrete
update_bounds_example =
    update_bounds frame walker toy-Clamps toy-Total refl refl refl wide
      (toy-IsNumber (next_place frame (upright walker)).x)
      (toy-IsNumber (next_place frame (upright walker)).y)
      (toy-IsNumber (next_place frame (upright walker)).z)
      (toy-IsNumber (ground_below 7 (cut_place frame (upright walker))))

turn-While_example :
    (between : ℤ) × While
      (λ a. lt pi (sub (pos 10000) a))
      (λ a. toy.add a full_turn)
      4
      (pos 0)
      between
    × While
        (λ a. lt (sub (pos 10000) a) (neg pi))
        (λ a. sub a full_turn)
        4
        between
        (turn 4 (pos 10000) (pos 0))
turn-While_example = turn-While 4 (pos 10000) (pos 0)

-- Two turns up.
turned : turn 4 (pos 10000) (pos 0) ≡ pos 12568
unfolding turn turn_up turn_down ◌*ℤ◌ ◌-ℤ◌ ◌+ℤ◌
turned = refl

abbrev shot : Snowball ℤ
shot = new_snowball (utf16 "shot") (at 5) (at 1) me

abbrev above : Snowball ℤ
above = new_snowball (utf16 "above") (at 5) (record { x = pos 0; y = pos 400; z = pos 0 }) you

abbrev empty : Balls ℤ
empty = quiet.balls

-- Two balls in flight.
abbrev flying : Balls ℤ
flying = add_snowball above (add_snowball shot empty)

flying-IsListed : IsListed flying
unfolding is_active
flying-IsListed = add_snowball-IsListed above _ (
    add_snowball-IsListed shot empty
      (record { rising = omega arith; complete = λ r h. ground arith }))

update_snowballs-Contains_example :
    let after = update_snowballs 7 [] (pos 16) flying in
    Rising 0 after.snowballs (length after.objects)
    × ((q : ℕ) → Contains q after.snowballs ↔ (is_active q after ≡ true))
update_snowballs-Contains_example = update_snowballs-Contains 7 [] (pos 16) flying flying-IsListed
