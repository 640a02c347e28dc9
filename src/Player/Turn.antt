-- ===== src/Player/Turn.antt =====
-- The two loops of `update` in client_src/player.js that bring a remote player's angle near the one
-- that the server told, against what a `while` does.
use snow_brawl_game.Base.{
  refl, ℕ, zero, suc, ◌≤◌, ◌<◌, ◌≡◌, inl, inr, Bool, true, false, arith, Bool-cases,
}
use snow_brawl_game.Engine.{Engine}
use snow_brawl_game.Player.Motion.{full_turn, turn_up, turn_down, turn}

module _ {A : Type 0} where
  -- A step that is taken so many times.
  abbrev pub taken : ℕ → (A → A) → A → A
  taken zero step a = a
  taken (suc n) step a = taken n step (step a)

  -- A `while` goes from one value to the other: the body ran so many rounds, the test held before each
  -- of them, and if the test still holds at the end then it is the fuel that ended the loop.
  pub record While (test : A → Bool) (step : A → A) (fuel : ℕ) (from to : A) : Type 0 where
    pub rounds : ℕ
    pub within : rounds ≤ fuel
    pub reached : to ≡ taken rounds step from
    pub went_on : (j : ℕ) → j < rounds → test (taken j step from) ≡ true
    pub ended : test to ≡ true → rounds ≡ fuel

  While-cut : (test : A → Bool) (step : A → A) (a : A) → While test step 0 a a
  While-cut test step a = record {
    rounds = 0;
    within = omega arith;
    reached = refl;
    went_on = λ j h. absurd (omega arith);
    ended = λ on. refl;
  }

  While-stop :
      (test : A → Bool) (step : A → A) (fuel : ℕ) (a : A)
      → test a ≡ false
      → While test step fuel a a
  While-stop test step fuel a off = record {
    rounds = 0;
    within = omega arith;
    reached = refl;
    went_on = λ j h. absurd (omega arith);
    ended = λ on. cc;
  }

  While-round :
      (test : A → Bool) (step : A → A) (fuel : ℕ) (a b : A)
      → test a ≡ true
      → While test step fuel (step a) b
      → While test step (suc fuel) a b
  While-round test step fuel a b on rest = record {
    rounds = suc rest.rounds;
    within = omega (arith, rest.within);
    reached = rest.reached;
    went_on = before;
    ended = λ still. omega (arith, rest.ended still);
  }
    where
      before : (j : ℕ) → j < suc rest.rounds → test (taken j step a) ≡ true
      before zero h = on
      before (suc j) h = rest.went_on j (omega arith)

module _ {N : Type 0} ⦃e : Engine N⦄ where
  open e use {add, sub, neg, lt, pi}

  turn_up-While :
      (fuel : ℕ) (target current : N)
      → While
          (λ a. lt pi (sub target a))
          (λ a. add a full_turn)
          fuel
          current
          (turn_up fuel target current)
  unfolding turn_up
  turn_up-While zero target current = While-cut _ _ current
  turn_up-While (suc fuel) target current = elim (Bool-cases (lt pi (sub target current))) [
    | inl on ↦
        rw on
          (While-round _ _ fuel current _ on (turn_up-While fuel target (add current full_turn)))
    | inr off ↦ rw off (While-stop _ _ (suc fuel) current off)
  ]

  turn_down-While :
      (fuel : ℕ) (target current : N)
      → While
          (λ a. lt (sub target a) (neg pi))
          (λ a. sub a full_turn)
          fuel
          current
          (turn_down fuel target current)
  unfolding turn_down
  turn_down-While zero target current = While-cut _ _ current
  turn_down-While (suc fuel) target current = elim (Bool-cases (lt (sub target current) (neg pi))) [
    | inl on ↦
        rw on
          (While-round _ _ fuel current _ on (turn_down-While fuel target (sub current full_turn)))
    | inr off ↦ rw off (While-stop _ _ (suc fuel) current off)
  ]

  -- For every target, angle and fuel: the angle goes through two loops, one after the other. The first
  -- adds whole turns, the second takes them away; each goes on exactly as long as its test holds (more
  -- than half a turn short of the target, or beyond it), and stops with the test still true only when
  -- it has used up the fuel.
  pub turn-While :
      (fuel : ℕ) (target current : N)
      → (between : N) × While
          (λ a. lt pi (sub target a))
          (λ a. add a full_turn)
          fuel
          current
          between
        × While
            (λ a. lt (sub target a) (neg pi))
            (λ a. sub a full_turn)
            fuel
            between
            (turn fuel target current)
  unfolding turn
  turn-While fuel target current = (
    turn_up fuel target current,
    turn_up-While fuel target current,
    turn_down-While fuel target (turn_up fuel target current),
  )
