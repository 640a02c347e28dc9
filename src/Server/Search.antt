-- ===== src/Server/Search.antt =====
-- The steps of the search along a ball's path in game.ts.
use snow_brawl_game.Base.{
  ◌↔◌, ℕ, zero, suc, ◌+◌, ◌≤◌, ◌<◌, ◌≡◌, refl, sym, ap, ◌∙◌, ◌⊎◌, inl, inr, Bool, true, false, some,
  arith, Bool-cases,
}
use snow_brawl_game.Base.Int.{pos}
use snow_brawl_game.Engine.{Engine, Vec3}
use snow_brawl_game.Server.Utils.{snowball_pos_at, intersects_player_cylinder}
use snow_brawl_game.Server.Flight.{sim_steps, time_of, first_hit}

first_or_later : (low j : ℕ) → low ≤ j → (low ≡ j) ⊎ (suc low ≤ j)
first_or_later low j h = omega arith

same_of_le : (j low : ℕ) → j ≤ low → low ≤ j → j ≡ low
same_of_le j low a b = omega arith

module _ {N : Type 0} ⦃e : Engine N⦄ where
  open e use {decimal, lt}

  abbrev pub ball_at : Vec3 N → Vec3 N → ℕ → Vec3 N
  ball_at origin v0 i = snowball_pos_at origin v0 (time_of i)

  abbrev pub under_ground : Vec3 N → Vec3 N → ℕ → Bool
  under_ground origin v0 i = lt (ball_at origin v0 i).y (decimal (pos 0) 0)

  abbrev pub hits_at : Vec3 N → Vec3 N → Vec3 N → ℕ → Bool
  hits_at origin v0 target i = intersects_player_cylinder (ball_at origin v0 i) target

  -- Step `i` is the first at which the ball is in the target, and it has not been under ground.
  pub record StrikesAt (origin v0 target : Vec3 N) (low i : ℕ) : Type 0 where
    pub reached : low ≤ i
    pub struck : hits_at origin v0 target i ≡ true
    pub airborne : (j : ℕ) → low ≤ j → j ≤ i → under_ground origin v0 j ≡ false
    pub before : (j : ℕ) → low ≤ j → j < i → hits_at origin v0 target j ≡ false

  first_hit-StrikesAt :
      (origin v0 target : Vec3 N) (rounds low : ℕ) (t : N)
      → first_hit origin v0 target rounds low ≡ some t
      → (i : ℕ) × (i < low + rounds) × (t ≡ time_of i) × StrikesAt origin v0 target low i
  unfolding first_hit
  first_hit-StrikesAt origin v0 target zero low t h = cc
  first_hit-StrikesAt origin v0 target (suc rounds) low t h =
      elim (Bool-cases (under_ground origin v0 low)) [
        | inl sunk ↦ cc (rw (sunk, first_hit) at h)
        | inr flies ↦ elim (Bool-cases (hits_at origin v0 target low)) [
          | inl hit ↦
              (let now : some (time_of low) ≡ some t = rw (flies, hit, first_hit) at h in
                (
                  low,
                  omega arith,
                  cc,
                  record {
                    reached = omega arith;
                    struck = hit;
                    airborne = λ j a b. rw (same_of_le j low b a) flies;
                    before = λ j a b. absurd (omega arith);
                  },
                ))
          | inr miss ↦
              (let later : first_hit origin v0 target rounds (suc low) ≡ some t =
                  rw (flies, miss, first_hit) at h in
                let (i, bound, time, v) =
                  first_hit-StrikesAt origin v0 target rounds (suc low) t later in
                (
                  i,
                  omega arith,
                  time,
                  record {
                    reached = omega (arith, v.reached);
                    struck = v.struck;
                    airborne = λ j a b. elim (first_or_later low j a) [
                      | inl same ↦ rw (← same) flies
                      | inr more ↦ v.airborne j more b
                    ];
                    before = λ j a b. elim (first_or_later low j a) [
                      | inl same ↦ rw (← same) miss
                      | inr more ↦ v.before j more b
                    ];
                  },
                ))
        ]
      ]

  first_hit-of_StrikesAt :
      (origin v0 target : Vec3 N) (rounds low i : ℕ)
      → i < low + rounds
      → StrikesAt origin v0 target low i
      → first_hit origin v0 target rounds low ≡ some (time_of i)
  unfolding first_hit time_of
  first_hit-of_StrikesAt origin v0 target zero low i h v = absurd (omega (arith, v.reached))
  first_hit-of_StrikesAt origin v0 target (suc rounds) low i h v =
      elim (first_or_later low i v.reached) [
        | inl same ↦
            rw (v.airborne low (omega arith) v.reached, first_hit) (rw (same) (rw v.struck refl))
        | inr more ↦
            rw (v.airborne low (omega arith) v.reached, v.before low (omega arith) more, first_hit)
              (first_hit-of_StrikesAt origin v0 target rounds (suc low) i (omega arith) (record {
                reached = more;
                struck = v.struck;
                airborne = λ j a b. v.airborne j (omega arith) b;
                before = λ j a b. v.before j (omega arith) b;
              }))
      ]

  -- The search along a ball's path says time t exactly when t is the time of the first of the steps
  -- 0 to 60 at which the ball is inside the target's cylinder, with the ball above the ground at
  -- that step and at all before it.
  pub first_hit-earliest :
      (origin v0 target : Vec3 N) (t : N)
      → (first_hit origin v0 target (suc sim_steps) 0 ≡ some t)
        ↔ ((i : ℕ) × (i ≤ sim_steps) × (t ≡ time_of i) × StrikesAt origin v0 target 0 i)
  first_hit-earliest origin v0 target t = (
    λ h.
        (let (i, bound, time, v) = first_hit-StrikesAt origin v0 target (suc sim_steps) 0 t h in
          (i, omega arith, time, v)),
    λ found.
        (let (i, bound, time, v) = found in
          first_hit-of_StrikesAt origin v0 target (suc sim_steps) 0 i (omega arith) v
          ∙ ap some (sym time)),
  )
