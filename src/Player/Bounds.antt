-- ===== src/Player/Bounds.antt =====
-- Where `update` of client_src/player.js leaves the local player, and what it leaves alone.
use snow_brawl_game.Base.{if-false, ap, if_cases, ◌∙◌, ℕ, ◌≡◌, refl, true, false, arith}
use snow_brawl_game.Base.Int.{pos, negsuc}
use snow_brawl_game.Engine.{IsNumber, Total, Engine, Vec3, Clamps}
use snow_brawl_game.Player.State.{Player}
use snow_brawl_game.Player.Animation.{stride, update_animation, update_flash, swing}
use snow_brawl_game.Player.Motion.{
  Frame, ground_below, accelerate, jump, spin, step, land, control, animate, update,
}
use snow_brawl_game.Utils.Config.{map_half}

module _ {N : Type 0} ⦃e : Engine N⦄ where
  open e use {decimal, le, vec_add, vec_scale}

  swing-position : (dt : N) (p : Player N) → (swing dt p).position ≡ p.position
  unfolding swing
  swing-position dt p = ground arith

  stride-position : (now : ℕ) (dt : N) (p : Player N) → (stride now dt p).position ≡ p.position
  unfolding stride
  stride-position now dt p = ground arith

  update_flash-position : (dt : N) (p : Player N) → (update_flash dt p).position ≡ p.position
  unfolding update_flash
  update_flash-position dt p = ground arith

  update_animation-position :
      (now : ℕ) (dt : N) (p : Player N) → (update_animation now dt p).position ≡ p.position
  unfolding update_animation
  update_animation-position now dt p =
      swing-position dt (stride now dt p) ∙ stride-position now dt p

  animate-position : (frame : Frame N) (p : Player N) → (animate frame p).position ≡ p.position
  unfolding animate
  animate-position frame p =
      update_flash-position frame.dt _
      ∙ if_cases (λ (q : Player N). q.position ≡ p.position) p.is_bot (λ _. refl)
          (λ _. update_animation-position frame.now frame.dt p)

  -- Where the step of a frame leads before it is cut to the map.
  abbrev pub next_place : Frame N → Player N → Vec3 N
  next_place frame p =
      let q = spin frame.dt (jump (accelerate frame.dt p)) in
      vec_add q.position (vec_scale q.velocity frame.dt)

  -- The place after the cut.
  abbrev pub cut_place : Frame N → Player N → Vec3 N
  cut_place frame p = (step frame.dt (spin frame.dt (jump (accelerate frame.dt p)))).position

  abbrev pub upright : Player N → Player N
  upright p = record p { rotation_x = decimal (pos 0) 0 }

  land_bounds :
      (seed : ℕ) (p : Player N)
      → Total le
      → IsNumber le p.position.y
      → IsNumber le (ground_below seed p.position)
      → ((land seed p).position.x ≡ p.position.x)
        × ((land seed p).position.z ≡ p.position.z)
        × (le (ground_below seed (land seed p).position) (land seed p).position.y ≡ true)
  unfolding land ground_below
  land_bounds seed p total number height =
      if_cases
        (λ (q : Player N).
          (q.position.x ≡ p.position.x)
          × (q.position.z ≡ p.position.z)
          × (le (ground_below seed q.position) q.position.y ≡ true))
        (le p.position.y (ground_below seed p.position)) (λ _. (refl, refl, height))
        (λ above. (refl, refl, total _ _ number height above))

  -- The living local player moves by its keys.
  update-control :
      (frame : Frame N) (p : Player N)
      → p.dead ≡ false
      → p.is_remote ≡ false
      → p.is_bot ≡ false
      → (update frame p).position ≡ (control frame (upright p)).position
  unfolding update
  update-control frame p alive own person =
      ap (λ (q : Player N). q.position)
        (if-false _ _ alive ∙ if-false _ _ own ∙ if-false _ _ person)
      ∙ animate-position frame (control frame (upright p))

  -- Within the map, 190 either way, and not below the ground.
  abbrev pub InBounds : ℕ → Vec3 N → Type 0
  InBounds seed q =
      (le (decimal (negsuc 189) 0) q.x ≡ true)
      × (le q.x map_half ≡ true)
      × (le (decimal (negsuc 189) 0) q.z ≡ true)
      × (le q.z map_half ≡ true)
      × (le (ground_below seed q) q.y ≡ true)

  control_bounds :
      (frame : Frame N) (p : Player N)
      → Clamps e
      → Total le
      → le (decimal (negsuc 189) 0) map_half ≡ true
      → IsNumber le (next_place frame p).x
      → IsNumber le (next_place frame p).y
      → IsNumber le (next_place frame p).z
      → IsNumber le (ground_below frame.world_seed (cut_place frame p))
      → InBounds frame.world_seed (control frame p).position
  unfolding control step
  control_bounds frame p clamps total wide nx ny nz height =
      let stepped = step frame.dt (spin frame.dt (jump (accelerate frame.dt p))) in
      let (x, z, y) = land_bounds frame.world_seed stepped total ny height in
      (
        rw x (clamps.clamp_low _ _ _ nx wide),
        rw x (clamps.clamp_high _ _ _ nx wide),
        rw z (clamps.clamp_low _ _ _ nz wide),
        rw z (clamps.clamp_high _ _ _ nz wide),
        y,
      )

  -- A living local player stands after `update` within the map, 190 either way, and not below the
  -- ground of the place where it stands, provided that `clamp` and `<=` behave as documented and
  -- that neither the place where the step leads nor the height of the ground there is NaN.
  pub update_bounds :
      (frame : Frame N) (p : Player N)
      → Clamps e
      → Total le
      → p.dead ≡ false
      → p.is_remote ≡ false
      → p.is_bot ≡ false
      → le (decimal (negsuc 189) 0) map_half ≡ true
      → IsNumber le (next_place frame (upright p)).x
      → IsNumber le (next_place frame (upright p)).y
      → IsNumber le (next_place frame (upright p)).z
      → IsNumber le (ground_below frame.world_seed (cut_place frame (upright p)))
      → InBounds frame.world_seed (update frame p).position
  update_bounds frame p clamps total alive own person wide nx ny nz height =
      rw (update-control frame p alive own person)
        (control_bounds frame _ clamps total wide nx ny nz height)
