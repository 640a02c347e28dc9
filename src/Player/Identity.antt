-- ===== src/Player/Identity.antt =====
-- The methods of client_src/player.js never change who a player is.
use snow_brawl_game.Base.{ℕ, ◌≡◌, refl, ◌∙◌, arith, if_cases}
use snow_brawl_game.Engine.{Engine}
use snow_brawl_game.Player.State.{Player}
use snow_brawl_game.Player.Animation.{stride, swing, update_animation, update_flash}
use snow_brawl_game.Player.Motion.{
  load_snowman, Frame, lie_down, follow, accelerate, jump, spin, step, land, control, animate,
  update,
}

module _ {N : Type 0} ⦃e : Engine N⦄ where
  stride-id : (now : ℕ) (dt : N) (p : Player N) → (stride now dt p).id ≡ p.id
  unfolding stride
  stride-id now dt p = ground arith

  swing-id : (dt : N) (p : Player N) → (swing dt p).id ≡ p.id
  unfolding swing
  swing-id dt p = ground arith

  update_flash-id : (dt : N) (p : Player N) → (update_flash dt p).id ≡ p.id
  unfolding update_flash
  update_flash-id dt p = ground arith

  animate-id : (frame : Frame N) (p : Player N) → (animate frame p).id ≡ p.id
  unfolding animate update_animation
  animate-id frame p =
      update_flash-id frame.dt _
      ∙ if_cases (λ (q : Player N). q.id ≡ p.id) p.is_bot (λ _. refl)
          (λ _. swing-id frame.dt (stride frame.now frame.dt p) ∙ stride-id frame.now frame.dt p)

  land-id : (seed : ℕ) (p : Player N) → (land seed p).id ≡ p.id
  unfolding land
  land-id seed p = ground arith

  spin-id : (dt : N) (p : Player N) → (spin dt p).id ≡ p.id
  unfolding spin
  spin-id dt p = ground arith

  jump-id : (p : Player N) → (jump p).id ≡ p.id
  unfolding jump
  jump-id p = ground arith

  control-id : (frame : Frame N) (p : Player N) → (control frame p).id ≡ p.id
  unfolding control step accelerate
  control-id frame p =
      let moved : Player N = accelerate frame.dt p in
      land-id frame.world_seed _ ∙ spin-id frame.dt (jump moved) ∙ jump-id moved

  pub update-id : (frame : Frame N) (p : Player N) → (update frame p).id ≡ p.id
  unfolding update lie_down follow
  update-id frame p =
      if_cases (λ (q : Player N). q.id ≡ p.id) p.dead (λ _. refl)
        (λ _.
          if_cases (λ (q : Player N). q.id ≡ p.id) p.is_remote (λ _. animate-id frame _)
            (λ _.
              if_cases (λ (q : Player N). q.id ≡ p.id) p.is_bot (λ _. refl)
                (λ _. animate-id frame _ ∙ control-id frame _)))

  pub load_snowman-id : (p : Player N) → (load_snowman p).id ≡ p.id
  unfolding load_snowman
  load_snowman-id p = ground arith
