-- ===== src/Game/Clicks.antt =====
-- What a click can do in client_src/init.js: nothing, a call for the pointer, or a throw.
use snow_brawl_game.Base.{ℕ, some, true, ◌==◌, not, if_cases}
use snow_brawl_game.Base.Text.{Text}
use snow_brawl_game.Engine.{Engine}
use snow_brawl_game.Connection.{Clock}
use snow_brawl_game.Game.{Game, on_controls}
use snow_brawl_game.Game.Input.{throw_snowball, mouse_down}

module _ {ℓ} {N : Type 0} ⦃e : Engine N⦄ (P : Game N → Type ℓ) where
  pub mouse_down_cases :
      (now : Clock) (shot : Text) (button : ℕ) (g : Game N)
      → P g
      → P (on_controls (λ c. record c { lock_asked = some true }) g)
      → P (throw_snowball now shot g)
      → P (mouse_down now shot button g)
  unfolding mouse_down
  mouse_down_cases now shot button g same asked threw =
      if_cases P g.controls.chat_focused (λ _. same)
        (λ _.
          if_cases P g.controls.login_shown (λ _. same)
            (λ _.
              if_cases P (not (button == 0)) (λ _. same)
                (λ _. if_cases P (not g.controls.is_pointer_locked) (λ _. asked) (λ _. threw))))
