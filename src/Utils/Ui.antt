-- ===== src/Utils/Ui.antt =====
-- The overlay of client_src/utils.js: the chat log, the health bar, the death screen.
use native.Mathlib.Decide.{dec_le}
use snow_brawl_game.Base.{
  ℕ, suc, ◌+◌, ◌-◌, ◌/◌, ◌≤◌, ◌≡◌, refl, ◌↔◌, List, [], ◌∷◌, ◌++◌, arith, ltb, if◌then◌else◌,
  length, drop, length-append,
}
use snow_brawl_game.Base.Int.{ℤ, pos, negsuc, ◌≤ℤ◌}
use snow_brawl_game.Base.Text.{Text}

-- `while (log.childNodes.length > 50) log.removeChild(log.firstChild)`.
unfoldable pub trim_log : List Text → List Text
trim_log [] = []
trim_log (x ∷ xs) = let rest = trim_log xs in if ltb 50 (length (x ∷ xs)) then rest else x ∷ xs

-- The lines of `#chat-log`, oldest first.
unfoldable pub append_chat_log : Text → List Text → List Text
unfolding trim_log
append_chat_log line log = trim_log (log ++ line ∷ [])

trim_log-drop : (xs : List Text) → trim_log xs ≡ drop (length xs - 50) xs
unfolding trim_log
trim_log-drop [] = refl
trim_log-drop (x ∷ xs) = elim (dec_le (length xs) 49) [
  | yes p ↦ let e : suc (length xs) - 50 ≡ 0 = omega arith in rw e (ground arith)
  | no p ↦
      let e : suc (length xs) - 50 ≡ suc (length xs - 50) = omega arith in
      rw e (ground (arith, trim_log-drop xs))
]

pub record HpUi : Type 0 where
  pub percent : ℕ
  pub hearts : ℕ

-- `setHpUI`: the width of the bar and the number of hearts.
unfoldable pub set_hp_ui : ℤ → HpUi
set_hp_ui (pos hp) = record { percent = if ltb 100 hp then 100 else hp; hearts = (hp + 19) / 20 }
set_hp_ui (negsuc _) = record { percent = 0; hearts = 0 }

-- Whatever the log held, the new log is the old one with the line at its end, cut to the last 50
-- lines.
pub append_chat_log-drop :
    (line : Text) (log : List Text)
    → append_chat_log line log ≡ drop (length log + 1 - 50) (log ++ line ∷ [])
unfolding append_chat_log
append_chat_log-drop line log =
    rw (trim_log-drop (log ++ line ∷ []), length-append log (line ∷ [])) refl

-- For every health the bar is at most 100 percent wide, no heart is shown exactly if the health is
-- not positive, and up to a health of 100 there are at most five hearts.
pub set_hp_ui_bounds :
    (hp : ℤ)
    → ((set_hp_ui hp).percent ≤ 100)
      × (((set_hp_ui hp).hearts ≡ 0) ↔ (hp ≤ℤ pos 0))
      × (hp ≤ℤ pos 100 → (set_hp_ui hp).hearts ≤ 5)
unfolding set_hp_ui
set_hp_ui_bounds hp = ground arith
