-- ===== src/Tests/Overlay.antt =====
-- client_src/utils.js: the colours, the chat log and the health bar at concrete inputs.
use snow_brawl_game.Base.{inl, ℕ, ◌≡◌, refl, ◌%◌, ◌≤◌, ◌≢◌, [], ◌∷◌, some, none, arith}
use snow_brawl_game.Base.Int.{pos}
use snow_brawl_game.Base.Text.{utf16}
use snow_brawl_game.Utils.Hash.{hash_string, horner, u32_mod, hash_string-horner}
use snow_brawl_game.Utils.Palette.{pick_pastel_pair, pick_pastel_pair-low, pick_pastel_pair-high}
use snow_brawl_game.Utils.Rng.{make_rng, draws, state_after-injective}
use snow_brawl_game.Utils.Ui.{append_chat_log, append_chat_log-drop, set_hp_ui, set_hp_ui_bounds}
use snow_brawl_game.Utils.Strings.{show_number, trim}
use snow_brawl_game.Tests.Toy.{toy}

hash_of_guest : hash_string (utf16 "Guest") ≡ 69156280
unfolding hash_string
hash_of_guest = refl

hash_string-horner_example : hash_string (utf16 "Guest") ≡ horner 0 (utf16 "Guest") % u32_mod
hash_string-horner_example = hash_string-horner (utf16 "Guest")

-- "Guest" hashes below 2^31.
low_pair :
    pick_pastel_pair (utf16 "Guest") ≡ record { shirt = some 0xFFB3BA; pants = some 0xCFFAFE }
unfolding pick_pastel_pair hash_string
low_pair = refl

pick_pastel_pair-low_example : (pick_pastel_pair (utf16 "Guest")).pants ≢ none
unfolding hash_string
pick_pastel_pair-low_example = (pick_pastel_pair-low (utf16 "Guest") (omega arith)).1

-- "Snowman" hashes above it.
pick_pastel_pair-high_example : (pick_pastel_pair (utf16 "Snowman")).pants ≡ none
unfolding hash_string
pick_pastel_pair-high_example =
    (pick_pastel_pair-high (utf16 "Snowman") (omega arith)).1.1 (inl (omega arith))

first_draws : draws 2 (make_rng 1) ≡ 2693262067 ∷ 11749833 ∷ []
unfolding draws make_rng
first_draws = refl

state_after-injective_example : ◌≡◌ {A = ℕ} (5 % u32_mod) (5 % u32_mod)
state_after-injective_example = state_after-injective 1 5 5 refl

append_chat_log-drop_example :
    append_chat_log (utf16 "c") (utf16 "a" ∷ utf16 "b" ∷ [])
    ≡ utf16 "a" ∷ utf16 "b" ∷ utf16 "c" ∷ []
append_chat_log-drop_example = append_chat_log-drop (utf16 "c") (utf16 "a" ∷ utf16 "b" ∷ [])

set_hp_ui_bounds_example : (set_hp_ui (pos 75)).hearts ≤ 5
set_hp_ui_bounds_example = (set_hp_ui_bounds (pos 75)).2 (omega arith)

texts : (show_number 2050 ≡ utf16 "2050") × (trim (utf16 "  a b ") ≡ utf16 "a b")
unfolding show_number trim
texts = (refl, refl)
