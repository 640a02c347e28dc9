-- ===== src/Utils/Strings.antt =====
-- `fixUTF8` of client_src/utils.js, and the string methods that the client calls.
use snow_brawl_game.Base.{
  ℕ, zero, suc, ◌+◌, ◌/◌, ◌%◌, Bool, false, ◌&&◌, ◌||◌, [], ◌∷◌, map, ltb, leb, ◌==◌, if◌then◌else◌,
}
use snow_brawl_game.Base.Text.{Text, is_empty}
use snow_brawl_game.Engine.{Engine}

-- `String(n)` for a natural number; n + 1 rounds are enough.
unfoldable pub decimal_digits : ℕ → ℕ → Text → Text
decimal_digits zero n acc = acc
decimal_digits (suc fuel) n acc =
    let rest = decimal_digits fuel (n / 10) ((48 + n % 10) ∷ acc) in
    if ltb n 10 then (48 + n % 10) ∷ acc else rest

unfoldable pub show_number : ℕ → Text
unfolding decimal_digits
show_number n = decimal_digits (suc n) n []

-- The white space of `trim`.
unfoldable pub is_space : ℕ → Bool
is_space c =
    leb 9 c && leb c 13
    || c == 32
    || c == 0xA0
    || c == 0x1680
    || leb 0x2000 c && leb c 0x200A
    || c == 0x2028
    || c == 0x2029
    || c == 0x202F
    || c == 0x205F
    || c == 0x3000
    || c == 0xFEFF

unfoldable pub trim_start : Text → Text
unfolding is_space
trim_start [] = []
trim_start (c ∷ s) = if is_space c then trim_start s else c ∷ s

unfoldable pub trim_end : Text → Text
unfolding is_space
trim_end [] = []
trim_end (c ∷ s) = let rest = trim_end s in if is_space c && is_empty rest then [] else c ∷ rest

unfoldable pub trim : Text → Text
unfolding trim_start trim_end
trim s = trim_end (trim_start s)

unfoldable pub has_weird_chars : Text → Bool
has_weird_chars [] = false
has_weird_chars (c ∷ s) = leb 0xC0 c && leb c 0xFF || has_weird_chars s

-- `fixed.includes('\uFFFD')`.
unfoldable pub has_replacement : Text → Bool
has_replacement [] = false
has_replacement (c ∷ s) = c == 0xFFFD || has_replacement s

module _ (N : Type 0) ⦃e : Engine N⦄ where
  unfoldable pub fix_utf8 : Text → Text
  unfolding has_weird_chars has_replacement
  fix_utf8 str =
      if is_empty str
      then str
      else if has_weird_chars str
      then (let fixed = e.decode_utf8 (map (λ c. c % 256) str) in
          if has_replacement fixed then str else fixed)
      else str
