-- ===== src/Utils/Palette.antt =====
-- `PASTEL_COLORS` and `pickPastelPair` of client_src/utils.js. An array read out of range is
-- `undefined`, here `none`; JavaScript's `>>` is signed, and its `%` keeps the dividend's sign.
use snow_brawl_game.Base.{
  ◌⊎◌, ℕ, zero, suc, ◌+◌, ◌-◌, ◌/◌, ◌%◌, ◌≤◌, ◌<◌, ◌≡◌, ◌≢◌, ◌↔◌, Bool, true, false, List, [], ◌∷◌,
  Option, none, some, arith, ltb, ◌==◌, if◌then◌else◌, get_elem?, get_elem?-lt,
}
use snow_brawl_game.Base.Int.{ℤ, pos, negsuc}
use snow_brawl_game.Base.Text.{Text}
use snow_brawl_game.Utils.Hash.{hash_string, hash_string-lt, u32_mod}

abbrev pub pastel_colors : List ℕ
pastel_colors =
    0xFFB3BA ∷ 0xFFDFBA ∷ 0xFFFFBA ∷ 0xBAFFC9 ∷ 0xBAE1FF ∷ 0xE0BBE4 ∷ 0xFFD6E0 ∷ 0xCFFAFE ∷ []

-- The signed value of a 32-bit pattern.
unfoldable pub to_int32 : ℕ → ℤ
to_int32 n = if ltb n 2147483648 then pos n else negsuc (u32_mod - n - 1)

-- `>> 3` and `>> 5` divide by 8 and 32, rounding down.
unfoldable pub sar : ℤ → ℕ → ℤ
sar (pos n) d = pos (n / d)
sar (negsuc n) d = negsuc (n / d)

-- `i % 8` as an index into the palette: a negative remainder reads no element, `-0` reads the first.
unfoldable pub color_at : ℤ → Option ℕ
color_at (pos n) = get_elem? pastel_colors (n % 8)
color_at (negsuc n) = if suc n % 8 == 0 then get_elem? pastel_colors 0 else none

-- `===` between two reads.
unfoldable pub same : Option ℕ → Option ℕ → Bool
same none none = true
same none (some b) = false
same (some a) none = false
same (some a) (some b) = a == b

pub record PastelPair : Type 0 where
  pub shirt : Option ℕ
  pub pants : Option ℕ

unfoldable pub pair_of_hash : ℕ → PastelPair
unfolding to_int32 sar color_at same
pair_of_hash h =
    let main = get_elem? pastel_colors (h % 8) in
    let second = color_at (sar (to_int32 h) 8) in
    record {
      shirt = main;
      pants = if same second main then color_at (sar (to_int32 h) 32) else second;
    }

unfoldable pub pick_pastel_pair : Text → PastelPair
unfolding pair_of_hash
pick_pastel_pair key = pair_of_hash (hash_string key)

-- The place of a colour in the palette.
place : ℕ → ℕ
place c =
    if c == 0xFFB3BA
    then 0
    else if c == 0xFFDFBA
    then 1
    else if c == 0xFFFFBA
    then 2
    else if c == 0xBAFFC9
    then 3
    else if c == 0xBAE1FF
    then 4
    else if c == 0xE0BBE4
    then 5
    else if c == 0xFFD6E0
    then 6
    else 7

place_of_color : (i c : ℕ) → get_elem? pastel_colors i ≡ some c → place c ≡ i
unfolding place
place_of_color zero c h = ground arith
place_of_color (suc zero) c h = ground arith
place_of_color (suc (suc zero)) c h = ground arith
place_of_color (suc (suc (suc zero))) c h = ground arith
place_of_color (suc (suc (suc (suc zero)))) c h = ground arith
place_of_color (suc (suc (suc (suc (suc zero))))) c h = ground arith
place_of_color (suc (suc (suc (suc (suc (suc zero)))))) c h = ground arith
place_of_color (suc (suc (suc (suc (suc (suc (suc zero))))))) c h = ground arith
place_of_color (suc (suc (suc (suc (suc (suc (suc (suc i)))))))) c h = cc

color_exists : (n : ℕ) → (c : ℕ) × (get_elem? pastel_colors (n % 8) ≡ some c)
color_exists n = get_elem?-lt pastel_colors (n % 8) (omega arith)

color_at_low :
    (h d : ℕ) → h < 2147483648 → color_at (sar (to_int32 h) d) ≡ get_elem? pastel_colors (h / d % 8)
unfolding color_at sar to_int32
color_at_low h d lt = ground arith

-- For a key whose hash is below 2^31 shirt and trousers both have a colour of the palette, and
-- they have the same one exactly if the remainders of the hash and of its quotients by 8 and by 32
-- modulo 8 agree.
pub pick_pastel_pair-low :
    (key : Text)
    → hash_string key < 2147483648
    → let h = hash_string key in
      let p = pick_pastel_pair key in
      (p.shirt ≢ none)
      × (p.pants ≢ none)
      × ((p.pants ≡ p.shirt) ↔ ((h / 8 % 8 ≡ h % 8) × (h / 32 % 8 ≡ h % 8)))
unfolding pick_pastel_pair
pick_pastel_pair-low key lt =
    let h = hash_string key in
    let (a, ea) = color_exists h in
    let (b, eb) = color_exists (h / 8) in
    let (c, ec) = color_exists (h / 32) in
    ground (
      arith,
      ea,
      eb,
      ec,
      color_at_low h 8 lt,
      color_at_low h 32 lt,
      place_of_color (h % 8) a ea,
      place_of_color (h / 8 % 8) b eb,
      place_of_color (h / 32 % 8) c ec,
    )

-- For a key whose hash is at least 2^31 the shirt has a colour, and the trousers have none exactly
-- if the quotient by 8, rounded up in size, is no multiple of 8, or it is one, the shirt has the
-- first colour, and the quotient by 32 is no multiple of 8.
pub pick_pastel_pair-high :
    (key : Text)
    → 2147483648 ≤ hash_string key
    → let h = hash_string key in
      let p = pick_pastel_pair key in
      (p.shirt ≢ none)
      × ((p.pants ≡ none) ↔ (
          ((u32_mod - h + 7) / 8 % 8 ≢ 0)
          ⊎ (((u32_mod - h + 7) / 8 % 8 ≡ 0) × (h % 8 ≡ 0) × ((u32_mod - h + 31) / 32 % 8 ≢ 0))))
unfolding pick_pastel_pair
pick_pastel_pair-high key ge =
    let h = hash_string key in
    let (c, e) = color_exists h in
    let lt = hash_string-lt key in ground (arith, e, lt, place_of_color (h % 8) c e)
