-- ===== src/Utils/Hash.antt =====
-- `hashString` of client_src/utils.js, on 32-bit integers as bit patterns.
use snow_brawl_game.Base.{ℕ, ◌+◌, ◌-◌, ◌*◌, ◌%◌, ◌<◌, ◌≡◌, sym, ap, ◌∙◌, [], ◌∷◌, arith}
use snow_brawl_game.Base.Text.{Text}

abbrev pub u32_mod : ℕ
u32_mod = 4294967296

-- `((h << 5) - h + c) | 0`, on the bit pattern of `h`.
unfoldable pub mix : ℕ → ℕ → ℕ
mix h c = (h * 32 % u32_mod + u32_mod - h + c) % u32_mod

unfoldable pub hash_from : ℕ → Text → ℕ
hash_from h [] = h
hash_from h (c ∷ s) = hash_from (mix h c) s

-- The final `>>> 0` reads the bit pattern as it stands.
unfoldable pub hash_string : Text → ℕ
unfolding hash_from mix
hash_string s = hash_from 0 s

-- The polynomial in 31 by Horner's rule, with no wrap-around.
unfoldable pub horner : ℕ → Text → ℕ
horner h [] = h
horner h (c ∷ s) = horner (h * 31 + c) s

mix_lem : (h c : ℕ) → h < u32_mod → mix h c ≡ (h * 31 + c) % u32_mod
unfolding mix
mix_lem h c lt = omega arith

mix-lt : (h c : ℕ) → mix h c < u32_mod
unfolding mix
mix-lt h c = omega arith

-- Horner's rule may start from the residue.
horner-mod : (h : ℕ) (s : Text) → horner (h % u32_mod) s % u32_mod ≡ horner h s % u32_mod
unfolding horner
horner-mod h [] = omega arith
horner-mod h (c ∷ s) =
    sym (horner-mod (h % u32_mod * 31 + c) s)
    ∙ ap (λ t. horner t s % u32_mod) (omega arith)
    ∙ horner-mod (h * 31 + c) s

hash_from-horner : (h : ℕ) (s : Text) → h < u32_mod → hash_from h s ≡ horner h s % u32_mod
unfolding hash_from horner
hash_from-horner h [] lt = omega arith
hash_from-horner h (c ∷ s) lt =
    hash_from-horner (mix h c) s (mix-lt h c)
    ∙ ap (λ t. horner t s % u32_mod) (mix_lem h c lt)
    ∙ horner-mod (h * 31 + c) s

-- For every string the loop of hashString, wrapped at 32 bits in each round, returns the base-31
-- polynomial of the code units reduced once at the end.
pub hash_string-horner : (s : Text) → hash_string s ≡ horner 0 s % u32_mod
unfolding hash_string
hash_string-horner s = hash_from-horner 0 s (omega arith)

pub hash_string-lt : (s : Text) → hash_string s < u32_mod
hash_string-lt s = omega (arith, hash_string-horner s)
