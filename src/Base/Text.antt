-- ===== src/Base/Text.antt =====
-- JavaScript strings, as lists of UTF-16 code units.
use Prim.Native.Char.{code}
use Prim.Native.String.{String}
use snow_brawl_game.Base.{
  ℕ, ◌+◌, ◌-◌, ◌/◌, ◌%◌, ◌≡◌, refl, Bool, true, false, List, [], ◌∷◌, ◌++◌, ltb, if◌then◌else◌,
  ℕ_discrete,
}

abbrev pub Text : Type 0
Text = List ℕ

-- A code point outside the basic plane is a pair of surrogates.
abbrev pub units : ℕ → Text
units c =
    if ltb c 0x10000
    then c ∷ []
    else (0xD800 + (c - 0x10000) / 0x400) ∷ (0xDC00 + (c - 0x10000) % 0x400) ∷ []

-- A literal of the source.
abbrev pub utf16 : String → Text
utf16 String.[] = []
utf16 (String.◌∷◌ c s) = units (code c) ++ utf16 s

-- The empty string is falsy.
abbrev pub is_empty : Text → Bool
is_empty [] = true
is_empty (_ ∷ _) = false

unfoldable pub Text-discrete : Discrete Text
Text-discrete [] [] = yes refl
Text-discrete [] (y ∷ ys) = no (λ e. cc)
Text-discrete (x ∷ xs) [] = no (λ e. cc)
Text-discrete (x ∷ xs) (y ∷ ys) = elim (ℕ_discrete x y) [
  | yes p ↦ elim (Text-discrete xs ys) [ yes q ↦ yes (cc) | no q ↦ no (λ e. q (cc)) ]
  | no p ↦ no (λ e. p (cc))
]

unfoldable pub starts_with : Text → Text → Bool
starts_with [] s = true
starts_with (p ∷ ps) [] = false
starts_with (p ∷ ps) (c ∷ s) = elim (ℕ_discrete p c) [ yes _ ↦ starts_with ps s | no _ ↦ false ]

literal : utf16 "a💀" ≡ 97 ∷ 0xD83D ∷ 0xDC80 ∷ []
literal = refl
