-- ===== src/Utils/Rng.antt =====
-- `makeRng` of client_src/utils.js (mulberry32), on 32-bit patterns.
use Prim.Native.Nat.{bit_or, bit_xor}
use snow_brawl_game.Base.{ℕ, zero, suc, ◌+◌, ◌*◌, ◌/◌, ◌%◌, ◌<◌, ◌≡◌, ap, arith, List, [], ◌∷◌}
use snow_brawl_game.Utils.Hash.{u32_mod}

-- `Math.imul`.
unfoldable pub imul : ℕ → ℕ → ℕ
imul a b = a * b % u32_mod

abbrev pub increment : ℕ
increment = 0x6D2B79F5

-- The closure's `s`.
unfoldable pub make_rng : ℕ → ℕ
make_rng seed = seed % u32_mod

unfoldable pub advance : ℕ → ℕ
advance s = (s + increment) % u32_mod

-- The number drawn, in units of 2^-32.
unfoldable pub output : ℕ → ℕ
unfolding imul
output s =
    let t = imul (bit_xor s (s / 32768)) (bit_or 1 s) in
    let u = bit_xor ((t + imul (bit_xor t (t / 128)) (bit_or 61 t)) % u32_mod) t in
    bit_xor u (u / 16384) % u32_mod

-- One call of the generator: the new state and the draw.
unfoldable pub draw : ℕ → ℕ × ℕ
unfolding advance output
draw s = let s' = advance s in (s', output s')

unfoldable pub draws : ℕ → ℕ → List ℕ
unfolding draw
draws zero s = []
draws (suc n) s = let (s', r) = draw s in r ∷ draws n s'

-- The state after n calls.
unfoldable pub state_after : ℕ → ℕ → ℕ
unfolding draw
state_after zero s = s
state_after (suc n) s = state_after n (draw s).0

pub output-lt : (s : ℕ) → output s < u32_mod
unfolding output
output-lt s = omega arith

pub state_after_lem : (n s : ℕ) → s < u32_mod → state_after n s ≡ (s + n * increment) % u32_mod
unfolding state_after
state_after_lem zero s lt = omega arith
state_after_lem (suc n) s lt = omega (arith, state_after_lem n (advance s) (omega arith))

-- The increment is invertible modulo 2^32.
abbrev inverse : ℕ
inverse = 3696798301

unscale : (k : ℕ) → k * increment % u32_mod * inverse % u32_mod ≡ k % u32_mod
unscale k = omega arith

-- From any seed two numbers of calls can leave the random generator in one state only if they
-- agree modulo 2^32.
pub state_after-injective :
    (seed i j : ℕ)
    → state_after i (make_rng seed) ≡ state_after j (make_rng seed)
    → i % u32_mod ≡ j % u32_mod
unfolding make_rng
state_after-injective seed i j e =
    let same : i * increment % u32_mod ≡ j * increment % u32_mod = omega (
      arith,
      state_after_lem i (seed % u32_mod) (omega arith),
      state_after_lem j (seed % u32_mod) (omega arith),
    ) in
    omega (arith, unscale i, unscale j, ap (λ (t : ℕ). t * inverse % u32_mod) same)
