-- ===== src/Engine.antt =====
-- What the code takes from outside the repository: the numbers of JavaScript with `Math`, the
-- three.js functions that the client calls, and the browser's UTF-8 decoder. Any type with these operations
-- will do; where a theorem relies on one of them, the fact is a named hypothesis of it.
use snow_brawl_game.Base.{ℕ, Bool, List, ◌≡◌, true, false}
use snow_brawl_game.Base.Int.{ℤ}
use snow_brawl_game.Base.Text.{Text}

pub record Vec3 (N : Type 0) : Type 0 where
  pub x : N
  pub y : N
  pub z : N

pub record Engine (N : Type 0) : Type 0 where
  -- `decimal m k` is the literal m * 10^-k.
  pub decimal : ℤ → ℕ → N
  pub add : N → N → N
  pub sub : N → N → N
  pub mul : N → N → N
  pub div : N → N → N
  pub neg : N → N
  pub lt : N → N → Bool
  pub le : N → N → Bool
  pub pi : N
  pub sin : N → N
  pub cos : N → N
  pub exp : N → N
  pub sqrt : N → N
  pub abs : N → N
  pub pow : N → N → N
  pub hypot : N → N → N
  -- `Math.hypot` of three numbers, `Math.atan2`, `Number.isFinite`, and a number as a condition.
  pub hypot3 : N → N → N → N
  pub atan2 : N → N → N
  pub is_finite : N → Bool
  pub truthy : N → Bool
  pub max : N → N → N
  pub min : N → N → N
  -- `THREE.MathUtils.clamp` and `lerp`.
  pub clamp : N → N → N → N
  pub lerp : N → N → N → N
  -- `Vector3`: `add`, `multiplyScalar`, `lerp`, `length`, `normalize`, and `applyEuler` of an Euler
  -- angle x, y, 0 in the order YXZ.
  pub vec_add : Vec3 N → Vec3 N → Vec3 N
  pub vec_scale : Vec3 N → N → Vec3 N
  pub vec_lerp : Vec3 N → Vec3 N → N → Vec3 N
  pub vec_length : Vec3 N → N
  pub normalize : Vec3 N → Vec3 N
  pub apply_euler : N → N → Vec3 N → Vec3 N
  -- `new TextDecoder('utf-8').decode`.
  pub decode_utf8 : List ℕ → Text

-- Documented behaviour of `clamp`, for a number that is not NaN (NaN is not `≤` itself).
pub record Clamps {N : Type 0} (e : Engine N) : Type 0 where
  pub clamp_low :
      (v lo hi : N) → e.le v v ≡ true → e.le lo hi ≡ true → e.le lo (e.clamp v lo hi) ≡ true
  pub clamp_high :
      (v lo hi : N) → e.le v v ≡ true → e.le lo hi ≡ true → e.le (e.clamp v lo hi) hi ≡ true

-- Not NaN: NaN is the only number that is not `<=` itself.
abbrev pub IsNumber {ℓ} : {N : Type ℓ} → (N → N → Bool) → N → Type 0
IsNumber le a = le a a ≡ true

-- Documented behaviour of `<=`: of two numbers that are not NaN, one is at most the other.
abbrev pub Total {ℓ} : {N : Type ℓ} → (N → N → Bool) → Type ℓ
Total {N} le = (a b : N) → IsNumber le a → IsNumber le b → le a b ≡ false → le b a ≡ true

-- Documented behaviour of `<`, NaN included.
pub record StrictOrder {N : Type 0} (lt : N → N → Bool) : Type 0 where
  pub irreflexive : (a : N) → lt a a ≡ false
  pub transitive : (a b c : N) → lt a b ≡ true → lt b c ≡ true → lt a c ≡ true
