-- ===== src/Utils/Uuid.antt =====
-- `randomId` of client_src/utils.js.
use Prim.Native.Nat.{bit_and, bit_or}
use snow_brawl_game.Base.{
  ap, ℕ, zero, suc, ◌+◌, ◌/◌, ◌%◌, ◌<◌, ◌≡◌, refl, ◌⊎◌, Bool, true, ◌&&◌, ◌||◌, List, [], ◌∷◌, ◌++◌,
  some, arith, ltb, ◌==◌, if◌then◌else◌, take, drop, length, get_elem?, modify, ℕ_discrete,
}
use snow_brawl_game.Base.Text.{Text, utf16}

-- The unit of a hexadecimal digit below 16.
unfoldable pub hex_unit : ℕ → ℕ
hex_unit d = if ltb d 10 then 48 + d else 87 + d

-- `b.toString(16).padStart(2, "0")` of a byte.
unfoldable pub hex_pair : ℕ → Text
unfolding hex_unit
hex_pair b = hex_unit (b / 16) ∷ hex_unit (b % 16) ∷ []

unfoldable pub hex_text : List ℕ → Text
unfolding hex_pair
hex_text [] = []
hex_text (b ∷ bs) = hex_pair b ++ hex_text bs

-- The marks of version 4 in the sixteen random bytes.
unfoldable pub mark_version : List ℕ → List ℕ
mark_version buf =
    modify (modify buf 6 (λ b. bit_or (bit_and b 0x0F) 0x40)) 8 (λ b. bit_or (bit_and b 0x3F) 0x80)

unfoldable pub with_dashes : Text → Text
with_dashes hex =
    take 8 hex
    ++ utf16 "-"
    ++ take 4 (drop 8 hex)
    ++ utf16 "-"
    ++ take 4 (drop 12 hex)
    ++ utf16 "-"
    ++ take 4 (drop 16 hex)
    ++ utf16 "-"
    ++ drop 20 hex

unfoldable pub uuid_of : List ℕ → Text
unfolding mark_version hex_text with_dashes
uuid_of buf = with_dashes (hex_text (mark_version buf))

-- `new Uint8Array(16)` after `getRandomValues`, which put a byte in each place.
unfoldable pub filled : ℕ → ℕ → (ℕ → ℕ) → List ℕ
filled k zero byte = []
filled k (suc n) byte = byte k ∷ filled (suc k) n byte

-- What the page offers: a native UUID, the bytes of `getRandomValues`, or the texts in base 36 of a random
-- fraction and of the time.
pub data Source : Type 0 where
  native_uuid : Text → Source
  random_bytes : (ℕ → ℕ) → Source
  weak : Text → Text → Source

unfoldable pub random_id : Source → Text
unfolding uuid_of filled
random_id (native_uuid id) = id
random_id (random_bytes byte) = uuid_of (filled 0 16 byte)
random_id (weak fraction time) = utf16 "id-" ++ drop 2 fraction ++ time

-- A test of all numbers below a bound.
abbrev all_below : ℕ → (ℕ → Bool) → Bool
all_below zero f = true
all_below (suc n) f = f n && all_below n f

all_below_lem : (n : ℕ) (f : ℕ → Bool) (i : ℕ) → all_below n f ≡ true → i < n → f i ≡ true
all_below_lem zero f i h k = absurd (omega arith)
all_below_lem (suc n) f i h k = elim (ℕ_discrete i n) [
  | yes e ↦ ground arith
  | no ne ↦ all_below_lem n f i (ground arith) (omega arith)
]

version_nibble : (b : ℕ) → b < 256 → hex_unit (bit_or (bit_and b 0x0F) 0x40 / 16) ≡ 52
unfolding hex_unit
version_nibble b h =
    let checked =
      all_below_lem 256 (λ c. hex_unit (bit_or (bit_and c 0x0F) 0x40 / 16) == 52) b refl h in
    ground arith

variant_nibble :
    (b : ℕ)
    → b < 256
    → let u = hex_unit (bit_or (bit_and b 0x3F) 0x80 / 16) in
      (u ≡ 56) ⊎ (u ≡ 57) ⊎ (u ≡ 97) ⊎ (u ≡ 98)
unfolding hex_unit
variant_nibble b h =
    let checked =
      all_below_lem 256
        (λ c.
          let u = hex_unit (bit_or (bit_and c 0x3F) 0x80 / 16) in
          u == 56 || u == 57 || u == 97 || u == 98)
        b refl h in
    ground arith

-- With `getRandomValues` the id has 36 units, a dash after 8, 12, 16 and 20 digits, the version 4 and
-- a variant among 8, 9, a and b, whatever bytes are drawn.
pub random_id-uuid :
    (byte : ℕ → ℕ)
    → ((i : ℕ) → byte i < 256)
    → let id = random_id (random_bytes byte) in
      (length id ≡ 36)
      × (get_elem? id 8 ≡ some 45)
      × (get_elem? id 13 ≡ some 45)
      × (get_elem? id 18 ≡ some 45)
      × (get_elem? id 23 ≡ some 45)
      × (get_elem? id 14 ≡ some 52)
      × ((u : ℕ) × (get_elem? id 19 ≡ some u) × ((u ≡ 56) ⊎ (u ≡ 57) ⊎ (u ≡ 97) ⊎ (u ≡ 98)))
unfolding random_id
random_id-uuid byte small = (
  refl,
  refl,
  refl,
  refl,
  refl,
  ap (λ (u : ℕ). some u) (version_nibble (byte 6) (small 6)),
  (_, refl, variant_nibble (byte 8) (small 8)),
)
