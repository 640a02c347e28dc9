-- ===== src/Utils/Cipher.antt =====
-- The encryption of the messages in client_src/utils.js, around what the browser does: AES-GCM,
-- base64, UTF-8 and JSON.
use snow_brawl_game.Base.{
  ℕ, zero, suc, ◌+◌, ◌*◌, ◌-◌, ◌%◌, ◌<◌, ◌≡◌, refl, ap, true, false, ◌&&◌, ◌||◌, List, [], ◌∷◌,
  ◌++◌, map, inl, inr, Option, none, some, arith, leb, ◌==◌, if◌then◌else◌, take, drop, length,
  or_else, Bool-cases, ◌>>=◌,
}
use snow_brawl_game.Base.Text.{Text, is_empty}
use snow_brawl_game.Utils.Strings.{is_space}

-- The browser's part; bytes are numbers, and a binary string has a byte in each unit.
pub record Browser (V : Type 0) : Type 0 where
  -- Key, initialisation vector, content; `none` where `decrypt` rejects.
  pub encrypt : List ℕ → List ℕ → List ℕ → List ℕ
  pub decrypt : List ℕ → List ℕ → List ℕ → Option (List ℕ)
  -- `TextEncoder` and `TextDecoder`.
  pub encode : Text → List ℕ
  pub decode : List ℕ → Text
  -- `none` where `atob` throws.
  pub btoa : List ℕ → Text
  pub atob : Text → Option (List ℕ)
  -- `none` where `JSON.parse` throws.
  pub stringify : V → Text
  pub parse : Text → Option V

abbrev pub AllBytes : List ℕ → Type 0
AllBytes [] = Unit {0}
AllBytes (b ∷ bs) = (b < 256) × AllBytes bs

-- Documented behaviour, for the messages that the client sends.
pub record Documented {V : Type 0} (browser : Browser V) : Type 0 where
  pub decrypt-encrypt :
      (key iv m : List ℕ)
      → length key ≡ 32
      → AllBytes m
      → browser.decrypt key iv (browser.encrypt key iv m) ≡ some m
  pub encrypt-AllBytes :
      (key iv m : List ℕ) → length key ≡ 32 → AllBytes m → AllBytes (browser.encrypt key iv m)
  pub encode-AllBytes : (v : V) → AllBytes (browser.encode (browser.stringify v))
  pub decode-encode :
      (v : V) → browser.decode (browser.encode (browser.stringify v)) ≡ browser.stringify v
  pub atob-btoa : (bs : List ℕ) → AllBytes bs → browser.atob (browser.btoa bs) ≡ some bs
  pub parse-stringify : (v : V) → browser.parse (browser.stringify v) ≡ some v
  pub parse-empty : browser.parse [] ≡ none

unfoldable pub hex_digit : ℕ → Option ℕ
hex_digit c =
    if leb 48 c && leb c 57
    then some (c - 48)
    else if leb 97 c && leb c 102
    then some (c - 87)
    else if leb 65 c && leb c 70
    then some (c - 55)
    else none

-- `parseInt(s, 16)` of at most two units, stored as a byte: NaN becomes 0, a negative number wraps.
unfoldable pub parse_byte : Text → ℕ
unfolding hex_digit is_space
parse_byte [] = 0
parse_byte (c ∷ []) = or_else (hex_digit c) 0
parse_byte (c ∷ d ∷ _) = elim (hex_digit c) [
  | some high ↦ elim (hex_digit d) [ some low ↦ 16 * high + low | none ↦ high ]
  | none ↦
      if is_space c || c == 43
      then or_else (hex_digit d) 0
      else if c == 45
      then (256 - or_else (hex_digit d) 0) % 256
      else 0
]

-- The loop of `getAesKey`, for the bytes that are left.
unfoldable pub key_bytes : ℕ → Text → List ℕ
unfolding parse_byte
key_bytes zero hex = []
key_bytes (suc n) hex = parse_byte (take 2 hex) ∷ key_bytes n (drop 2 hex)

unfoldable pub aes_key : Text → List ℕ
unfolding key_bytes
aes_key hex = key_bytes 32 hex

module _ {V : Type 0} (browser : Browser V) where
  open browser use {encrypt, decrypt, encode, decode, btoa, atob, stringify, parse}

  -- With the vector that `getRandomValues` filled in.
  unfoldable pub aes_encrypt : Text → List ℕ → Text → Text
  unfolding aes_key
  aes_encrypt hex iv plaintext = btoa (iv ++ encrypt (aes_key hex) iv (encode plaintext))

  unfoldable pub aes_decrypt : Text → Text → Option Text
  unfolding aes_key
  aes_decrypt hex encrypted = do
    binary ← atob encrypted
    let combined = map (λ c. c % 256) binary
    bytes ← decrypt (aes_key hex) (take 12 combined) (drop 12 combined)
    some (decode bytes)

  unfoldable pub ws_encode : Text → List ℕ → V → Text
  unfolding aes_encrypt
  ws_encode hex iv obj = aes_encrypt hex iv (stringify obj)

  unfoldable pub ws_decode : Text → Text → Option V
  unfolding aes_decrypt
  ws_decode hex str = elim (aes_decrypt hex str) [
    | none ↦ none
    | some decrypted ↦ if is_empty decrypted then none else parse decrypted
  ]

length-key_bytes : (n : ℕ) (hex : Text) → length (key_bytes n hex) ≡ n
unfolding key_bytes
length-key_bytes zero hex = refl
length-key_bytes (suc n) hex = ap suc (length-key_bytes n (drop 2 hex))

length-aes_key : (hex : Text) → length (aes_key hex) ≡ 32
unfolding aes_key
length-aes_key hex = length-key_bytes 32 hex

take-append : (xs ys : List ℕ) (n : ℕ) → length xs ≡ n → take n (xs ++ ys) ≡ xs
take-append [] ys n h = rw (← h) refl
take-append (x ∷ xs) ys n h =
    rw (← h) (ap (λ (zs : List ℕ). x ∷ zs) (take-append xs ys (length xs) refl))

drop-append : (xs ys : List ℕ) (n : ℕ) → length xs ≡ n → drop n (xs ++ ys) ≡ ys
drop-append [] ys n h = rw (← h) refl
drop-append (x ∷ xs) ys n h = rw (← h) (drop-append xs ys (length xs) refl)

map-byte : (bs : List ℕ) → AllBytes bs → map (λ c. c % 256) bs ≡ bs
map-byte [] h = refl
map-byte (b ∷ bs) (small, rest) = let e : b % 256 ≡ b = omega arith in rw (e, map-byte bs rest) refl

append-AllBytes : (xs ys : List ℕ) → AllBytes xs → AllBytes ys → AllBytes (xs ++ ys)
append-AllBytes [] ys v w = w
append-AllBytes (x ∷ xs) ys v w = (v.0, append-AllBytes xs ys v.1 w)

is_empty→[] : (t : Text) → is_empty t ≡ true → t ≡ []
is_empty→[] [] h = refl
is_empty→[] (c ∷ t) h = cc

module _ {V : Type 0} (browser : Browser V) (doc : Documented browser) where
  open browser use {encrypt, encode, stringify}

  aes_decrypt-aes_encrypt :
      (hex : Text) (iv : List ℕ) (v : V)
      → length iv ≡ 12
      → AllBytes iv
      → aes_decrypt browser hex (aes_encrypt browser hex iv (stringify v)) ≡ some (stringify v)
  unfolding aes_decrypt aes_encrypt
  aes_decrypt-aes_encrypt hex iv v size small =
      let cipher = encrypt (aes_key hex) iv (encode (stringify v)) in
      let bytes = append-AllBytes iv cipher small (
        doc.encrypt-AllBytes (aes_key hex) iv (encode (stringify v)) (length-aes_key hex)
          (doc.encode-AllBytes v)) in
      rw
        (
          doc.atob-btoa (iv ++ cipher) bytes,
          map-byte (iv ++ cipher) bytes,
          take-append iv cipher 12 size,
          drop-append iv cipher 12 size,
          doc.decrypt-encrypt (aes_key hex) iv (encode (stringify v)) (length-aes_key hex)
              (doc.encode-AllBytes v),
          doc.decode-encode v,
        )
        refl

  -- No message is the empty string.
  stringify-full : (v : V) → is_empty (stringify v) ≡ false
  stringify-full v = elim (Bool-cases (is_empty (stringify v))) [
    | inr full ↦ full
    | inl empty ↦
        let e : stringify v ≡ [] = is_empty→[] (stringify v) empty in
        cc (doc.parse-stringify v, doc.parse-empty, ap browser.parse e)
  ]

-- Whatever key the page has and whatever vector of 12 bytes is drawn, a message that was encoded is
-- decoded to itself, provided that AES-GCM, base64, UTF-8 and JSON behave as documented.
pub ws_decode-ws_encode :
    {V : Type 0} (browser : Browser V) (hex : Text) (iv : List ℕ) (v : V)
    → Documented browser
    → length iv ≡ 12
    → AllBytes iv
    → ws_decode browser hex (ws_encode browser hex iv v) ≡ some v
unfolding ws_decode ws_encode
ws_decode-ws_encode browser hex iv v doc size small =
    let whole = aes_decrypt-aes_encrypt browser doc hex iv v size small in
    rw (whole, stringify-full browser doc v, ws_decode) (doc.parse-stringify v)
