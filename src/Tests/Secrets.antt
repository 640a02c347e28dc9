-- ===== src/Tests/Secrets.antt =====
-- The encryption and the ids of client_src/utils.js at concrete inputs, in a browser that encrypts
-- nothing.
use snow_brawl_game.Base.{
  ℕ_discrete, List, ℕ, ◌≡◌, ◌⊎◌, refl, Bool, true, false, [], ◌∷◌, Option, some, none, arith,
  length, get_elem?,
}
use snow_brawl_game.Base.Text.{Text, utf16, Text-discrete}
use snow_brawl_game.Utils.Cipher.{
  AllBytes, Browser, Documented, ws_decode, ws_encode, ws_decode-ws_encode, key_bytes,
}
use snow_brawl_game.Server.Cipher.{
  ws_aes_key_hex, sealed, decode_client_ws_msg, decode_client_ws_msg-ws_encode,
}
use snow_brawl_game.Utils.Uuid.{random_id, random_bytes, random_id-uuid}

abbrev show_bool : Bool → Text
show_bool true = utf16 "true"
show_bool false = utf16 "false"

unfoldable read_bool : Text → Option Bool
unfolding Text-discrete
read_bool t = elim (Text-discrete t (utf16 "true")) [
  | yes _ ↦ some true
  | no _ ↦ elim (Text-discrete t (utf16 "false")) [ yes _ ↦ some false | no _ ↦ none ]
]

abbrev plain : Browser Bool
plain = record {
  encrypt = λ key iv m. m;
  decrypt = λ key iv m. some m;
  encode = λ t. t;
  decode = λ bs. bs;
  btoa = λ bs. bs;
  atob = some;
  stringify = show_bool;
  parse = read_bool;
}

read-show : (b : Bool) → read_bool (show_bool b) ≡ some b
unfolding read_bool ℕ_discrete
read-show true = refl
read-show false = refl

show_bool-AllBytes : (b : Bool) → AllBytes (show_bool b)
show_bool-AllBytes true = omega arith
show_bool-AllBytes false = omega arith

plain-Documented : Documented plain
unfolding read_bool
plain-Documented = record {
  decrypt-encrypt = λ key iv m n b. refl;
  encrypt-AllBytes = λ key iv m n b. b;
  encode-AllBytes = show_bool-AllBytes;
  decode-encode = λ v. refl;
  atob-btoa = λ bs b. refl;
  parse-stringify = read-show;
  parse-empty = refl;
}

abbrev vector : List ℕ
vector = 1 ∷ 2 ∷ 3 ∷ 4 ∷ 5 ∷ 6 ∷ 7 ∷ 8 ∷ 9 ∷ 10 ∷ 11 ∷ 12 ∷ []

ws_decode-ws_encode_example :
    ws_decode plain (utf16 "00ff") (ws_encode plain (utf16 "00ff") vector true) ≡ some true
ws_decode-ws_encode_example =
    ws_decode-ws_encode plain (utf16 "00ff") vector true plain-Documented refl (omega arith)

decode_client_ws_msg-ws_encode_example :
    (decode_client_ws_msg plain (ws_encode plain ws_aes_key_hex vector true) ≡ some true)
    × (ws_decode plain ws_aes_key_hex (sealed plain vector true) ≡ some true)
decode_client_ws_msg-ws_encode_example =
    decode_client_ws_msg-ws_encode plain plain-Documented vector true refl (omega arith)

random_id-uuid_example :
    let id = random_id (random_bytes (λ i. 200)) in
    (length id ≡ 36)
    × (get_elem? id 8 ≡ some 45)
    × (get_elem? id 13 ≡ some 45)
    × (get_elem? id 18 ≡ some 45)
    × (get_elem? id 23 ≡ some 45)
    × (get_elem? id 14 ≡ some 52)
    × ((u : ℕ) × (get_elem? id 19 ≡ some u) × ((u ≡ 56) ⊎ (u ≡ 57) ⊎ (u ≡ 97) ⊎ (u ≡ 98)))
random_id-uuid_example = random_id-uuid (λ i. 200) (λ i. omega arith)

zeros : random_id (random_bytes (λ i. 0)) ≡ utf16 "00000000-0000-4000-8000-000000000000"
unfolding random_id
zeros = refl

keys : key_bytes 4 (utf16 "00fF1g") ≡ 0 ∷ 255 ∷ 1 ∷ 0 ∷ []
unfolding key_bytes
keys = refl
