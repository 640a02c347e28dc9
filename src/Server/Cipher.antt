-- ===== src/Server/Cipher.antt =====
-- The encryption of the messages in utils.ts, around what the runtime does, against that of
-- client_src/utils.js.
use snow_brawl_game.Base.{
  ℕ, ◌%◌, ◌≡◌, List, ◌++◌, map, Option, none, some, length, take, drop, if◌then◌else◌, ◌>>=◌,
}
use snow_brawl_game.Base.Text.{Text, utf16, is_empty}
use snow_brawl_game.Utils.Cipher.{
  Browser, Documented, AllBytes, aes_key, key_bytes, aes_encrypt, aes_decrypt, ws_encode, ws_decode,
  ws_decode-ws_encode,
}

-- `WS_AES_KEY_HEX`.
abbrev pub ws_aes_key_hex : Text
ws_aes_key_hex = utf16 "85237b044148ccbcb10a383765ae7359bb1ef8ca816674e2080d76a5f70338bb"

-- `getAesKey`: the same loop over the same number of bytes as the client's.
unfoldable pub server_key : List ℕ
unfolding key_bytes
server_key = key_bytes 32 ws_aes_key_hex

module _ {V : Type 0} (runtime : Browser V) where
  open runtime use {encrypt, decrypt, encode, decode, btoa, atob, stringify, parse}

  -- `aesEncrypt`, with the vector that `getRandomValues` filled in.
  unfoldable pub server_encrypt : List ℕ → Text → Text
  unfolding server_key
  server_encrypt iv plaintext = btoa (iv ++ encrypt server_key iv (encode plaintext))

  -- `aesDecrypt`; what throws gives `null`.
  unfoldable pub server_decrypt : Text → Option Text
  unfolding server_key
  server_decrypt encrypted = do
    binary ← atob encrypted
    let combined = map (λ c. c % 256) binary
    bytes ← decrypt server_key (take 12 combined) (drop 12 combined)
    some (decode bytes)

  -- What `wsSend` and `broadcast` hand to a socket.
  unfoldable pub sealed : List ℕ → V → Text
  unfolding server_encrypt
  sealed iv msg = server_encrypt iv (stringify msg)

  -- `decodeClientWsMsg`.
  unfoldable pub decode_client_ws_msg : Text → Option V
  unfolding server_decrypt
  decode_client_ws_msg s = elim (server_decrypt s) [
    | none ↦ none
    | some decrypted ↦ if is_empty decrypted then none else parse decrypted
  ]

module _ {V : Type 0} (runtime : Browser V) (doc : Documented runtime) where
  -- With the server's key in the page, and vectors of 12 bytes: what the client encodes the server
  -- decodes to the same message, and what the server seals the client decodes to the same.
  pub decode_client_ws_msg-ws_encode :
      (iv : List ℕ) (v : V)
      → length iv ≡ 12
      → AllBytes iv
      → (decode_client_ws_msg runtime (ws_encode runtime ws_aes_key_hex iv v) ≡ some v)
        × (ws_decode runtime ws_aes_key_hex (sealed runtime iv v) ≡ some v)
  unfolding decode_client_ws_msg server_decrypt sealed server_encrypt server_key ws_decode ws_encode
      aes_encrypt aes_decrypt aes_key
  decode_client_ws_msg-ws_encode iv v size bytes =
      let there = ws_decode-ws_encode runtime ws_aes_key_hex iv v doc size bytes in (there, there)
