-- ===== src/Server/Auth/Roundtrip.antt =====
-- The making and the reading of the tokens of auth.ts, one after the other.
use snow_brawl_game.Base.{
  Option-cases, ℕ, ◌+◌, ◌*◌, ◌/◌, ◌≤◌, ◌≡◌, refl, ap, ◌∙◌, true, false, ◌||◌, List, [], ◌∷◌, ◌++◌,
  some, arith, ◌==◌, inl, inr,
}
use mathlib.Core.List.{append_assoc}
use snow_brawl_game.Base.Text.{Text, is_empty}
use snow_brawl_game.Utils.Cipher.{AllBytes}
use snow_brawl_game.Server.Auth.Token.{
  Payload, Runtime, replace_unit, strip_padding, split_dots, to_url, from_url, base64url,
  signed_part, create_jwt, unexpired, read_payload, check_parts, verify_jwt,
}

-- Units of base64 with its padding: no dot, dash or underscore.
abbrev pub Plain : Text → Type 0
Plain [] = Unit
Plain (c ∷ s) = ((c == 46 || c == 45 || c == 95) ≡ false) × Plain s

abbrev NoDot : Text → Type 0
NoDot [] = Unit
NoDot (c ∷ s) = ((c == 46) ≡ false) × NoDot s

is_empty-from_url : (s : Text) → is_empty (from_url s) ≡ is_empty s
unfolding from_url replace_unit
is_empty-from_url [] = refl
is_empty-from_url (c ∷ s) = refl

from_url-base64 : (s : Text) → Plain s → from_url (strip_padding (to_url s)) ≡ strip_padding s
unfolding from_url to_url replace_unit strip_padding
from_url-base64 [] v = refl
from_url-base64 (c ∷ s) (plain, v) =
    ground (arith, from_url-base64 s v, is_empty-from_url (strip_padding (to_url s)))

strip_padding-NoDot : (s : Text) → Plain s → NoDot (strip_padding (to_url s))
unfolding to_url replace_unit strip_padding
strip_padding-NoDot [] v = tt
strip_padding-NoDot (c ∷ s) (plain, v) = ground (arith, strip_padding-NoDot s v)

split_dots-last : (s : Text) → NoDot s → split_dots s ≡ s ∷ []
unfolding split_dots
split_dots-last [] v = refl
split_dots-last (c ∷ s) (no_dot, v) = rw (no_dot, split_dots) (rw (split_dots-last s v) refl)

split_dots-part : (s t : Text) → NoDot s → split_dots (s ++ 46 ∷ t) ≡ s ∷ split_dots t
unfolding split_dots
split_dots-part [] t v = refl
split_dots-part (c ∷ s) t (no_dot, v) = rw (no_dot, split_dots) (rw (split_dots-part s t v) refl)

-- Documented behaviour of the runtime: base64 of bytes has its alphabet and is decoded even without
-- the padding; UTF-8 and a signature are bytes; a signature that was made is verified.
pub record Documented {V : Type 0} (runtime : Runtime V) : Type 0 where
  pub alphabet : (bs : List ℕ) → AllBytes bs → Plain (runtime.btoa bs)
  pub atob-unpadded :
      (bs : List ℕ) → AllBytes bs → runtime.atob (strip_padding (runtime.btoa bs)) ≡ some bs
  pub encode-AllBytes : (s : Text) → AllBytes (runtime.encode s)
  pub sign-AllBytes : (key m sig : List ℕ) → runtime.sign key m ≡ some sig → AllBytes sig
  pub verify-sign :
      (key m sig : List ℕ) → runtime.sign key m ≡ some sig → runtime.verify key sig m ≡ some true
  pub exp_of-claims :
      (p : Payload) (iat exp : ℕ) → runtime.exp_of (runtime.claims p iat exp) ≡ some exp

module _ {V : Type 0} (runtime : Runtime V) (doc : Documented runtime) where
  open runtime use {sign, verify, encode, btoa, atob, stringify, parse, header, claims}

  atob-base64url : (bs : List ℕ) → AllBytes bs → atob (from_url (base64url runtime bs)) ≡ some bs
  unfolding base64url
  atob-base64url bs h =
      ap atob (from_url-base64 (btoa bs) (doc.alphabet bs h)) ∙ doc.atob-unpadded bs h

  base64url-NoDot : (bs : List ℕ) → AllBytes bs → NoDot (base64url runtime bs)
  unfolding base64url
  base64url-NoDot bs h = strip_padding-NoDot (btoa bs) (doc.alphabet bs h)

  split_dots-token :
      (a b c : List ℕ)
      → AllBytes a
      → AllBytes b
      → AllBytes c
      → let head = base64url runtime a in
        let body = base64url runtime b in
        let tail = base64url runtime c in
        split_dots (head ++ 46 ∷ [] ++ body ++ 46 ∷ [] ++ tail) ≡ head ∷ body ∷ tail ∷ []
  split_dots-token a b c ha hb hc =
      let head = base64url runtime a in
      let body = base64url runtime b in
      let tail = base64url runtime c in
      ap split_dots (
        append_assoc (head ++ 46 ∷ [] ++ body) (46 ∷ []) tail
        ∙ append_assoc (head ++ 46 ∷ []) body (46 ∷ tail)
        ∙ append_assoc head (46 ∷ []) (body ++ 46 ∷ tail))
      ∙ split_dots-part head (body ++ 46 ∷ tail) (base64url-NoDot a ha)
      ∙ ap (λ t. head ∷ t)
          (split_dots-part body tail (base64url-NoDot b hb)
            ∙ ap (λ t. body ∷ t) (split_dots-last tail (base64url-NoDot c hc)))

  signed_part-parts :
      (now : ℕ) (payload : Payload)
      → signed_part runtime now payload
        ≡ base64url runtime (encode (stringify header))
          ++ 46 ∷ []
          ++ base64url runtime
              (encode (stringify (claims payload (now / 1000) (now / 1000 + 24 * 3600))))
  unfolding signed_part
  signed_part-parts now payload = refl

  -- What `createJWT` returns has the signature of its first two parts for its last.
  create_jwt-signed :
      (secret : Text) (now : ℕ) (payload : Payload) (token : Text)
      → create_jwt runtime secret now payload ≡ some token
      → (sig : List ℕ) × (sign (encode secret) (encode (signed_part runtime now payload))
          ≡ some sig)
        × (signed_part runtime now payload ++ 46 ∷ [] ++ base64url runtime sig ≡ token)
  unfolding create_jwt
  create_jwt-signed secret now payload token h =
      elim (Option-cases (sign (encode secret) (encode (signed_part runtime now payload)))) [
        | inl refused ↦ cc (rw (refused, create_jwt) at h)
        | inr (sig, signed) ↦ (sig, signed, cc (rw (signed, create_jwt) at h))
      ]

  read_payload-accepts :
      (secret : Text) (later : ℕ) (head body tail : Text) (sig bytes : List ℕ) (made : V) (exp : ℕ)
      → atob (from_url tail) ≡ some sig
      → verify (encode secret) sig (encode (head ++ 46 ∷ [] ++ body)) ≡ some true
      → atob (from_url body) ≡ some bytes
      → parse bytes ≡ some made
      → runtime.exp_of made ≡ some exp
      → later / 1000 ≤ exp
      → read_payload runtime secret later head body tail ≡ some made
  unfolding read_payload unexpired
  read_payload-accepts secret later head body tail sig bytes made exp a b c d x in_time =
      rw (a, b, c, d, x, read_payload, unexpired) (ground arith)

  -- When HMAC, base64, UTF-8 and JSON behave as documented, and the payload's JSON survives being
  -- read from its UTF-8 bytes one unit for each byte, a token that createJWT makes is accepted by
  -- verifyJWT under the same secret for 24 hours, with the payload and the times of its making.
  pub verify_jwt-create_jwt :
      (secret : Text) (now later : ℕ) (payload : Payload) (token : Text)
      → let made = claims payload (now / 1000) (now / 1000 + 24 * 3600) in
        create_jwt runtime secret now payload ≡ some token
        → parse (encode (stringify made)) ≡ some made
        → later / 1000 ≤ now / 1000 + 24 * 3600
        → verify_jwt runtime secret later token ≡ some made
  unfolding verify_jwt check_parts
  verify_jwt-create_jwt secret now later payload token h readable in_time =
      let made = claims payload (now / 1000) (now / 1000 + 24 * 3600) in
      let (sig, signed, is) = create_jwt-signed secret now payload token h in
      let bytes = doc.sign-AllBytes (encode secret) _ sig signed in
      let apart = signed_part-parts now payload in
      let parts =
        split_dots-token (encode (stringify header)) (encode (stringify made)) sig
          (doc.encode-AllBytes (stringify header)) (doc.encode-AllBytes (stringify made)) bytes in
      let verified = doc.verify-sign (encode secret) _ sig (rw apart at signed) in
      rw (← is, apart)
        (rw (parts, check_parts)
          (read_payload-accepts secret later _ _ _ sig (encode (stringify made)) made
            (now / 1000 + 24 * 3600) (atob-base64url sig bytes) verified
            (atob-base64url (encode (stringify made)) (doc.encode-AllBytes (stringify made)))
            readable (doc.exp_of-claims payload (now / 1000) (now / 1000 + 24 * 3600)) in_time))
