-- ===== src/Server/Auth/Token.antt =====
-- The tokens of auth.ts. HMAC, base64, UTF-8 and JSON are the runtime's; an object of JSON is an
-- abstract value, of which the code makes two and reads the time of expiry.
use snow_brawl_game.Base.{
  ℕ, ◌+◌, ◌*◌, ◌/◌, Bool, true, false, not, ◌&&◌, List, [], ◌∷◌, ◌++◌, Option, none, some, ltb,
  ◌==◌, if◌then◌else◌,
}
use snow_brawl_game.Base.Text.{Text, is_empty}

-- The payload of a token, less its times.
pub record Payload : Type 0 where
  pub sub : Text
  pub id : Text
  pub name : Text
  pub trust_level : ℕ
  pub dev_account : Bool

pub record Runtime (V : Type 0) : Type 0 where
  -- Key and content; `none` where `importKey` or `sign` rejects.
  pub sign : List ℕ → List ℕ → Option (List ℕ)
  -- Key, signature, content.
  pub verify : List ℕ → List ℕ → List ℕ → Option Bool
  pub encode : Text → List ℕ
  pub btoa : List ℕ → Text
  pub atob : Text → Option (List ℕ)
  pub stringify : V → Text
  pub parse : Text → Option V
  -- The objects `{alg: "HS256", typ: "JWT"}` and `{...payload, iat, exp}`, and `payload.exp`.
  pub header : V
  pub claims : Payload → ℕ → ℕ → V
  pub exp_of : V → Option ℕ

unfoldable pub replace_unit : ℕ → ℕ → Text → Text
replace_unit a b [] = []
replace_unit a b (c ∷ s) = (if c == a then b else c) ∷ replace_unit a b s

-- `replace(/=+$/, "")`.
unfoldable pub strip_padding : Text → Text
strip_padding [] = []
strip_padding (c ∷ s) =
    let rest = strip_padding s in if c == 61 && is_empty rest then [] else c ∷ rest

-- `split(".")`.
unfoldable pub split_dots : Text → List Text
split_dots [] = [] ∷ []
split_dots (c ∷ s) =
    let rest = split_dots s in
    if c == 46
    then [] ∷ rest
    else elim rest [ [] ↦ (c ∷ []) ∷ [] | part ∷ parts ↦ (c ∷ part) ∷ parts ]

-- From the alphabet of base64 to that of base64url, and back.
unfoldable pub to_url : Text → Text
unfolding replace_unit
to_url s = replace_unit 47 95 (replace_unit 43 45 s)

unfoldable pub from_url : Text → Text
unfolding replace_unit
from_url s = replace_unit 95 47 (replace_unit 45 43 s)

module _ {V : Type 0} (runtime : Runtime V) where
  open runtime use {sign, verify, encode, btoa, atob, stringify, parse, header, claims, exp_of}

  unfoldable pub base64url : List ℕ → Text
  unfolding to_url strip_padding
  base64url bytes = strip_padding (to_url (btoa bytes))

  abbrev pub dot : Text
  dot = 46 ∷ []

  -- The part of a token that is signed; a token lasts 24 hours.
  unfoldable pub signed_part : ℕ → Payload → Text
  unfolding base64url
  signed_part now payload =
      let seconds = now / 1000 in
      base64url (encode (stringify header))
      ++ dot
      ++ base64url (encode (stringify (claims payload seconds (seconds + 24 * 3600))))

  unfoldable pub create_jwt : Text → ℕ → Payload → Option Text
  unfolding signed_part base64url
  create_jwt secret now payload =
      let content = signed_part now payload in
      elim (sign (encode secret) (encode content)) [
        | none ↦ none
        | some signature ↦ some (content ++ dot ++ base64url signature)
      ]

  -- The payload, if it has not expired; the first part of a second counts as the second.
  unfoldable pub unexpired : ℕ → V → Option V
  unexpired now payload = elim (exp_of payload) [
    | none ↦ some payload
    | some exp ↦ if not (exp == 0) && ltb exp (now / 1000) then none else some payload
  ]

  -- From the test of the signature on.
  unfoldable pub read_payload : Text → ℕ → Text → Text → Text → Option V
  unfolding from_url unexpired
  read_payload secret now head body tail = elim (atob (from_url tail)) [
    | none ↦ none
    | some signature ↦ elim (verify (encode secret) signature (encode (head ++ dot ++ body))) [
      | none ↦ none
      | some false ↦ none
      | some true ↦ elim (atob (from_url body)) [
        | none ↦ none
        | some bytes ↦ elim (parse bytes) [ none ↦ none | some payload ↦ unexpired now payload ]
      ]
    ]
  ]

  unfoldable pub check_parts : Text → ℕ → List Text → Option V
  unfolding read_payload
  check_parts secret now (head ∷ body ∷ tail ∷ []) = read_payload secret now head body tail
  check_parts secret now _ = none

  unfoldable pub verify_jwt : Text → ℕ → Text → Option V
  unfolding check_parts split_dots
  verify_jwt secret now token = check_parts secret now (split_dots token)
