-- ===== src/Server/Utils.antt =====
-- The checks, the text limits and the vectors of utils.ts, with the numbers of config.ts.
use snow_brawl_game.Base.{
  ℕ, Bool, true, false, ◌&&◌, [], ◌∷◌, Option, none, some, leb, take, length, if◌then◌else◌,
}
use snow_brawl_game.Base.Int.{pos}
use snow_brawl_game.Base.Text.{Text, utf16, is_empty}
use snow_brawl_game.Engine.{Engine, Vec3}
use snow_brawl_game.Utils.Strings.{trim, is_space}

abbrev pub max_name : ℕ
max_name = 20

abbrev pub max_chat : ℕ
max_chat = 80

-- `replace(/\s+/g, " ")`; the flag tells that the last unit was white space.
unfoldable pub collapse_spaces : Bool → Text → Text
unfolding is_space
collapse_spaces in_run [] = []
collapse_spaces in_run (c ∷ s) =
    let inside = collapse_spaces true s in
    let outside = collapse_spaces false s in
    if is_space c then (if in_run then inside else 32 ∷ inside) else c ∷ outside

unfoldable pub clamp_name : Text → Text
unfolding trim collapse_spaces
clamp_name name =
    let trimmed = collapse_spaces false (trim name) in
    take max_name (if is_empty trimmed then utf16 "Player" else trimmed)

unfoldable pub clamp_chat : Text → Text
unfolding trim
clamp_chat text = take max_chat (trim text)

unfoldable pub is_uuid_like : Text → Bool
is_uuid_like s = leb 8 (length s) && leb (length s) 64

module _ {N : Type 0} ⦃e : Engine N⦄ where
  open e use {decimal, add, sub, mul, div, hypot, hypot3, is_finite, truthy, lt, le}

  -- A missing vector is not finite.
  unfoldable pub is_finite_vec3 : Option (Vec3 N) → Bool
  is_finite_vec3 none = false
  is_finite_vec3 (some v) = is_finite v.x && is_finite v.y && is_finite v.z

  unfoldable pub norm : Vec3 N → Vec3 N
  norm v =
      let hyp = hypot3 v.x v.y v.z in
      let len = if truthy hyp then hyp else decimal (pos 1) 0 in
      record { x = div v.x len; y = div v.y len; z = div v.z len }

  unfoldable pub vec3_mul : Vec3 N → N → Vec3 N
  vec3_mul a s = record { x = mul a.x s; y = mul a.y s; z = mul a.z s }

  unfoldable pub vec3_len : Vec3 N → N
  vec3_len a = hypot3 a.x a.y a.z

  unfoldable pub vec3_normalize : Vec3 N → Vec3 N
  unfolding vec3_len
  vec3_normalize a =
      let len = if truthy (vec3_len a) then vec3_len a else decimal (pos 1) 0 in
      record { x = div a.x len; y = div a.y len; z = div a.z len }

  -- `CONFIG.GAME.gravity` is 20.
  unfoldable pub snowball_pos_at : Vec3 N → Vec3 N → N → Vec3 N
  snowball_pos_at origin v0 t = record {
    x = add origin.x (mul v0.x t);
    y =
        sub (add origin.y (mul v0.y t))
          (mul (mul (mul (decimal (pos 5) 1) (decimal (pos 20) 0)) t) t);
    z = add origin.z (mul v0.z t);
  }

  -- `hitRadius` is 0.9 and `hitHeight` 2.2.
  unfoldable pub intersects_player_cylinder : Vec3 N → Vec3 N → Bool
  intersects_player_cylinder p player_pos =
      let horizontal = hypot (sub p.x player_pos.x) (sub p.z player_pos.z) in
      if lt (decimal (pos 9) 1) horizontal
      then false
      else le player_pos.y p.y && le p.y (add player_pos.y (decimal (pos 22) 1))
