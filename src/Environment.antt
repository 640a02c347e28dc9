-- ===== src/Environment.antt =====
-- client_src/environment.js: what `createEnvironment` draws from the seeded generator, where it places
-- the models, and the boxes that stop the snowballs. Textures, lights and the look of the Christmas
-- tree are left out.
mod Models
mod Drawing
pub mod Spacing
pub mod Draws
use snow_brawl_game.Base.{
  ℕ, zero, suc, ◌+◌, ◌*◌, ◌/◌, Bool, true, false, not, ◌&&◌, ◌||◌, List, [], ◌∷◌, ◌++◌, Option,
  none, some, ltb, if◌then◌else◌,
}
use snow_brawl_game.Base.Int.{pos, negsuc}
use snow_brawl_game.Base.Text.{Text, utf16}
use snow_brawl_game.Engine.{Engine, Vec3}
use snow_brawl_game.Snowball.{Box}
use snow_brawl_game.Utils.Config.{map_half}
use snow_brawl_game.Utils.Hash.{u32_mod}
use snow_brawl_game.Utils.Rng.{make_rng, draw}
use snow_brawl_game.Utils.Terrain.{terrain_height}
use snow_brawl_game.Environment.Models.{kenney_glbs, kenney_outdoor_glbs}
unfoldable pub use Drawing.*

-- A call of `placeKenneyModel`; the path is the URL before `encodeURI`.
pub record Placement (N : Type 0) : Type 0 where
  pub path : Text
  pub place : Vec3 N
  pub rot_y : N
  pub scale : N

-- The calls made, `placedPositions` (with the height), and the state of the generator.
pub record Scatter (N : Type 0) : Type 0 where
  pub calls : List (Placement N)
  pub placed : List (Vec3 N)
  pub rng : ℕ

pub record Scenery (N : Type 0) : Type 0 where
  pub patches : List Patch
  pub flakes : List (Vec3 N)
  pub placements : List (Placement N)

-- The models of the outdoors, or all if there were none.
unfoldable pub model_names : List Text → List Text → List Text
model_names [] every = every
model_names (name ∷ names) every = name ∷ names

abbrev base_url : Text
base_url = utf16 "/assets/kenney_holiday_kit/Models/GLB format/"

module _ {N : Type 0} ⦃e : Engine N⦄ where
  open e use {decimal, add, sub, mul, div, lt, pi, sqrt, max, min}

  abbrev num : ℕ → N
  num n = decimal (pos n) 0

  abbrev pub distance : N → N → N
  distance dx dz = sqrt (add (mul dx dx) (mul dz dz))

  abbrev pub is_near : N → N → Vec3 N → Bool
  is_near x z p = lt (distance (sub x p.x) (sub z p.z)) (num 15)

  abbrev pub is_central : N → N → Bool
  is_central x z = lt (distance x z) (num 25)

  unfoldable pub any_near : N → N → List (Vec3 N) → Bool
  any_near x z [] = false
  any_near x z (p ∷ ps) = is_near x z p || any_near x z ps

  unfoldable pub is_too_close : N → N → List (Vec3 N) → Bool
  unfolding any_near
  is_too_close x z placed = is_central x z || any_near x z placed

  unfoldable pub is_too_steep : ℕ → N → N → Bool
  is_too_steep seed x z =
      let d = num 4 in
      let y = terrain_height seed x z in
      let h1 = terrain_height seed (add x d) z in
      let h2 = terrain_height seed (sub x d) z in
      let h3 = terrain_height seed x (add z d) in
      let h4 = terrain_height seed x (sub z d) in
      let h5 = terrain_height seed (add x d) (add z d) in
      let h6 = terrain_height seed (sub x d) (add z d) in
      let h7 = terrain_height seed (add x d) (sub z d) in
      let h8 = terrain_height seed (sub x d) (sub z d) in
      let low = min (min (min (min (min (min (min (min y h1) h2) h3) h4) h5) h6) h7) h8 in
      let high = max (max (max (max (max (max (max (max y h1) h2) h3) h4) h5) h6) h7) h8 in
      lt (decimal (pos 3) 1) (sub high low)

  -- `(rng() - 0.5) * half * 2`.
  unfoldable pub coordinate : ℕ → N
  unfolding centred
  coordinate r = mul (centred (sub map_half (num 10)) r) (num 2)

  -- The loop that looks for a place, with the attempts left.
  unfoldable pub find_place : ℕ → ℕ → List (Vec3 N) → ℕ → Option (Vec3 N) × ℕ
  unfolding coordinate is_too_close is_too_steep
  find_place seed zero placed s = (none, s)
  find_place seed (suc n) placed s =
      let (s1, a) = draw s in
      let (s2, b) = draw s1 in
      let x = coordinate a in
      let z = coordinate b in
      let rest = find_place seed n placed s2 in
      if is_too_close x z placed || is_too_steep seed x z
      then rest
      else (some (record { x = x; y = terrain_height seed x z; z = z }), s2)

  -- The call of `placeKenneyModel` for a place that was found.
  unfoldable pub placement : Text → Vec3 N → ℕ → Placement N × ℕ
  unfolding unit_of
  placement name p s =
      let (s1, a) = draw s in
      let (s2, b) = draw s1 in
      (
        record {
          path = base_url ++ name;
          place = p;
          rot_y = mul (mul (unit_of a) pi) (num 2);
          scale = mul (add (decimal (pos 7) 1) (mul (unit_of b) (decimal (pos 6) 1))) (num 9);
        },
        s2,
      )

  -- One instance, if a place for it is found.
  unfoldable pub scatter_one : ℕ → Text → Scatter N → Scatter N
  unfolding find_place placement
  scatter_one seed name state =
      let (found, s) = find_place seed 50 state.placed state.rng in
      elim found [
        | none ↦ record state { rng = s }
        | some p ↦
            let (call, after) = placement name p s in
            record {
              calls = state.calls ++ call ∷ [];
              placed = state.placed ++ p ∷ [];
              rng = after;
            }
      ]

  -- Two instances of each model.
  unfoldable pub scatter : ℕ → List Text → Scatter N → Scatter N
  unfolding scatter_one
  scatter seed [] state = state
  scatter seed (name ∷ names) state =
      scatter seed names (scatter_one seed name (scatter_one seed name state))

  unfoldable pub create_environment : ℕ → Scenery N
  unfolding draw_patches draw_flakes scatter model_names
  create_environment seed =
      let (patches, s1) = draw_patches 200 (make_rng seed) in
      let (flakes, s2) = draw_flakes 4000 s1 in
      record {
        patches = patches;
        flakes = flakes;
        placements =
            (scatter seed (model_names kenney_outdoor_glbs kenney_glbs)
              (record { calls = []; placed = []; rng = s2 })).calls;
      }

  -- The obstacle that a mesh's box becomes; a small one becomes none.
  unfoldable pub shrink : Box N → Option (Box N)
  shrink box =
      let dx = sub box.high.x box.low.x in
      let dy = sub box.high.y box.low.y in
      let dz = sub box.high.z box.low.z in
      let tiny = decimal (pos 2) 1 in
      let half = decimal (pos 5) 1 in
      let margin = decimal (pos 1) 1 in
      let cx = mul (add box.low.x box.high.x) half in
      let cz = mul (add box.low.z box.high.z) half in
      let rx = max (sub (mul dx half) margin) (mul (mul dx half) half) in
      let rz = max (sub (mul dz half) margin) (mul (mul dz half) half) in
      if lt dx tiny && (lt dy tiny && lt dz tiny)
      then none
      else some (record {
        low = record { x = sub cx rx; y = box.low.y; z = sub cz rz };
        high = record { x = add cx rx; y = box.high.y; z = add cz rz };
      })

  -- The obstacle of the Christmas tree.
  unfoldable pub tree_box : ℕ → Box N
  tree_box seed =
      let size = decimal (pos 15) 1 in
      let y = terrain_height seed (num 0) (num 0) in
      let low = mul (decimal (negsuc 2) 0) size in
      record {
        low = record { x = low; y = y; z = low };
        high = record { x = mul (num 3) size; y = add y (mul (num 18) size); z = mul (num 3) size };
      }
