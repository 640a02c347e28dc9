-- ===== src/Tests/Scenery.antt =====
-- client_src/environment.js at concrete inputs.
use snow_brawl_game.Base.{◌≡◌, ◌≤◌, ◌*◌, refl, [], ◌∷◌, List, map, length, none}
use snow_brawl_game.Base.Int.{◌-ℤ◌, ℤ}
use snow_brawl_game.Base.Text.{utf16}
use snow_brawl_game.Utils.Rng.{make_rng}
use snow_brawl_game.Environment.{
  Placement, Scatter, draw_patches, scatter, create_environment, shrink,
}
use snow_brawl_game.Environment.Spacing.{Apart, create_environment_places}
use snow_brawl_game.Environment.Draws.{InCanvas, Calls, draw_patches_bounds, scatter-Calls}
use snow_brawl_game.Tests.Toy.{toy, at}

create_environment_places_example :
    let calls : List (Placement ℤ) = (create_environment 7).placements in
    Apart 7 (map (λ (c : Placement ℤ). c.place) calls) × (length calls ≤ 94)
create_environment_places_example = create_environment_places 7

draw_patches_bounds_example :
    (length (draw_patches 200 (make_rng 7)).0 ≡ 200) × InCanvas (draw_patches 200 (make_rng 7)).0
draw_patches_bounds_example = draw_patches_bounds 200 (make_rng 7)

abbrev before : Scatter ℤ
before = record { calls = []; placed = []; rng = 5 }

scatter-Calls_example : Calls (204 * 1) 5 (scatter 7 (utf16 "tree.glb" ∷ []) before).rng
scatter-Calls_example = scatter-Calls 7 (utf16 "tree.glb" ∷ []) before

-- A box of 0.1 either way is no obstacle.
tiny : shrink (record { low = at 0; high = at 100 }) ≡ none
unfolding shrink ◌-ℤ◌
tiny = refl
