-- ===== src/Environment/Draws.antt =====
-- What `createEnvironment` of client_src/environment.js takes from the seeded generator.
use snow_brawl_game.Base.{
  ℕ, zero, suc, ◌+◌, ◌*◌, ◌≤◌, ◌<◌, ◌≡◌, refl, sym, ap, ◌∙◌, inl, inr, List, [], ◌∷◌, Option, arith,
  Option-cases, length, if_cases, ◌||◌,
}
use snow_brawl_game.Base.Text.{Text}
use snow_brawl_game.Engine.{Engine, Vec3}
use snow_brawl_game.Utils.Hash.{u32_mod}
use snow_brawl_game.Utils.Rng.{draw, state_after, output-lt}
use snow_brawl_game.Environment.{
  Patch, Scatter, floor_of, patch, draw_patches, coordinate, is_too_close, is_too_steep, find_place,
  placement, scatter_one, scatter,
}

abbrev pub InCanvas : List Patch → Type 0
InCanvas [] = Unit
InCanvas (p ∷ ps) = (p.left < 64) × (p.top < 64) × InCanvas ps

floor_of-lt : (r : ℕ) → r < u32_mod → floor_of 64 r < 64
unfolding floor_of
floor_of-lt r h = omega arith

-- From every state of the generator as many rectangles of the ground's texture are drawn as are asked
-- for, each with its corner on the canvas of 64 by 64.
pub draw_patches_bounds :
    (n s : ℕ) → let patches = (draw_patches n s).0 in (length patches ≡ n) × InCanvas patches
unfolding draw_patches patch draw
draw_patches_bounds zero s = (refl, tt)
draw_patches_bounds (suc n) s =
    let (size, inside) = draw_patches_bounds n (patch s).1 in
    (ap suc size, (floor_of-lt _ (output-lt _), floor_of-lt _ (output-lt _), inside))

-- The generator has been called at most `n` times between two states.
abbrev pub Calls : ℕ → ℕ → ℕ → Type 0
Calls n before after = (k : ℕ) × (k ≤ n) × (after ≡ state_after k before)

state_after-add : (a b s : ℕ) → state_after (a + b) s ≡ state_after b (state_after a s)
unfolding state_after
state_after-add zero b s = let e : 0 + b ≡ b = omega arith in ap (λ (k : ℕ). state_after k s) e
state_after-add (suc a) b s =
    let e : suc a + b ≡ suc (a + b) = omega arith in
    ap (λ (k : ℕ). state_after k s) e ∙ state_after-add a b (draw s).0

Calls-trans : (m n r s t : ℕ) → Calls m r s → Calls n s t → Calls (m + n) r t
Calls-trans m n r s t (a, few, e) (b, less, f) =
    (a + b, omega arith, f ∙ ap (state_after b) e ∙ sym (state_after-add a b r))

Calls-mono : (m n r s : ℕ) → m ≤ n → Calls m r s → Calls n r s
Calls-mono m n r s h (k, few, e) = (k, omega arith, e)

draw-Calls : (s : ℕ) → Calls 2 s (draw (draw s).0).0
unfolding state_after
draw-Calls s = (2, omega arith, refl)

module _ {N : Type 0} ⦃e : Engine N⦄ (seed : ℕ) where
  find_place-Calls :
      (n : ℕ) (placed : List (Vec3 N)) (s : ℕ) → Calls (2 * n) s (find_place seed n placed s).1
  unfolding find_place state_after
  find_place-Calls zero placed s = (0, omega arith, refl)
  find_place-Calls (suc n) placed s =
      let second = draw (draw s).0 in
      let x : N = coordinate (draw s).1 in
      let z : N = coordinate second.1 in
      if_cases (λ (r : Option (Vec3 N) × ℕ). Calls (2 * suc n) s r.1)
        (is_too_close x z placed || is_too_steep seed x z)
        (λ _.
          Calls-mono (2 + 2 * n) (2 * suc n) _ _ (omega arith)
            (Calls-trans 2 (2 * n) _ _ _ (draw-Calls s) (find_place-Calls n placed second.0)))
        (λ _. (2, omega arith, refl))

  scatter_one-Calls :
      (name : Text) (state : Scatter N) → Calls 102 state.rng (scatter_one seed name state).rng
  unfolding scatter_one
  scatter_one-Calls name state =
      let looked = find_place-Calls 50 state.placed state.rng in
      let s = (find_place seed 50 state.placed state.rng).1 in
      elim (Option-cases (find_place seed 50 state.placed state.rng).0) [
        | inl nowhere ↦ rw (nowhere, scatter_one) (Calls-mono 100 102 _ _ (omega arith) looked)
        | inr (p, found) ↦
            rw (found, scatter_one)
              (unfold placement in Calls-trans 100 2 _ _ _ looked (draw-Calls s))
      ]

  -- For every list of names and every state, the placement of the models ends, and has called the
  -- generator at most 204 times for each name.
  pub scatter-Calls :
      (names : List Text) (state : Scatter N)
      → Calls (204 * length names) state.rng (scatter seed names state).rng
  unfolding scatter state_after
  scatter-Calls [] state = (0, omega arith, refl)
  scatter-Calls (name ∷ names) state =
      let one = scatter_one seed name state in
      let both =
        Calls-trans 102 102 _ _ _ (scatter_one-Calls name state) (scatter_one-Calls name one) in
      let all =
        Calls-trans 204 (204 * length names) _ _ _ both
          (scatter-Calls names (scatter_one seed name one)) in
      Calls-mono _ (204 * suc (length names)) _ _ (omega arith) all
