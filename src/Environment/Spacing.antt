-- ===== src/Environment/Spacing.antt =====
-- Where `createEnvironment` of client_src/environment.js places the models.
use snow_brawl_game.Base.{
  ℕ, zero, suc, ◌+◌, ◌*◌, ◌≤◌, ◌<◌, ◌≡◌, refl, ap, ◌∙◌, inl, inr, false, ◌||◌, List, [], ◌∷◌, ◌++◌,
  map, Option, some, arith, Option-cases, length, length-append, get_elem?, get_elem?-append_cases,
  get_elem?-bound, Holds, if_cases,
}
use snow_brawl_game.Base.Text.{Text}
use snow_brawl_game.Engine.{Engine, Vec3}
use snow_brawl_game.Utils.Terrain.{terrain_height}
use snow_brawl_game.Utils.Rng.{make_rng, draw}
use snow_brawl_game.Environment.{
  kenney_outdoor_glbs, Scatter, coordinate, Placement, any_near, is_too_close, is_too_steep,
  is_near, is_central, find_place, placement, scatter_one, scatter, create_environment, model_names,
  draw_patches, draw_flakes,
}

module _ {N : Type 0} ⦃e : Engine N⦄ (seed : ℕ) where
  -- A place off the tree, on flat ground.
  abbrev pub IsFit : Vec3 N → Type 0
  IsFit p =
      (is_central p.x p.z ≡ false)
      × (is_too_steep seed p.x p.z ≡ false)
      × (p.y ≡ terrain_height seed p.x p.z)

  -- All places are fit, and no later one is near an earlier one.
  pub record Apart (placed : List (Vec3 N)) : Type 0 where
    pub fit : (i : ℕ) (p : Vec3 N) → get_elem? placed i ≡ some p → IsFit p
    pub spaced :
        (i j : ℕ) (p q : Vec3 N)
        → i < j
        → get_elem? placed i ≡ some p
        → get_elem? placed j ≡ some q
        → is_near q.x q.z p ≡ false

  any_near-false :
      (x z : N) (placed : List (Vec3 N)) (i : ℕ) (p : Vec3 N)
      → any_near x z placed ≡ false
      → get_elem? placed i ≡ some p
      → is_near x z p ≡ false
  unfolding any_near
  any_near-false x z [] i p far here = cc
  any_near-false x z (q ∷ qs) zero p far here = ground arith
  any_near-false x z (q ∷ qs) (suc i) p far here = ground (arith, any_near-false x z qs i p)

  nothing_at : (i : ℕ) (p : Vec3 N) → get_elem? [] i ≡ some p → ⊥
  nothing_at i p h = ground arith

  append-Apart :
      (placed : List (Vec3 N)) (p : Vec3 N)
      → IsFit p
      → any_near p.x p.z placed ≡ false
      → Apart placed
      → Apart (placed ++ p ∷ [])
  append-Apart placed p fits far v = record {
    fit = λ i q here. elim (get_elem?-append_cases placed p i q here) [
      | inl old ↦ v.fit i q old
      | inr (last, same) ↦ rw (← same) fits
    ];
    spaced = λ i j q r less here there. elim (get_elem?-append_cases placed p j r there) [
      | inl later ↦ elim (get_elem?-append_cases placed p i q here) [
        | inl earlier ↦ v.spaced i j q r less earlier later
        | inr (last, same) ↦ absurd (omega (arith, get_elem?-bound placed j r later))
      ]
      | inr (last, same) ↦ elim (get_elem?-append_cases placed p i q here) [
        | inl earlier ↦ rw (← same) (any_near-false p.x p.z placed i q far earlier)
        | inr (end, _) ↦ absurd (omega arith)
      ]
    ];
  }

  abbrev IsGood : List (Vec3 N) → Vec3 N → Type 0
  IsGood placed p = IsFit p × (any_near p.x p.z placed ≡ false)

  place-IsGood :
      (placed : List (Vec3 N)) (x z : N)
      → is_too_close x z placed || is_too_steep seed x z ≡ false
      → IsGood placed (record { x = x; y = terrain_height seed x z; z = z })
  unfolding is_too_close
  place-IsGood placed x z h =
      let central : is_central x z ≡ false = ground arith in
      let far : any_near x z placed ≡ false = ground arith in
      let flat : is_too_steep seed x z ≡ false = ground arith in ((central, flat, refl), far)

  find_place-IsGood :
      (n : ℕ) (placed : List (Vec3 N)) (s : ℕ)
      → Holds (IsGood placed) (find_place seed n placed s).0
  unfolding find_place
  find_place-IsGood zero placed s = tt
  find_place-IsGood (suc n) placed s =
      let first = draw s in
      let second = draw first.0 in
      let x = coordinate first.1 in
      let z = coordinate second.1 in
      if_cases (λ (r : Option (Vec3 N) × ℕ). Holds (IsGood placed) r.0)
        (is_too_close x z placed || is_too_steep seed x z)
        (λ _. find_place-IsGood n placed second.0) (λ fits. place-IsGood placed x z fits)

  -- The places on record are those of the calls, at most `n`, and apart.
  record IsScattered (n : ℕ) (state : Scatter N) : Type 0 where
    matching : map (λ (c : Placement N). c.place) state.calls ≡ state.placed
    few : length state.calls ≤ n
    apart : Apart state.placed

  map-append-one :
      (cs : List (Placement N)) (c : Placement N)
      → map (λ (d : Placement N). d.place) (cs ++ c ∷ [])
        ≡ map (λ (d : Placement N). d.place) cs ++ c.place ∷ []
  map-append-one [] c = refl
  map-append-one (d ∷ cs) c = ap (λ (ps : List (Vec3 N)). d.place ∷ ps) (map-append-one cs c)

  matching_more :
      (name : Text) (state : Scatter N) (p : Vec3 N) (s : ℕ)
      → map (λ (c : Placement N). c.place) state.calls ≡ state.placed
      → map (λ (c : Placement N). c.place) (state.calls ++ (placement name p s).0 ∷ [])
        ≡ state.placed ++ p ∷ []
  unfolding placement
  matching_more name state p s h =
      map-append-one state.calls (placement name p s).0
      ∙ ap (λ (ps : List (Vec3 N)). ps ++ p ∷ []) h

  scatter_one-IsScattered :
      (name : Text) (n : ℕ) (state : Scatter N)
      → IsScattered n state
      → IsScattered (suc n) (scatter_one seed name state)
  unfolding scatter_one
  scatter_one-IsScattered name n state v =
      let good = find_place-IsGood 50 state.placed state.rng in
      elim (Option-cases (find_place seed 50 state.placed state.rng).0) [
        | inl nowhere ↦
            rw (nowhere, scatter_one)
              (record { matching = v.matching; few = omega (arith, v.few); apart = v.apart })
        | inr (p, found) ↦
            let s = (find_place seed 50 state.placed state.rng).1 in
            let call = (placement name p s).0 in
            let (fits, far) : IsGood state.placed p = rw found at good in
            rw (found, scatter_one)
              (record {
                matching = matching_more name state p s v.matching;
                few = omega (arith, v.few, length-append state.calls (call ∷ []));
                apart = append-Apart state.placed p fits far v.apart;
              })
      ]

  scatter-IsScattered :
      (names : List Text) (n : ℕ) (state : Scatter N)
      → IsScattered n state
      → IsScattered (n + 2 * length names) (scatter seed names state)
  unfolding scatter
  scatter-IsScattered [] n state v = record {
    matching = v.matching;
    few = omega (arith, v.few);
    apart = v.apart;
  }
  scatter-IsScattered (name ∷ names) n state v =
      let more =
        scatter-IsScattered names (suc (suc n)) _
          (scatter_one-IsScattered name (suc n) _ (scatter_one-IsScattered name n state v)) in
      record { matching = more.matching; few = omega (arith, more.few); apart = more.apart }

-- For every seed the models that the environment places stand off the tree, on flat ground at its height, and no
-- two of them nearer than 15 to each other; there are at most 94, two for each outdoor model.
pub create_environment_places :
    {N : Type 0} ⦃e : Engine N⦄ (seed : ℕ)
    → let calls : List (Placement N) = (create_environment seed).placements in
      Apart seed (map (λ (c : Placement N). c.place) calls) × (length calls ≤ 94)
unfolding create_environment model_names
create_environment_places {N} seed =
    let (patches, s1) = draw_patches 200 (make_rng seed) in
    let (flakes, s2) : List (Vec3 N) × ℕ = draw_flakes 4000 s1 in
    let first : Scatter N = record { calls = []; placed = []; rng = s2 } in
    let none_yet : IsScattered seed 0 first = record {
      matching = refl;
      few = omega arith;
      apart = record {
        fit = λ i p h. absurd (nothing_at seed i p h);
        spaced = λ i j p q l h k. absurd (nothing_at seed i p h);
      };
    } in
    let all = scatter-IsScattered seed kenney_outdoor_glbs 0 first none_yet in
    (rw all.matching all.apart, omega (arith, all.few))
