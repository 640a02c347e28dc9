-- ===== src/Snowball/Flights.antt =====
-- What a frame of client_src/init.js does to the snowballs, and a new ball, keep the store, the map and
-- the scene in step.
use snow_brawl_game.Base.{
  ℕ, ◌≡◌, refl, sym, ap, ◌∙◌, inl, inr, true, List, [], ◌∷◌, none, Bool-cases, Option-cases, length,
  get_elem?, get_elem?-append_cases, get_elem?-append_left, get_elem?-append_new,
}
use snow_brawl_game.Base.Text.{Text, Text-discrete}
use snow_brawl_game.Base.Dict
use snow_brawl_game.Engine.{Engine}
use snow_brawl_game.Snowball.{
  Snowball, Box, Balls, add_snowball, fly, stopped, update, sweep, update_snowballs,
}
use snow_brawl_game.Snowball.Tracked.{find, IsTracked, destroy-IsTracked, modify-IsTracked}

module _ {N : Type 0} ⦃e : Engine N⦄ where
  fly-same :
      (dt : N) (b : Snowball N)
      → ((fly dt b).id ≡ b.id) × ((fly dt b).active ≡ b.active) × ((fly dt b).in_scene ≡ b.in_scene)
  unfolding fly
  fly-same dt b = (refl, refl, refl)

  pub update-IsTracked :
      (seed : ℕ) (boxes : List (Box N)) (dt : N) (r : ℕ) (balls : Balls N)
      → IsTracked balls
      → IsTracked (update seed boxes dt r balls)
  unfolding update
  update-IsTracked seed boxes dt r balls v = elim (Option-cases (get_elem? balls.objects r)) [
    | inl lost ↦ rw (lost, update) v
    | inr (b, here) ↦
        let flown = modify-IsTracked r (fly dt) balls (fly-same dt) v in
        elim (Bool-cases b.active) [
          | inr over ↦ rw (here, update, over) v
          | inl alive ↦ elim (Bool-cases (stopped seed boxes (fly dt b))) [
            | inl hit ↦ rw (here, update, alive, hit) (destroy-IsTracked r _ flown)
            | inr free ↦ rw (here, update, alive, free) flown
          ]
        ]
  ]

  pub sweep-IsTracked :
      (seed : ℕ) (boxes : List (Box N)) (dt : N) (rs : List ℕ) (balls : Balls N)
      → IsTracked balls
      → IsTracked (sweep seed boxes dt rs balls).1
  unfolding sweep
  sweep-IsTracked seed boxes dt [] balls v = v
  sweep-IsTracked seed boxes dt (r ∷ rs) balls v =
      update-IsTracked seed boxes dt r _ (sweep-IsTracked seed boxes dt rs balls v)

  pub update_snowballs-IsTracked :
      (seed : ℕ) (boxes : List (Box N)) (dt : N) (balls : Balls N)
      → IsTracked balls
      → IsTracked (update_snowballs seed boxes dt balls)
  unfolding update_snowballs
  update_snowballs-IsTracked seed boxes dt balls v =
      let swept = sweep-IsTracked seed boxes dt balls.snowballs balls v in
      record {
        distinct = swept.distinct;
        found = swept.found;
        listed = swept.listed;
        drawn = swept.drawn;
      }

  -- A new ball under an id that no ball in flight has.
  pub add_snowball-IsTracked :
      (b : Snowball N) (balls : Balls N)
      → b.active ≡ true
      → b.in_scene ≡ true
      → find b.id balls.snowballs_by_id ≡ none
      → IsTracked balls
      → IsTracked (add_snowball b balls)
  unfolding add_snowball
  add_snowball-IsTracked b balls alive drawn new v =
      let n = length balls.objects in
      record {
        distinct = Dict.set-Distinct Text-discrete b.id n balls.snowballs_by_id v.distinct;
        found = λ k q h. elim (Text-discrete b.id k) [
          | yes p ↦
              let entries : List (Text × ℕ) = Dict.set Text-discrete b.id n balls.snowballs_by_id in
              let last : n ≡ q =
                cc (Dict.get-set_self Text-discrete b.id n balls.snowballs_by_id, h) in
              (b, rw (← last) (get_elem?-append_new balls.objects b), alive, p)
          | no p ↦
              let (c, there, on, named) =
                v.found k q
                  (sym (Dict.get-set_ne Text-discrete b.id k n balls.snowballs_by_id p) ∙ h) in
              (c, get_elem?-append_left balls.objects (b ∷ []) q c there, on, named)
        ];
        listed = λ q c h on. elim (get_elem?-append_cases balls.objects b q c h) [
          | inl old ↦
              let kept = v.listed q c old on in
              Dict.get-set_ne Text-discrete b.id c.id n balls.snowballs_by_id
                (λ p. cc (kept, ap (λ (t : Text). find t balls.snowballs_by_id) p))
              ∙ kept
          | inr (last, same) ↦
              rw (last, ← same) (Dict.get-set_self Text-discrete b.id n balls.snowballs_by_id)
        ];
        drawn = λ q c h. elim (get_elem?-append_cases balls.objects b q c h) [
          | inl old ↦ v.drawn q c old
          | inr (last, same) ↦ rw (← same) (drawn ∙ sym alive)
        ];
      }
