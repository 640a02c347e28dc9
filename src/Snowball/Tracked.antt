-- ===== src/Snowball/Tracked.antt =====
-- The snowballs in flight: what the store, the map and the scene have to say of one another, and that
-- client_src/snowball.js keeps it.
use snow_brawl_game.Base.{
  get_elem?-modify_cases, ℕ, ◌≡◌, ◌≢◌, sym, ap, ◌∙◌, inl, inr, true, false, List, Option, some,
  arith, Bool-cases, Option-cases, get_elem?, modify, ℕ_discrete, get_elem?-modify_self,
  get_elem?-modify_ne,
}
use snow_brawl_game.Base.Text.{Text, Text-discrete}
use snow_brawl_game.Base.Dict
use snow_brawl_game.Snowball.{Snowball, Balls, deactivate, destroy}

abbrev pub find : Text → List (Text × ℕ) → Option ℕ
find = Dict.get Text-discrete

module _ {N : Type 0} where
  -- A ball is in the map, under its id, exactly while it is active, and only then in the scene.
  pub record IsTracked (balls : Balls N) : Type 0 where
    pub distinct : Dict.Distinct Text-discrete balls.snowballs_by_id
    pub found :
        (k : Text) (r : ℕ)
        → find k balls.snowballs_by_id ≡ some r
        → (b : Snowball N) × (get_elem? balls.objects r ≡ some b) × (b.active ≡ true) × (b.id ≡ k)
    pub listed :
        (r : ℕ) (b : Snowball N)
        → get_elem? balls.objects r ≡ some b
        → b.active ≡ true
        → find b.id balls.snowballs_by_id ≡ some r
    pub drawn :
        (r : ℕ) (b : Snowball N) → get_elem? balls.objects r ≡ some b → b.in_scene ≡ b.active

  -- The balls after an active one was destroyed.
  abbrev without : ℕ → Snowball N → Balls N → Balls N
  without r b balls = record balls {
    objects = modify balls.objects r deactivate;
    snowballs_by_id = Dict.delete Text-discrete b.id balls.snowballs_by_id;
  }

  deactivate-inactive : (b : Snowball N) → b.active ≡ true → (deactivate b).active ≡ false
  unfolding deactivate
  deactivate-inactive b h = ground arith

  deactivate-drawn :
      (b : Snowball N) → b.in_scene ≡ b.active → (deactivate b).in_scene ≡ (deactivate b).active
  unfolding deactivate
  deactivate-drawn b h = ground arith

  without-found :
      (r q : ℕ) (b : Snowball N) (k : Text) (balls : Balls N)
      → IsTracked balls
      → get_elem? balls.objects r ≡ some b
      → find k (Dict.delete Text-discrete b.id balls.snowballs_by_id) ≡ some q
      → (c : Snowball N) × (get_elem? (modify balls.objects r deactivate) q ≡ some c)
        × (c.active ≡ true)
        × (c.id ≡ k)
  without-found r q b k balls v here h = elim (Text-discrete b.id k) [
    | yes p ↦ cc (
      Dict.get-delete_self Text-discrete b.id balls.snowballs_by_id v.distinct,
      ap (λ (t : Text). find t (Dict.delete Text-discrete b.id balls.snowballs_by_id)) p,
    )
    | no p ↦
        let (c, there, alive, named) =
          v.found k q (sym (Dict.get-delete_ne Text-discrete b.id k balls.snowballs_by_id p) ∙ h) in
        (
          c,
          get_elem?-modify_ne balls.objects r q deactivate (λ e. p (ground arith)) ∙ there,
          alive,
          named,
        )
  ]

  without-IsTracked :
      (r : ℕ) (b : Snowball N) (balls : Balls N)
      → get_elem? balls.objects r ≡ some b
      → b.active ≡ true
      → IsTracked balls
      → IsTracked (without r b balls)
  without-IsTracked r b balls here alive v = record {
    distinct = Dict.delete-Distinct Text-discrete b.id balls.snowballs_by_id v.distinct;
    found = λ k q h. without-found r q b k balls v here h;
    listed = λ q c h on.
        (let (d, there, why) = get_elem?-modify_cases balls.objects r q deactivate c h in
          elim why [
            | inl (e, i) ↦ absurd (cc (deactivate-inactive b alive, ap (get_elem? balls.objects) e))
            | inr (e, i) ↦
                let kept : find c.id balls.snowballs_by_id ≡ some q =
                  v.listed q c (rw i there) on in
                let other : b.id ≢ c.id = λ p. e (
                  cc
                    (v.listed r b here alive, ap (λ (t : Text). find t balls.snowballs_by_id) p)) in
                Dict.get-delete_ne Text-discrete b.id c.id balls.snowballs_by_id other ∙ kept
          ]);
    drawn = λ q c h.
        (let (d, there, why) = get_elem?-modify_cases balls.objects r q deactivate c h in
          elim why [
            | inl (e, i) ↦ rw i (deactivate-drawn d (v.drawn q d there))
            | inr (e, i) ↦ rw i (v.drawn q d there)
          ]);
  }

  -- The ball that `destroy` removes was the only one under its id.
  pub destroy-IsTracked : (r : ℕ) (balls : Balls N) → IsTracked balls → IsTracked (destroy r balls)
  unfolding destroy
  destroy-IsTracked r balls v = elim (Option-cases (get_elem? balls.objects r)) [
    | inl lost ↦ rw (lost, destroy) v
    | inr (b, here) ↦ elim (Bool-cases b.active) [
      | inl alive ↦ rw (here, destroy, alive) (without-IsTracked r b balls here alive v)
      | inr over ↦ rw (here, destroy, over) v
    ]
  ]

  -- A change of a ball that leaves its id and its flags alone.
  pub modify-IsTracked :
      (r : ℕ) (f : Snowball N → Snowball N) (balls : Balls N)
      → ((b : Snowball N)
          → ((f b).id ≡ b.id) × ((f b).active ≡ b.active) × ((f b).in_scene ≡ b.in_scene))
      → IsTracked balls
      → IsTracked (record balls { objects = modify balls.objects r f })
  modify-IsTracked r f balls same v = record {
    distinct = v.distinct;
    found = λ k q h.
        (let (b, here, alive, named) = v.found k q h in
          elim (ℕ_discrete r q) [
            | yes e ↦ (
              f b,
              ground (
                arith,
                ap (get_elem? (modify balls.objects r f)) e,
                get_elem?-modify_self balls.objects r f,
                ap (get_elem? balls.objects) e,
              ),
              ground (arith, same b),
              ground (arith, same b),
            )
            | no e ↦ (b, get_elem?-modify_ne balls.objects r q f e ∙ here, alive, named)
          ]);
    listed = λ q c h on.
        (let (b, there, why) = get_elem?-modify_cases balls.objects r q f c h in
          elim why [
            | inl (e, i) ↦
                let (id, active, scene) = same b in
                let kept =
                  v.listed q b there
                    (sym active ∙ sym (ap (λ (d : Snowball N). d.active) i) ∙ on) in
                ap (λ (d : Snowball N). find d.id balls.snowballs_by_id) i
                ∙ ap (λ (t : Text). find t balls.snowballs_by_id) id
                ∙ kept
            | inr (e, i) ↦ v.listed q c (rw i there) on
          ]);
    drawn = λ q c h.
        (let (b, there, why) = get_elem?-modify_cases balls.objects r q f c h in
          let old = v.drawn q b there in
          elim why [ inl (e, i) ↦ rw i (ground (arith, same b)) | inr (e, i) ↦ rw i old ]);
  }
