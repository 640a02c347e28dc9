-- ===== src/Snowball/Listed.antt =====
-- The array of the snowballs in client_src/utils.js, swept in each frame by client_src/init.js.
use snow_brawl_game.Base.{
  ℕ, suc, ◌≤◌, ◌≡◌, ◌≢◌, refl, ap, ◌⊎◌, inl, inr, true, false, List, [], ◌∷◌, ◌++◌, Option, none,
  some, arith, Bool-cases, Option-cases, length, get_elem?, modify, length-modify,
  get_elem?-modify_cases, get_elem?-modify_ne, length-append, get_elem?-append_cases,
}
use native.Mathlib.Numerals.{add-one}
use snow_brawl_game.Snowball.{Snowball, Balls, deactivate, destroy, add_snowball, is_active}

abbrev pub Contains : ℕ → List ℕ → Type 0
Contains r [] = ⊥
Contains r (q ∷ qs) = (q ≡ r) ⊎ Contains r qs

-- References from `low` on and below `n`, in rising order.
abbrev pub Rising : ℕ → List ℕ → ℕ → Type 0
Rising low [] n = low ≤ n
Rising low (r ∷ rs) n = (low ≤ r) × Rising (suc r) rs n

pub Rising-mono :
    (low high : ℕ) (rs : List ℕ) (n : ℕ) → low ≤ high → Rising high rs n → Rising low rs n
Rising-mono low high [] n h v = omega arith
Rising-mono low high (r ∷ rs) n h v = (omega arith, v.1)

pub Rising-le : (low : ℕ) (rs : List ℕ) (n q : ℕ) → Rising low rs n → Contains q rs → low ≤ q
Rising-le low [] n q v c = absurd c
Rising-le low (r ∷ rs) n q v (inl e) = omega arith
Rising-le low (r ∷ rs) n q v (inr c) = omega (arith, Rising-le (suc r) rs n q v.1 c)

pub Rising-end :
    (low : ℕ) (rs : List ℕ) (n : ℕ) → Rising low rs n → Rising low (rs ++ n ∷ []) (suc n)
Rising-end low [] n v = (v, omega arith)
Rising-end low (r ∷ rs) n v = (v.0, Rising-end (suc r) rs n v.1)

pub Contains-append : (q : ℕ) (rs qs : List ℕ) → Contains q rs → Contains q (rs ++ qs)
Contains-append q [] qs c = absurd c
Contains-append q (r ∷ rs) qs (inl e) = inl e
Contains-append q (r ∷ rs) qs (inr c) = inr (Contains-append q rs qs c)

Contains-end : (rs : List ℕ) (n : ℕ) → Contains n (rs ++ n ∷ [])
Contains-end [] n = inl refl
Contains-end (r ∷ rs) n = inr (Contains-end rs n)

module _ {N : Type 0} where
  -- Every active ball is in the array, in the order in which the balls were made, and no ball twice.
  pub record IsListed (balls : Balls N) : Type 0 where
    pub rising : Rising 0 balls.snowballs (length balls.objects)
    pub complete : (r : ℕ) → is_active r balls ≡ true → Contains r balls.snowballs

  -- What one ball's turn does to the activity of the others.
  abbrev pub Settles : ℕ → Balls N → Balls N → Type 0
  Settles r before after =
      (length after.objects ≡ length before.objects)
      × ((q : ℕ) → is_active q after ≡ true → is_active q before ≡ true)
      × ((q : ℕ) → r ≢ q → is_active q after ≡ is_active q before)

  pub modify-Settles :
      (r : ℕ) (f : Snowball N → Snowball N) (balls : Balls N)
      → ((b : Snowball N) → (f b).active ≡ true → b.active ≡ true)
      → Settles r balls (record balls { objects = modify balls.objects r f })
  unfolding is_active
  modify-Settles r f balls h = (
    length-modify balls.objects r f,
    λ q on. (elim (Option-cases (get_elem? (modify balls.objects r f) q)) [
      | inl lost ↦ ground arith
      | inr (c, there) ↦
          let (b, here, why) = get_elem?-modify_cases balls.objects r q f c there in
          elim why [ inl (e, i) ↦ ground (arith, h b) | inr (e, i) ↦ ground arith ]
    ]),
    λ q ne.
        ap (λ (o : Option (Snowball N)). elim o [ none ↦ false | some b ↦ b.active ])
          (get_elem?-modify_ne balls.objects r q f ne),
  )

  pub destroy-Settles : (r : ℕ) (balls : Balls N) → Settles r balls (destroy r balls)
  unfolding destroy is_active
  destroy-Settles r balls = elim (Option-cases (get_elem? balls.objects r)) [
    | inl lost ↦ rw (lost, destroy) (refl, λ q on. on, λ q ne. refl)
    | inr (b, here) ↦ elim (Bool-cases b.active) [
      | inl alive ↦
          let settled =
            modify-Settles r deactivate balls (λ b h. unfold deactivate in ground arith) in
          rw (here, destroy, alive) settled
      | inr over ↦ rw (here, destroy, over) (refl, λ q on. on, λ q ne. refl)
    ]
  ]

  destroy-array : (r : ℕ) (balls : Balls N) → (destroy r balls).snowballs ≡ balls.snowballs
  unfolding destroy
  destroy-array r balls = ground arith

  pub destroy-IsListed : (r : ℕ) (balls : Balls N) → IsListed balls → IsListed (destroy r balls)
  destroy-IsListed r balls v =
      let (size, on, same) = destroy-Settles r balls in
      record {
        rising = rw (destroy-array r balls, size) v.rising;
        complete = λ q h. rw (destroy-array r balls) (v.complete q (on q h));
      }

  -- A new ball goes to the end of the store and of the array.
  pub add_snowball-IsListed :
      (b : Snowball N) (balls : Balls N) → IsListed balls → IsListed (add_snowball b balls)
  unfolding add_snowball is_active
  add_snowball-IsListed b balls v = record {
    rising =
        rw (length-append balls.objects (b ∷ []), add-one)
          (Rising-end 0 balls.snowballs (length balls.objects) v.rising);
    complete = λ q h. elim (Option-cases (get_elem? (balls.objects ++ b ∷ []) q)) [
      | inl lost ↦ ground arith
      | inr (c, there) ↦ elim (get_elem?-append_cases balls.objects b q c there) [
        | inl old ↦ Contains-append q balls.snowballs _ (v.complete q (ground arith))
        | inr (last, same) ↦ rw last (Contains-end balls.snowballs (length balls.objects))
      ]
    ];
  }
