-- ===== src/Snowball/Sweep.antt =====
-- The loop of `animate` in client_src/init.js over the snowballs: what stays in the array.
use snow_brawl_game.Base.{
  ℕ, suc, ◌≡◌, ◌↔◌, refl, sym, ap, ◌∙◌, inl, inr, true, List, [], ◌∷◌, arith, Bool-cases,
  Option-cases, length, get_elem?, modify,
}
use snow_brawl_game.Engine.{Engine}
use snow_brawl_game.Snowball.{Box, Balls, fly, stopped, update, is_active, sweep, update_snowballs}
use snow_brawl_game.Snowball.Listed.{
  Contains, Rising, Rising-mono, Rising-le, IsListed, Settles, modify-Settles, destroy-Settles,
}

module _ {N : Type 0} ⦃e : Engine N⦄ (seed : ℕ) (boxes : List (Box N)) (dt : N) where
  update-Settles : (r : ℕ) (balls : Balls N) → Settles r balls (update seed boxes dt r balls)
  unfolding update
  update-Settles r balls = elim (Option-cases (get_elem? balls.objects r)) [
    | inl lost ↦ rw (lost, update) (refl, λ q on. on, λ q ne. refl)
    | inr (b, here) ↦
        let flown : Settles r balls (record balls { objects = modify balls.objects r (fly dt) }) =
          modify-Settles r (fly dt) balls (λ c h. unfold fly in h) in
        elim (Bool-cases b.active) [
          | inr over ↦ rw (here, update, over) (refl, λ q on. on, λ q ne. refl)
          | inl alive ↦ elim (Bool-cases (stopped seed boxes (fly dt b))) [
            | inl hit ↦
                let moved = record balls { objects = modify balls.objects r (fly dt) } in
                let gone = destroy-Settles r moved in
                rw (here, update, alive, hit)
                  (
                    gone.0 ∙ flown.0,
                    λ q on. flown.1 q (gone.1 q on),
                    λ q ne. gone.2 q ne ∙ flown.2 q ne,
                  )
            | inr free ↦ rw (here, update, alive, free) flown
          ]
        ]
  ]

  sweep-settled :
      (rs : List ℕ) (balls : Balls N)
      → let after = (sweep seed boxes dt rs balls).1 in
        (length after.objects ≡ length balls.objects)
        × ((q : ℕ) → is_active q after ≡ true → is_active q balls ≡ true)
  unfolding sweep
  sweep-settled [] balls = (refl, λ q on. on)
  sweep-settled (r ∷ rs) balls =
      let (size, on) = sweep-settled rs balls in
      let (same, kept, _) = update-Settles r (sweep seed boxes dt rs balls).1 in
      (same ∙ size, λ q h. on q (kept q h))

  sweep-Rising :
      (low : ℕ) (rs : List ℕ) (n : ℕ) (balls : Balls N)
      → Rising low rs n
      → Rising low (sweep seed boxes dt rs balls).0 n
  unfolding sweep
  sweep-Rising low [] n balls v = v
  sweep-Rising low (r ∷ rs) n balls v =
      let rest = sweep-Rising (suc r) rs n balls v.1 in
      elim (Bool-cases (is_active r (update seed boxes dt r (sweep seed boxes dt rs balls).1))) [
        | inl on ↦ rw on (v.0, rest)
        | inr off ↦ rw off (Rising-mono low (suc r) _ n (omega (arith, v.0)) rest)
      ]

  -- A reference stays in the array exactly if its ball is active in the end.
  sweep-Contains :
      (low : ℕ) (rs : List ℕ) (n q : ℕ) (balls : Balls N)
      → Rising low rs n
      → let (kept, after) = sweep seed boxes dt rs balls in
        Contains q kept ↔ (Contains q rs × (is_active q after ≡ true))
  unfolding sweep
  sweep-Contains low [] n q balls v = (λ c. absurd c, λ c. c.0)
  sweep-Contains low (r ∷ rs) n q balls v =
      let (to, from) = sweep-Contains (suc r) rs n q balls v.1 in
      let (rest, later) = sweep seed boxes dt rs balls in
      let after = update seed boxes dt r later in
      let (_, kept, same) = update-Settles r later in
      let tail : Contains q rest → Contains q rs × (is_active q after ≡ true) = λ c.
        let past = Rising-le (suc r) rest n q (sweep-Rising (suc r) rs n balls v.1) c in
        let (m, on) = to c in (m, same q (omega arith) ∙ on) in
      elim (Bool-cases (is_active r after)) [
        | inl on ↦ rw on (
          elim [
            | inl here ↦ (inl here, sym (ap (λ (i : ℕ). is_active i after) here) ∙ on)
            | inr c ↦ (inr (tail c).0, (tail c).1)
          ],
          λ p. elim p.0 [ inl here ↦ inl here | inr m ↦ inr (from (m, kept q p.1)) ],
        )
        | inr off ↦ rw off (
          λ c. (inr (tail c).0, (tail c).1),
          λ p. elim p.0 [ inl here ↦ absurd (cc p.1) | inr m ↦ from (m, kept q p.1) ],
        )
      ]

  pub update_snowballs-IsListed :
      (balls : Balls N) → IsListed balls → IsListed (update_snowballs seed boxes dt balls)
  unfolding update_snowballs is_active
  update_snowballs-IsListed balls v =
      let (size, on) = sweep-settled balls.snowballs balls in
      record {
        rising = rw size (sweep-Rising 0 balls.snowballs (length balls.objects) balls v.rising);
        complete = λ q h.
            (sweep-Contains 0 balls.snowballs (length balls.objects) q balls v.rising).1
              (v.complete q (on q h), h);
      }

-- After the loop of a frame the array holds exactly the balls that are still active, no ball twice
-- and in the order in which they were made, provided that it held every active ball so before.
pub update_snowballs-Contains :
    {N : Type 0} ⦃e : Engine N⦄ (seed : ℕ) (boxes : List (Box N)) (dt : N) (balls : Balls N)
    → IsListed balls
    → let after = update_snowballs seed boxes dt balls in
      Rising 0 after.snowballs (length after.objects)
      × ((q : ℕ) → Contains q after.snowballs ↔ (is_active q after ≡ true))
unfolding update_snowballs is_active
update_snowballs-Contains seed boxes dt balls v =
    let after = update_snowballs-IsListed seed boxes dt balls v in
    (
      after.rising,
      λ q. (
        λ c.
            ((sweep-Contains seed boxes dt 0 balls.snowballs (length balls.objects) q balls
                v.rising).0
              c).1,
        after.complete q,
      ),
    )
