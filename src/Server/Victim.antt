-- ===== src/Server/Victim.antt =====
-- Whom the search of Server/Flight finds among the players.
use snow_brawl_game.Base.{
  ℕ, zero, suc, ◌≡◌, refl, sym, ap, ◌∙◌, ◌⊎◌, inl, inr, true, false, List, [], ◌∷◌, Option, none,
  some, Bool-cases, Option-cases, get_elem?,
}
use mathlib.Core.Path.{subst}
use snow_brawl_game.Base.Text.{Text}
use snow_brawl_game.Engine.{Engine, Vec3, StrictOrder}
use snow_brawl_game.Server.Protocol.{PlayerSnapshot}
use snow_brawl_game.Server.Flight.{Best, sim_steps, first_hit, passes, better, consider, find_best}

same_some : {A : Type 0} (o : Option A) (a b : A) → o ≡ some a → o ≡ some b → a ≡ b
same_some o a b h k = cc

module _ {N : Type 0} ⦃e : Engine N⦄ where
  open e use {lt}

  -- The ball can hit the player, and first does at time `t`.
  abbrev pub Struck : ℕ → Text → Vec3 N → Vec3 N → PlayerSnapshot N → N → Type 0
  Struck now shooter origin v0 p t =
      (passes now shooter p ≡ false) × (first_hit origin v0 p.pos (suc sim_steps) 0 ≡ some t)

  -- The result is the one before or sooner.
  abbrev NoLater : Option (Best N) → Best N → Type 0
  NoLater none b = Unit
  NoLater (some a) b = (a.time ≡ b.time) ⊎ (lt b.time a.time ≡ true)

  -- What one round does: it stays with what it had, which is not later than this player's hit, or
  -- takes a sooner hit of this player.
  abbrev Round :
      ℕ → Text → Vec3 N → Vec3 N → PlayerSnapshot N → Option (Best N) → Option (Best N) → Type 0
  Round now shooter origin v0 p best after =
      ((after ≡ best)
        × ((t : N)
            → Struck now shooter origin v0 p t
            → (b : Best N) × (best ≡ some b) × (lt t b.time ≡ false)))
      ⊎ ((b : Best N) × (after ≡ some b)
          × (b.victim ≡ p)
          × Struck now shooter origin v0 p b.time
          × NoLater best b)

  better-Round :
      (now : ℕ) (shooter : Text) (origin v0 : Vec3 N) (p : PlayerSnapshot N)
      (best : Option (Best N)) (t : N)
      → Struck now shooter origin v0 p t
      → Round now shooter origin v0 p best (better best p t)
  unfolding better
  better-Round now shooter origin v0 p none t struck =
      inr (record { victim = p; time = t }, refl, refl, struck, tt)
  better-Round now shooter origin v0 p (some b) t struck = elim (Bool-cases (lt t b.time)) [
    | inl sooner ↦
        inr (record { victim = p; time = t }, rw (sooner, better) refl, refl, struck, inr sooner)
    | inr later ↦ inl (
      rw (later, better) refl,
      λ t' s. (b, refl, rw (same_some (first_hit origin v0 p.pos _ 0) t' t s.1 struck.1) later),
    )
  ]

  consider-Round :
      (now : ℕ) (shooter : Text) (origin v0 : Vec3 N) (p : PlayerSnapshot N)
      (best : Option (Best N))
      → Round now shooter origin v0 p best (consider now shooter origin v0 p best)
  unfolding consider
  consider-Round now shooter origin v0 p best = elim (Bool-cases (passes now shooter p)) [
    | inl skipped ↦ inl (rw (skipped, consider) refl, λ t s. cc (s.0))
    | inr tried ↦ elim (Option-cases (first_hit origin v0 p.pos (suc sim_steps) 0)) [
      | inl missed ↦ inl (rw (tried, missed, consider) refl, λ t s. cc (s.1))
      | inr (t, struck) ↦
          (let same : consider now shooter origin v0 p best ≡ better best p t =
              rw (tried, struck, consider) refl in
            rw same (better-Round now shooter origin v0 p best t (tried, struck)))
    ]
  ]

  -- What the search ends with.
  pub record Winner (now : ℕ) (shooter : Text) (origin v0 : Vec3 N)
      (players : List (PlayerSnapshot N)) (b : Best N) : Type 0 where
    pub listed : (n : ℕ) × (get_elem? players n ≡ some b.victim)
    pub struck : Struck now shooter origin v0 b.victim b.time
    pub least :
        (n : ℕ) (p : PlayerSnapshot N) (t : N)
        → get_elem? players n ≡ some p
        → Struck now shooter origin v0 p t
        → lt t b.time ≡ false

  -- The search from any start.
  abbrev From :
      ℕ → Text → Vec3 N → Vec3 N → List (PlayerSnapshot N) → Option (Best N) → Best N → Type 0
  From now shooter origin v0 players best b =
      NoLater best b
      × ((best ≡ some b)
          ⊎ ((n : ℕ) × (get_elem? players n ≡ some b.victim)
              × Struck now shooter origin v0 b.victim b.time))
      × ((n : ℕ) (p : PlayerSnapshot N) (t : N)
          → get_elem? players n ≡ some p
          → Struck now shooter origin v0 p t
          → lt t b.time ≡ false)

  not_sooner :
      (t : N) (a b : Best N)
      → StrictOrder lt
      → lt t a.time ≡ false
      → NoLater (some a) b
      → lt t b.time ≡ false
  not_sooner t a b order h (inl e) = rw (← e) h
  not_sooner t a b order h (inr sooner) = elim (Bool-cases (lt t b.time)) [
    | inl earlier ↦ cc (order.transitive t b.time a.time earlier sooner)
    | inr later ↦ later
  ]

  NoLater-trans :
      (best : Option (Best N)) (a b : Best N)
      → StrictOrder lt
      → NoLater best a
      → NoLater (some a) b
      → NoLater best b
  NoLater-trans none a b order h k = tt
  NoLater-trans (some c) a b order (inl e) (inl e') = inl (e ∙ e')
  NoLater-trans (some c) a b order (inl e) (inr s) = inr (rw e s)
  NoLater-trans (some c) a b order (inr s) (inl e) = inr (rw (← e) s)
  NoLater-trans (some c) a b order (inr s) (inr s') =
      inr (order.transitive b.time a.time c.time s' s)

  -- What the first player's round makes sure of.
  Round-least :
      (now : ℕ) (shooter : Text) (origin v0 : Vec3 N) (p : PlayerSnapshot N)
      (best after : Option (Best N)) (b : Best N) (t : N)
      → StrictOrder lt
      → Round now shooter origin v0 p best after
      → NoLater after b
      → Struck now shooter origin v0 p t
      → lt t b.time ≡ false
  Round-least now shooter origin v0 p best after b t order (inl (same, covered)) no_later struck =
      let (a, is, later) = covered t struck in
      not_sooner t a b order later (subst (λ o. NoLater o b) (same ∙ is) no_later)
  Round-least now shooter origin v0 p best after b t order (inr (a, is, whose, hit, sooner))
        no_later struck =
      let at_once : t ≡ a.time =
        same_some (first_hit origin v0 p.pos (suc sim_steps) 0) t a.time struck.1 hit.1 in
      not_sooner t a b order (rw at_once (order.irreflexive a.time))
        (subst (λ o. NoLater o b) is no_later)

  Round-NoLater :
      (now : ℕ) (shooter : Text) (origin v0 : Vec3 N) (p : PlayerSnapshot N)
      (best after : Option (Best N)) (b : Best N)
      → StrictOrder lt
      → Round now shooter origin v0 p best after
      → NoLater after b
      → NoLater best b
  Round-NoLater now shooter origin v0 p best after b order (inl (same, covered)) no_later =
      rw (← same) no_later
  Round-NoLater now shooter origin v0 p best after b order (inr (a, is, whose, hit, sooner))
        no_later =
      NoLater-trans best a b order sooner (subst (λ o. NoLater o b) is no_later)

  -- Where the winner of a round comes from.
  Round-source :
      (now : ℕ) (shooter : Text) (origin v0 : Vec3 N) (p : PlayerSnapshot N)
      (best after : Option (Best N)) (b : Best N)
      → Round now shooter origin v0 p best after
      → after ≡ some b
      → (best ≡ some b) ⊎ ((some p ≡ some b.victim) × Struck now shooter origin v0 b.victim b.time)
  Round-source now shooter origin v0 p best after b (inl (same, covered)) h = inl (sym same ∙ h)
  Round-source now shooter origin v0 p best after b (inr (a, is, whose, hit, sooner)) h =
      let same : a ≡ b = same_some after a b is h in
      inr (ap some (sym whose ∙ ap (λ (x : Best N). x.victim) same), rw (← same) (rw whose hit))

  find_best-From :
      (now : ℕ) (shooter : Text) (origin v0 : Vec3 N) (players : List (PlayerSnapshot N))
      (best : Option (Best N)) (b : Best N)
      → StrictOrder lt
      → find_best now shooter origin v0 players best ≡ some b
      → From now shooter origin v0 players best b
  unfolding find_best
  find_best-From now shooter origin v0 [] best b order h =
      (rw h (inl refl), inl h, λ n p t there struck. cc)
  find_best-From now shooter origin v0 (p ∷ players) best b order h =
      let after = consider now shooter origin v0 p best in
      let round = consider-Round now shooter origin v0 p best in
      let (no_later, why, least) = find_best-From now shooter origin v0 players after b order h in
      (
        Round-NoLater now shooter origin v0 p best after b order round no_later,
        elim why [
          | inl start ↦ elim (Round-source now shooter origin v0 p best after b round start) [
            | inl old ↦ inl old
            | inr (there, struck) ↦ inr (0, there, struck)
          ]
          | inr (n, there, struck) ↦ inr (suc n, there, struck)
        ],
        λ n q t.
            elim n
              as (λ k.
                get_elem? (p ∷ players) k ≡ some q
                → Struck now shooter origin v0 q t
                → lt t b.time ≡ false) [
                  | zero ↦ λ there struck.
                      Round-least now shooter origin v0 p best after b t order round no_later
                        (rw (same_some (some p) p q refl there) struck)
                  | suc m ↦ λ there struck. least m q t there struck
                ],
      )

  -- For a strict order of times: when the search for a victim finds one, it is one of the players,
  -- neither the shooter nor dead with time to wait, the ball first hits it at the time found, and no
  -- other player who can be hit is hit sooner.
  pub find_best-Winner :
      (now : ℕ) (shooter : Text) (origin v0 : Vec3 N) (players : List (PlayerSnapshot N))
      (b : Best N)
      → StrictOrder lt
      → find_best now shooter origin v0 players none ≡ some b
      → Winner now shooter origin v0 players b
  find_best-Winner now shooter origin v0 players b order h =
      let (no_later, why, least) = find_best-From now shooter origin v0 players none b order h in
      elim why [
        | inl start ↦ cc
        | inr (n, there, struck) ↦ record { listed = (n, there); struck = struck; least = least }
      ]
