-- ===== src/Server/Sound/Shots.antt =====
-- The invariant of the memory, for the three parts of a throw in game.ts.
use snow_brawl_game.Base.{
  ℕ, suc, refl, inl, inr, not, [], ◌∷◌, Option, none, some, arith, ◌==◌, Option-cases, Holds,
  if_cases, if◌then◌else◌,
}
use mathlib.Core.Path.{subst}
use snow_brawl_game.Base.Text.{Text, Text-discrete}
use snow_brawl_game.Base.Dict
use snow_brawl_game.Base.Every.{Every}
use snow_brawl_game.Engine.{Engine, Vec3}
use snow_brawl_game.Server.Utils.{is_finite_vec3, is_uuid_like}
use snow_brawl_game.Server.Protocol.{PlayerSnapshot, snowball, hit, death}
use snow_brawl_game.Server.State.{Players, Server, values, player_of, cache_player}
use snow_brawl_game.Server.Flight.{Best, passes, first_hit, sim_steps, better, consider, find_best}
use snow_brawl_game.Server.Game.{Draws, Flying, seen_shot_before}
use snow_brawl_game.Server.Shots.{
  velocity, throw_ball, damaged, updated_victim, hit_event, land_ball, finish_ball, record_kill,
  kill_record, attacker_name,
}
use snow_brawl_game.Server.Sound.{Fit, IsSound, append_event-IsSound, cache_player-IsSound}

module _ {N : Type 0} ⦃e : Engine N⦄ where
  pub throw_ball-IsSound :
      (now : ℕ) (d : Draws N) (client_id id : Text) (dir : Option (Vec3 N)) (s : Server N)
      → IsSound s
      → IsSound (throw_ball now d client_id id dir s).0
  unfolding throw_ball
  throw_ball-IsSound now d client_id id none s v = v
  throw_ball-IsSound now d client_id id (some dir) s v =
      if_cases (λ (r : Server N × Option (Flying N)). IsSound r.0) (not (is_finite_vec3 (some dir)))
        (λ bad. v)
        (λ good.
          (let shot_id = if is_uuid_like id then id else d.uuid in
            let seen = seen_shot_before now shot_id s.seen_shots in
            if_cases (λ (r : Server N × Option (Flying N)). IsSound r.0) seen.0 (λ again. v)
              (λ new. elim (Option-cases (player_of client_id s.players_cache)) [
                | inl gone ↦ rw gone v
                | inr (snap, found) ↦
                    rw found (
                      append_event-IsSound now (snowball _) (record s { seen_shots = seen.1 }) tt v)
              ])))

  better-Fit :
      (best : Option (Best N)) (p : PlayerSnapshot N) (t : N)
      → Fit p.id p
      → Holds (λ b. Fit b.victim.id b.victim) best
      → Holds (λ b. Fit b.victim.id b.victim) (better best p t)
  unfolding better
  better-Fit none p t h v = h
  better-Fit (some b) p t h v =
      if_cases (Holds (λ (b : Best N). Fit b.victim.id b.victim)) (e.lt t b.time) (λ sooner. h)
        (λ later. v)

  -- The victim is a cached player.
  consider-Fit :
      (now : ℕ) (shooter : Text) (origin v0 : Vec3 N) (k : Text) (p : PlayerSnapshot N)
      (best : Option (Best N))
      → Fit k p
      → Holds (λ b. Fit b.victim.id b.victim) best
      → Holds (λ b. Fit b.victim.id b.victim) (consider now shooter origin v0 p best)
  unfolding consider better
  consider-Fit now shooter origin v0 k p best h v =
      if_cases (Holds (λ b. Fit b.victim.id b.victim)) (passes now shooter p) (λ skipped. v)
        (λ tried. elim (Option-cases (first_hit origin v0 p.pos (suc sim_steps) 0)) [
          | inl missed ↦ rw missed v
          | inr (t, struck) ↦ rw struck (better-Fit best p t (refl, h.1, h.2) v)
        ])

  find_best-Fit :
      (now : ℕ) (shooter : Text) (origin v0 : Vec3 N) (ps : Players N) (best : Option (Best N))
      → Every Fit ps
      → Holds (λ b. Fit b.victim.id b.victim) best
      → Holds (λ b. Fit b.victim.id b.victim) (find_best now shooter origin v0 (values ps) best)
  unfolding find_best
  find_best-Fit now shooter origin v0 [] best all v = v
  find_best-Fit now shooter origin v0 ((k, p) ∷ ps) best (h, all) v =
      find_best-Fit now shooter origin v0 ps _ all (consider-Fit now shooter origin v0 k p best h v)

  pub updated_victim-Fit :
      (now : ℕ) (k : Text) (p : PlayerSnapshot N) → Fit k p → Fit k (updated_victim now p)
  unfolding updated_victim damaged
  updated_victim-Fit now k p (named, most, free) =
      (named, omega arith, λ alive. ground (arith, free))

  pub land_ball-IsSound :
      (now : ℕ) (ball : Flying N) (s : Server N) → IsSound s → IsSound (land_ball now ball s).0
  unfolding land_ball hit_event updated_victim
  land_ball-IsSound now ball s v =
      let search =
        find_best now ball.shooter ball.origin (velocity ball) (values s.players_cache) none in
      elim (Option-cases search) [
        | inl missed ↦ rw (missed, land_ball) v
        | inr (best, found) ↦
            (let fit : Fit best.victim.id best.victim =
                subst (Holds (λ (b : Best N). Fit b.victim.id b.victim)) found (
                  find_best-Fit now ball.shooter ball.origin (velocity ball) s.players_cache none
                    v.fit tt) in
              let after = updated_victim-Fit now best.victim.id best.victim fit in
              rw (found, land_ball)
                (append_event-IsSound now (hit (hit_event ball best.victim))
                  (cache_player best.victim.id (updated_victim now best.victim) s)
                  (
                    after.1,
                    rw
                        (Dict.get-set_self Text-discrete best.victim.id
                          (updated_victim now best.victim) s.players_cache)
                        (after.2),
                  )
                  (cache_player-IsSound best.victim.id (updated_victim now best.victim) s after v)))
      ]

  pub finish_ball-IsSound :
      (now : ℕ) (ball : Flying N) (victim : PlayerSnapshot N) (respawn_at : ℕ) (s : Server N)
      → IsSound s
      → IsSound (finish_ball now ball victim respawn_at s)
  unfolding finish_ball
  finish_ball-IsSound now ball victim respawn_at s v =
      if_cases IsSound (damaged victim == 0)
        (λ dead.
          append_event-IsSound now (death _)
            (record_kill
              (kill_record ball victim (attacker_name (player_of ball.shooter s.players_cache))) s)
            tt v)
        (λ lives. v)
