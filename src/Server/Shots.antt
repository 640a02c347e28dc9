-- ===== src/Server/Shots.antt =====
-- `serverHandleSnowball` of game.ts, cut where it waits: the throw, the hit, the death.
use snow_brawl_game.Base.{
  ℕ, ◌+◌, ◌-◌, not, [], ◌∷◌, ◌++◌, Option, none, some, ◌==◌, if◌then◌else◌, or_else,
}
use snow_brawl_game.Base.Int.{pos}
use snow_brawl_game.Base.Text.{Text, utf16, is_empty}
use snow_brawl_game.Engine.{Engine, Vec3}
use snow_brawl_game.Server.Utils.{is_uuid_like, is_finite_vec3, norm, vec3_mul, vec3_normalize}
use snow_brawl_game.Server.Protocol.{PlayerSnapshot, Snowball, Hit, Death, snowball, hit, death}
use snow_brawl_game.Server.State.{Server, KillRecord, values, player_of, cache_player, append_event}
use snow_brawl_game.Server.Flight.{find_best}
use snow_brawl_game.Server.Game.{Draws, Flying, seen_shot_before}

module _ {N : Type 0} where
  -- `Math.max(0, hp - damage)`: the subtraction of ℕ stops at 0. `damage` is 10.
  unfoldable pub damaged : PlayerSnapshot N → ℕ
  damaged victim = victim.hp - 10

  -- `respawnMs` is 3000.
  unfoldable pub updated_victim : ℕ → PlayerSnapshot N → PlayerSnapshot N
  unfolding damaged
  updated_victim now victim = record victim {
    hp = damaged victim;
    dead_until = some (if damaged victim == 0 then now + 3000 else or_else victim.dead_until 0);
    updated_at = now;
  }

  -- `attacker?.name || "Unknown"`.
  unfoldable pub attacker_name : Option (PlayerSnapshot N) → Text
  attacker_name none = utf16 "Unknown"
  attacker_name (some p) = if is_empty p.name then utf16 "Unknown" else p.name

  -- `recordKill` of storage.ts, as a note of the call.
  abbrev pub record_kill : KillRecord → Server N → Server N
  record_kill kill s = record s { kills = s.kills ++ kill ∷ [] }

module _ {N : Type 0} ⦃e : Engine N⦄ where
  open e use {decimal, add}

  -- `snowballSpeed` is 25.
  abbrev pub snowball_speed : N
  snowball_speed = decimal (pos 25) 0

  unfoldable pub ball_event : Flying N → Snowball N
  ball_event ball = record {
    id = ball.shot_id;
    owner_id = ball.shooter;
    origin = ball.origin;
    dir = ball.dir;
    speed = snowball_speed;
  }

  -- Up to the first `await`.
  unfoldable pub throw_ball :
      ℕ → Draws N → Text → Text → Option (Vec3 N) → Server N → Server N × Option (Flying N)
  unfolding is_finite_vec3 is_uuid_like seen_shot_before norm append_event ball_event
  throw_ball now d client_id id none s = (s, none)
  throw_ball now d client_id id (some dir) s =
      if not (is_finite_vec3 (some dir))
      then (s, none)
      else (let shot_id = if is_uuid_like id then id else d.uuid in
          let (seen, table) = seen_shot_before now shot_id s.seen_shots in
          if seen then (s, none) else elim (player_of client_id s.players_cache) [
            | none ↦ (record s { seen_shots = table }, none)
            | some snap ↦
                (let ball : Flying N = record {
                  shooter = client_id;
                  shot_id = shot_id;
                  origin = record {
                    x = snap.pos.x;
                    y = add snap.pos.y (decimal (pos 13) 1);
                    z = snap.pos.z;
                  };
                  dir = norm dir;
                } in
                  (
                    append_event now (snowball (ball_event ball)) (record s { seen_shots = table }),
                    some ball,
                  ))
          ])

  abbrev pub velocity : Flying N → Vec3 N
  velocity ball = vec3_mul ball.dir snowball_speed

  -- `knockUp` is 1.2 and `knockbackForce` 26.
  unfoldable pub final_impulse : Flying N → Vec3 N
  unfolding vec3_mul vec3_normalize
  final_impulse ball =
      let v0 = velocity ball in
      vec3_mul (vec3_normalize (record { x = v0.x; y = decimal (pos 12) 1; z = v0.z }))
        (decimal (pos 26) 0)

  unfoldable pub hit_event : Flying N → PlayerSnapshot N → Hit N
  unfolding final_impulse damaged
  hit_event ball victim = record {
    attacker_id = ball.shooter;
    victim_id = victim.id;
    impulse = final_impulse ball;
    victim_hp = damaged victim;
    shot_id = ball.shot_id;
  }

  -- From the first `await` to the second: the victim, if the ball hits one, and its time of respawn.
  unfoldable pub land_ball : ℕ → Flying N → Server N → Server N × Option (PlayerSnapshot N × ℕ)
  unfolding find_best updated_victim hit_event append_event damaged
  land_ball now ball s =
      let players = values s.players_cache in
      elim (find_best now ball.shooter ball.origin (velocity ball) players none) [
        | none ↦ (s, none)
        | some best ↦
            (let victim = best.victim in
              (
                append_event now (hit (hit_event ball victim))
                    (cache_player victim.id (updated_victim now victim) s),
                some (victim, now + 3000),
              ))
      ]

  unfoldable pub kill_record : Flying N → PlayerSnapshot N → Text → KillRecord
  kill_record ball victim name = record {
    attacker_id = ball.shooter;
    attacker_name = name;
    victim_id = victim.id;
    victim_name = victim.name;
    shot_id = ball.shot_id;
  }

  -- After the second `await`.
  unfoldable pub finish_ball : ℕ → Flying N → PlayerSnapshot N → ℕ → Server N → Server N
  unfolding damaged attacker_name kill_record append_event
  finish_ball now ball victim respawn_at s =
      if damaged victim == 0
      then (let name = attacker_name (player_of ball.shooter s.players_cache) in
          let what : Death = record {
            victim_id = victim.id;
            victim_name = victim.name;
            attacker_id = ball.shooter;
            attacker_name = name;
            shot_id = ball.shot_id;
            respawn_at = respawn_at;
          } in
          append_event now (death what) (record_kill (kill_record ball victim name) s))
      else s
