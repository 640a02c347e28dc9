-- ===== src/Server/Bots/Turn.antt =====
-- A bot's turn in `updateBots` of bot.ts, cut where it waits. `bot.pos` and the cached position are one
-- object, so a step of the bot moves both; velocities and queued states are copied when
-- they are published.
use snow_brawl_game.Base.{
  ℕ, ◌+◌, Bool, false, ◌&&◌, ◌||◌, List, [], ◌∷◌, Option, none, some, leb, ltb, if◌then◌else◌,
  or_else,
}
use snow_brawl_game.Base.Int.{pos}
use snow_brawl_game.Base.Text.{Text, utf16, starts_with}
use snow_brawl_game.Engine.{Engine, Vec3}
use snow_brawl_game.Server.Utils.{norm}
use snow_brawl_game.Server.Protocol.{PlayerSnapshot, snowball, respawn}
use snow_brawl_game.Server.State.{
  Server, values, player_of, cache_player, revise, append_event, enqueue_pending_state,
}
use snow_brawl_game.Server.Game.{Flying, pending_of, zero_vec}
use snow_brawl_game.Server.Shots.{ball_event}
use snow_brawl_game.Server.Bots.{
  Bot, bot_id, bot_name, random_spawn_pos, random_move_target, bot_terrain_height, within, map_half,
}

-- `Math.random` in order, and `crypto.randomUUID`.
pub record BotDraws (N : Type 0) : Type 0 where
  pub numbers : ℕ → N
  pub uuid : Text

-- What a turn waits for, if it does: the flight of a ball, with the snapshot the turn began with.
pub data Turn (N : Type 0) : Type 0 where
  over : Turn N
  shoots : Flying N → PlayerSnapshot N → Turn N

module _ {N : Type 0} ⦃e : Engine N⦄ where
  open e use {decimal, add, sub, mul, div, lt, pi, sqrt, atan2, is_finite}

  -- One round of the loop of `initBots`: the bot, and its snapshot.
  unfoldable pub init_bot : ℕ → ℕ → (ℕ → N) → N → N → ℕ → Bot N
  unfolding random_spawn_pos
  init_bot seed now draws turn delay i = record {
    id = bot_id i;
    name = bot_name i;
    pos = random_spawn_pos seed draws;
    rot_y = mul (mul turn pi) (decimal (pos 2) 0);
    vel = zero_vec;
    hp = 100;
    target_pos = none;
    last_shot_at = add (decimal (pos now) 0) (mul delay (decimal (pos 10000) 0));
    move_timer = now;
  }

  unfoldable pub bot_snapshot : ℕ → Bot N → PlayerSnapshot N
  bot_snapshot now bot = record {
    id = bot.id;
    name = bot.name;
    pos = bot.pos;
    rot_y = bot.rot_y;
    vel = bot.vel;
    hp = bot.hp;
    crouch = false;
    dead_until = some 0;
    updated_at = now;
    ping_ms = none;
  }

  unfoldable pub add_bot : ℕ → Bot N → Server N → Server N
  unfolding bot_snapshot
  add_bot now bot s = cache_player bot.id (bot_snapshot now bot) s

  -- `dist < minDist`, where no distance yet stands for `Infinity`.
  unfoldable pub is_closer : N → Option (PlayerSnapshot N × N) → Bool
  is_closer dist none = is_finite dist
  is_closer dist (some best) = lt dist best.1

  -- One round of `findNearestPlayer`.
  unfoldable pub nearer :
      Vec3 N → PlayerSnapshot N → Option (PlayerSnapshot N × N) → Option (PlayerSnapshot N × N)
  unfolding is_closer
  nearer from player best =
      let dx = sub player.pos.x from.x in
      let dz = sub player.pos.z from.z in
      let dist = sqrt (add (mul dx dx) (mul dz dz)) in
      if starts_with (utf16 "bot-") player.id || leb player.hp 0
      then best
      else if is_closer dist best
      then some (player, dist)
      else best

  unfoldable pub find_nearest :
      Vec3 N
      → List (PlayerSnapshot N)
      → Option (PlayerSnapshot N × N)
      → Option (PlayerSnapshot N × N)
  unfolding nearer
  find_nearest from [] best = best
  find_nearest from (p ∷ players) best = find_nearest from players (nearer from p best)

  -- The walk of a turn: a new target if there is none or it is old, and a step towards it.
  -- `MOVE_INTERVAL` is 3000.
  unfoldable pub choose_target : ℕ → ℕ → (ℕ → N) → Bot N → Bot N
  unfolding random_move_target
  choose_target seed now draws bot =
      let fresh = record bot {
        target_pos = some (random_move_target seed draws bot.pos);
        move_timer = now;
      } in
      elim bot.target_pos [
        | none ↦ fresh
        | some _ ↦ if ltb (bot.move_timer + 3000) now then fresh else bot
      ]

  -- `BOT_SPEED` is 3, and a turn lasts 0.05 seconds.
  unfoldable pub walk_towards : ℕ → Vec3 N → Bot N → Bot N
  unfolding within bot_terrain_height
  walk_towards seed target bot =
      let dx = sub target.x bot.pos.x in
      let dz = sub target.z bot.pos.z in
      let dist = sqrt (add (mul dx dx) (mul dz dz)) in
      let vx = mul (div dx dist) (decimal (pos 3) 0) in
      let vz = mul (div dz dist) (decimal (pos 3) 0) in
      let x = within map_half (add bot.pos.x (mul vx (decimal (pos 5) 2))) in
      let z = within map_half (add bot.pos.z (mul vz (decimal (pos 5) 2))) in
      if lt (decimal (pos 5) 1) dist
      then record bot {
        vel = record (bot.vel) { x = vx; z = vz };
        rot_y = atan2 dx dz;
        pos = record { x = x; y = bot_terrain_height seed x z; z = z };
      }
      else record bot {
        vel = record (bot.vel) { x = decimal (pos 0) 0; z = decimal (pos 0) 0 };
        target_pos = none;
      }

  unfoldable pub walk : ℕ → ℕ → (ℕ → N) → Bot N → Bot N
  unfolding choose_target walk_towards
  walk seed now draws bot =
      let ready = choose_target seed now draws bot in
      elim ready.target_pos [ none ↦ ready | some target ↦ walk_towards seed target ready ]

  unfoldable pub revive_bot : Vec3 N → Bot N → Bot N
  revive_bot spawn bot = record bot { pos = spawn; hp = 100; vel = zero_vec; target_pos = none }

  -- The end of a turn: `snapshot` is the one that the turn began with.
  unfoldable pub publish_bot : ℕ → PlayerSnapshot N → Bot N → Server N → Server N
  unfolding enqueue_pending_state pending_of
  publish_bot now snapshot bot s =
      let updated = record snapshot {
        pos = bot.pos;
        rot_y = bot.rot_y;
        vel = bot.vel;
        updated_at = now;
      } in
      enqueue_pending_state (record (pending_of updated none) { id = bot.id; crouch = false })
        (cache_player bot.id updated s)

  -- The ball that `botShoot` aims at a player, from 1.3 above the bot's feet to 1.0 above the player's.
  unfoldable pub aim : Text → Bot N → PlayerSnapshot N → Flying N
  unfolding norm
  aim uuid bot target =
      let eye = add bot.pos.y (decimal (pos 13) 1) in
      record {
        shooter = bot.id;
        shot_id = uuid;
        origin = record { x = bot.pos.x; y = eye; z = bot.pos.z };
        dir = norm (record {
          x = sub target.pos.x bot.pos.x;
          y = sub (add target.pos.y (decimal (pos 10) 1)) eye;
          z = sub target.pos.z bot.pos.z;
        });
      }

  -- A turn of a living bot after its walk. `SHOT_INTERVAL` is 10000.
  unfoldable pub act_bot :
      ℕ → Text → PlayerSnapshot N → Bot N → Server N → Server N × Bot N × Turn N
  unfolding find_nearest aim append_event ball_event publish_bot
  act_bot now uuid snapshot bot s =
      if lt (decimal (pos 10000) 0) (sub (decimal (pos now) 0) bot.last_shot_at)
      then elim (find_nearest bot.pos (values s.players_cache) none) [
        | none ↦
            (let rested = record bot { last_shot_at = decimal (pos now) 0 } in
              (publish_bot now snapshot rested s, rested, over))
        | some found ↦
            (let target = found.0 in
              let turned = record bot {
                rot_y = atan2 (sub target.pos.x bot.pos.x) (sub target.pos.z bot.pos.z);
              } in
              let ball = aim uuid turned target in
              (append_event now (snowball (ball_event ball)) s, turned, shoots ball snapshot))
      ]
      else (publish_bot now snapshot bot s, bot, over)

  -- A whole turn, up to the first `await`.
  unfoldable pub update_bot : ℕ → ℕ → BotDraws N → Bot N → Server N → Server N × Bot N × Turn N
  unfolding revive_bot append_event walk revise act_bot
  update_bot seed now d bot s = elim (player_of bot.id s.players_cache) [
    | none ↦ (s, bot, over)
    | some snapshot ↦
        if leb snapshot.hp 0 && leb (or_else snapshot.dead_until 0) now
        then (let spawn = random_spawn_pos seed d.numbers in
            (
              append_event now (respawn bot.id spawn (some 100)) (
                  cache_player bot.id
                    (record snapshot {
                      pos = spawn;
                      hp = 100;
                      dead_until = some 0;
                      updated_at = now;
                    })
                    s),
              revive_bot spawn bot,
              over,
            ))
        else if leb snapshot.hp 0
        then (s, bot, over)
        else (let walked = walk seed now d.numbers bot in
            let moved = record s {
              players_cache = revise bot.id (λ p. record p { pos = walked.pos }) s.players_cache;
            } in
            act_bot now d.uuid snapshot walked moved)
  ]
