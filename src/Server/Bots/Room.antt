-- ===== src/Server/Bots/Room.antt =====
-- The bots of bot.ts beside the gateway: `initBots`, the turns of `updateBots`, and what is left of a
-- turn after each `await`. Turns of different bots may come in any order.
use snow_brawl_game.Base.{
  ℕ, List, [], ◌∷◌, ◌++◌, Option, none, some, ◌==◌, if◌then◌else◌, get_elem?, remove_at,
}
use snow_brawl_game.Base.Int.{pos}
use snow_brawl_game.Base.Text.{Text, Text-discrete}
use snow_brawl_game.Base.Dict
use snow_brawl_game.Engine.{Engine}
use snow_brawl_game.Server.Protocol.{PlayerSnapshot, Death, death}
use snow_brawl_game.Server.State.{Server, append_event}
use snow_brawl_game.Server.Game.{Flying}
use snow_brawl_game.Server.Shots.{land_ball, damaged}
use snow_brawl_game.Server.Gateway.{Hub, Action, act}
use snow_brawl_game.Server.Bots.{Bot}
use snow_brawl_game.Server.Bots.Turn.{
  BotDraws, Turn, over, shoots, init_bot, add_bot, publish_bot, update_bot,
}

-- What is left of a turn: the bot, the ball, its victim with the time of respawn, the time of the
-- shot, the snapshot and the time that the turn began with.
pub data Rest (N : Type 0) : Type 0 where
  lands : Text → Flying N → PlayerSnapshot N → ℕ → Rest N
  strikes : Text → Flying N → PlayerSnapshot N → ℕ → ℕ → PlayerSnapshot N → ℕ → Rest N
  settles : Text → ℕ → PlayerSnapshot N → ℕ → Rest N

pub record Room (N : Type 0) : Type 0 where
  pub hub : Hub N
  pub bots : List (Text × Bot N)
  pub rests : List (Rest N)

-- `initialises` has the rotation, the delay and the random numbers of one of the bots.
pub data Move (N : Type 0) : Type 0 where
  gateway : Action N → Move N
  initialises : ℕ → (ℕ → N) → N → N → ℕ → Move N
  takes_turn : ℕ → BotDraws N → Text → Move N
  goes_on : ℕ → ℕ → Move N

module _ {N : Type 0} where
  abbrev pub with_server : (Server N → Server N) → Room N → Room N
  with_server f room = record room { hub = record (room.hub) { server = f room.hub.server } }

  abbrev pub put_bot : Bot N → Room N → Room N
  put_bot bot room = record room { bots = Dict.set Text-discrete bot.id bot room.bots }

  -- A turn's result, with what is left of it.
  abbrev pub after_turn : ℕ → Room N → Server N × Bot N × Turn N → Room N
  after_turn now room (s, bot, over) = put_bot bot (with_server (λ _. s) room)
  after_turn now room (s, bot, shoots ball snapshot) = put_bot bot (
      with_server (λ _. s)
        (record room { rests = room.rests ++ lands bot.id ball snapshot now ∷ [] }))

  -- `botShoot` up to its second `await`; `none` when the ball hits nobody.
  abbrev pub after_landing :
      ℕ
      → Text
      → Flying N
      → PlayerSnapshot N
      → ℕ
      → Room N
      → Server N × Option (PlayerSnapshot N × ℕ)
      → Option (Room N)
  after_landing shot id ball snapshot now room (s, none) = none
  after_landing shot id ball snapshot now room (s, some (victim, respawn_at)) = some (
      with_server (λ _. s)
        (record room {
          rests = room.rests ++ strikes id ball victim respawn_at shot snapshot now ∷ [];
        }))

module _ {N : Type 0} ⦃e : Engine N⦄ where
  -- `bot.lastShotAt = now` and the end of the turn, with the bot as it is by then.
  unfoldable pub settle : Text → ℕ → PlayerSnapshot N → ℕ → Room N → Room N
  unfolding publish_bot
  settle id shot snapshot now room = elim (Dict.get Text-discrete id room.bots) [
    | none ↦ room
    | some bot ↦
        (let rested = record bot { last_shot_at = e.decimal (pos shot) 0 } in
          put_bot rested (with_server (publish_bot now snapshot rested) room))
  ]

  unfoldable pub bot_death : Flying N → PlayerSnapshot N → ℕ → Text → Death
  bot_death ball victim respawn_at name = record {
    victim_id = victim.id;
    victim_name = victim.name;
    attacker_id = ball.shooter;
    attacker_name = name;
    shot_id = ball.shot_id;
    respawn_at = respawn_at;
  }

  -- `bot.name`; every bot in the map keeps its own.
  abbrev pub name_of : Text → Room N → Text
  name_of id room = elim (Dict.get Text-discrete id room.bots) [ none ↦ [] | some bot ↦ bot.name ]

  unfoldable pub run_rest : ℕ → Rest N → Room N → Room N
  unfolding land_ball settle damaged append_event bot_death
  run_rest clock (lands id ball snapshot now) room =
      elim (after_landing clock id ball snapshot now room (land_ball clock ball room.hub.server)) [
        | none ↦ settle id clock snapshot now room
        | some waiting ↦ waiting
      ]
  run_rest clock (strikes id ball victim respawn_at shot snapshot now) room =
      if damaged victim == 0
      then with_server
          (append_event clock (death (bot_death ball victim respawn_at (name_of id room))))
          (record room { rests = room.rests ++ settles id shot snapshot now ∷ [] })
      else settle id shot snapshot now room
  run_rest clock (settles id shot snapshot now) room = settle id shot snapshot now room

  unfoldable pub move : Move N → Room N → Room N
  unfolding act init_bot add_bot update_bot remove_at run_rest
  move (gateway a) room = record room { hub = act a room.hub }
  move (initialises now draws turn delay i) room =
      let bot = init_bot room.hub.world_seed now draws turn delay i in
      put_bot bot (with_server (add_bot now bot) room)
  move (takes_turn now d id) room = elim (Dict.get Text-discrete id room.bots) [
    | none ↦ room
    | some bot ↦ after_turn now room (update_bot room.hub.world_seed now d bot room.hub.server)
  ]
  move (goes_on clock i) room = elim (get_elem? room.rests i) [
    | none ↦ room
    | some rest ↦ run_rest clock rest (record room { rests = remove_at i room.rests })
  ]

  unfoldable pub play_room : List (Move N) → Room N → Room N
  unfolding move
  play_room [] room = room
  play_room (m ∷ moves) room = play_room moves (move m room)
