-- ===== src/Server/Sound/Room.antt =====
-- The invariant of the memory, for the runs of ws.ts and bot.ts together.
use snow_brawl_game.Base.{
  ℕ, ◌≡◌, refl, inl, inr, List, [], ◌∷◌, Option, none, some, arith, ◌==◌, Option-cases, if_cases,
  get_elem?, remove_at,
}
use snow_brawl_game.Base.Int.{pos}
use snow_brawl_game.Base.Text.{Text, Text-discrete}
use snow_brawl_game.Base.Dict
use snow_brawl_game.Base.Every.{get-Every}
use snow_brawl_game.Engine.{Engine}
use snow_brawl_game.Server.Protocol.{PlayerSnapshot, death}
use snow_brawl_game.Server.State.{Server}
use snow_brawl_game.Server.Shots.{land_ball, damaged}
use snow_brawl_game.Server.Bots.{Bot}
use snow_brawl_game.Server.Bots.Turn.{
  Turn, over, shoots, init_bot, bot_snapshot, add_bot, update_bot,
}
use snow_brawl_game.Server.Bots.Room.{
  Rest, Room, Move, lands, strikes, settles, gateway, initialises, takes_turn, goes_on, after_turn,
  after_landing, settle, run_rest, move, play_room, bot_death, name_of,
}
use snow_brawl_game.Server.Sound.{Fit, IsSound, append_event-IsSound, cache_player-IsSound}
use snow_brawl_game.Server.Sound.Shots.{land_ball-IsSound}
use snow_brawl_game.Server.Sound.Hub.{act-IsSound}
use snow_brawl_game.Server.Sound.Turns.{
  RestFits, Named, RoomIsSound, AllRests-append, AllRests-get, AllRests-remove, put_bot-Named,
  publish_bot-IsSound, TurnIsSound, update_bot-IsSound,
}

module _ {N : Type 0} ⦃e : Engine N⦄ where
  settle-IsSound :
      (id : Text) (shot : ℕ) (snapshot : PlayerSnapshot N) (now : ℕ) (room : Room N)
      → Fit id snapshot
      → RoomIsSound room
      → RoomIsSound (settle id shot snapshot now room)
  unfolding settle
  settle-IsSound id shot snapshot now room h v =
      elim (Option-cases (Dict.get Text-discrete id room.bots)) [
        | inl gone ↦ rw (gone, settle) v
        | inr (bot, found) ↦
            (let rested = record bot { last_shot_at = e.decimal (pos shot) 0 } in
              let same : bot.id ≡ id =
                get-Every Named Text-discrete id bot room.bots v.named found in
              rw (found, settle)
                (record {
                  memory =
                      publish_bot-IsSound now snapshot rested room.hub.server (rw same h) v.memory;
                  named = put_bot-Named rested room.bots v.named;
                  waiting = v.waiting;
                }))
      ]

  run_rest-IsSound :
      (clock : ℕ) (rest : Rest N) (room : Room N)
      → RestFits rest
      → RoomIsSound room
      → RoomIsSound (run_rest clock rest room)
  unfolding run_rest
  run_rest-IsSound clock (lands id ball snapshot now) room h v =
      landed (land_ball clock ball room.hub.server)
        (land_ball-IsSound clock ball room.hub.server v.memory)
    where
      landed :
          (r : Server N × Option (PlayerSnapshot N × ℕ))
          → IsSound r.0
          → RoomIsSound (elim (after_landing clock id ball snapshot now room r) [
            | none ↦ settle id clock snapshot now room
            | some next ↦ next
          ])
      landed (s, none) sound = settle-IsSound id clock snapshot now room h v
      landed (s, some what) sound = record {
        memory = sound;
        named = v.named;
        waiting = AllRests-append room.rests _ v.waiting h;
      }
  run_rest-IsSound clock (strikes id ball victim respawn_at shot snapshot now) room h v =
      if_cases RoomIsSound (damaged victim == 0)
        (λ dead. record {
          memory =
              append_event-IsSound clock
                (death (bot_death ball victim respawn_at (name_of id room))) room.hub.server tt
                v.memory;
          named = v.named;
          waiting = AllRests-append room.rests (settles id shot snapshot now) v.waiting h;
        })
        (λ lives. settle-IsSound id shot snapshot now room h v)
  run_rest-IsSound clock (settles id shot snapshot now) room h v =
      settle-IsSound id shot snapshot now room h v

  after_turn-IsSound :
      (now : ℕ) (room : Room N) (id : Text) (r : Server N × Bot N × Turn N)
      → TurnIsSound id r
      → RoomIsSound room
      → RoomIsSound (after_turn now room r)
  after_turn-IsSound now room id (s, bot, over) (sound, same, fits) v = record {
    memory = sound;
    named = put_bot-Named bot room.bots v.named;
    waiting = v.waiting;
  }
  after_turn-IsSound now room id (s, bot, shoots ball snapshot) (sound, same, fits) v = record {
    memory = sound;
    named = put_bot-Named bot room.bots v.named;
    waiting = AllRests-append room.rests (lands bot.id ball snapshot now) v.waiting (rw same fits);
  }

  move-IsSound : (m : Move N) (room : Room N) → RoomIsSound room → RoomIsSound (move m room)
  unfolding move add_bot bot_snapshot
  move-IsSound (gateway a) room v = record {
    memory = act-IsSound a room.hub v.memory;
    named = v.named;
    waiting = v.waiting;
  }
  move-IsSound (initialises now draws turn delay i) room v =
      let bot = init_bot room.hub.world_seed now draws turn delay i in
      record {
        memory =
            cache_player-IsSound bot.id (bot_snapshot now bot) room.hub.server
              (unfold init_bot in (refl, omega arith, λ alive. refl)) v.memory;
        named = put_bot-Named bot room.bots v.named;
        waiting = v.waiting;
      }
  move-IsSound (takes_turn now d id) room v =
      elim (Option-cases (Dict.get Text-discrete id room.bots)) [
        | inl gone ↦ rw (gone, move) v
        | inr (bot, found) ↦
            rw (found, move)
              (after_turn-IsSound now room bot.id
                (update_bot room.hub.world_seed now d bot room.hub.server)
                (update_bot-IsSound room.hub.world_seed now d bot room.hub.server v.memory) v)
      ]
  move-IsSound (goes_on clock i) room v = elim (Option-cases (get_elem? room.rests i)) [
    | inl none_such ↦ rw (none_such, move) v
    | inr (rest, waits) ↦
        rw (waits, move)
          (run_rest-IsSound clock rest (record room { rests = remove_at i room.rests })
            (AllRests-get room.rests i rest v.waiting waits)
            (record {
              memory = v.memory;
              named = v.named;
              waiting = AllRests-remove room.rests i v.waiting;
            }))
  ]

  -- For a sound room, after every run of the gateway and the bots, in every order of messages,
  -- closed connections, timers, bots' turns and continuations: every cached snapshot, of players and
  -- bots, has its key for id and at most 100 hp, one with hp left waits for no respawn, every
  -- connected client has a snapshot, the log holds consecutive numbers up to the latest, the events
  -- were broadcast with the numbers 1, 2, … in order up to it, every bot is listed under its own id,
  -- and every snapshot that a turn still holds is fit.
  pub play_room-IsSound :
      (moves : List (Move N)) (room : Room N)
      → RoomIsSound room
      → RoomIsSound (play_room moves room)
  unfolding play_room
  play_room-IsSound [] room v = v
  play_room-IsSound (m ∷ moves) room v =
      play_room-IsSound moves (move m room) (move-IsSound m room v)
