-- ===== src/Server/Sound/Turns.antt =====
-- The invariant of the memory, for the turns of the bots of bot.ts.
use snow_brawl_game.Base.{
  Holds, ℕ, zero, suc, ◌≡◌, refl, inl, inr, ◌&&◌, List, [], ◌∷◌, ◌++◌, none, some, arith, leb,
  or_else, Option-cases, if_cases, get_elem?, remove_at,
}
use snow_brawl_game.Base.Int.{pos}
use snow_brawl_game.Base.Text.{Text, Text-discrete}
use snow_brawl_game.Base.Dict
use snow_brawl_game.Base.Every.{Every, set-Every}
use snow_brawl_game.Engine.{Engine}
use snow_brawl_game.Server.Protocol.{PlayerSnapshot, snowball, respawn}
use snow_brawl_game.Server.State.{
  enqueue_pending_state, Server, player_of, cache_player, values, revise,
}
use snow_brawl_game.Server.Bots.{Bot, random_spawn_pos}
use snow_brawl_game.Server.Bots.Turn.{
  BotDraws, Turn, over, shoots, find_nearest, publish_bot, act_bot, update_bot, walk, choose_target,
  walk_towards, revive_bot,
}
use snow_brawl_game.Server.Bots.Room.{Rest, Room, lands, strikes, settles}
use snow_brawl_game.Server.Sound.{
  subst, Fit, IsSound, player_of-Fit, append_event-IsSound, cache_player-IsSound, revise-Every,
  has-revise,
}

module _ {N : Type 0} where
  -- The snapshot that a turn began with is fit under its bot's id.
  abbrev pub RestFits : Rest N → Type 0
  RestFits (lands id ball snapshot now) = Fit id snapshot
  RestFits (strikes id ball victim respawn_at shot snapshot now) = Fit id snapshot
  RestFits (settles id shot snapshot now) = Fit id snapshot

  abbrev pub AllRests : List (Rest N) → Type 0
  AllRests [] = Unit
  AllRests (r ∷ rests) = RestFits r × AllRests rests

  abbrev pub Named : Text → Bot N → Type 0
  Named k bot = bot.id ≡ k

  pub record RoomSound (s : Server N) (bots : List (Text × Bot N)) (rests : List (Rest N))
      : Type 0 where
    pub memory : IsSound s
    pub named : Every Named bots
    pub waiting : AllRests rests

  abbrev pub RoomIsSound : Room N → Type 0
  RoomIsSound room = RoomSound room.hub.server room.bots room.rests

  pub AllRests-append :
      (rests : List (Rest N)) (r : Rest N)
      → AllRests rests
      → RestFits r
      → AllRests (rests ++ r ∷ [])
  AllRests-append [] r all h = (h, tt)
  AllRests-append (x ∷ rests) r (here, all) h = (here, AllRests-append rests r all h)

  pub AllRests-get :
      (rests : List (Rest N)) (i : ℕ) (r : Rest N)
      → AllRests rests
      → get_elem? rests i ≡ some r
      → RestFits r
  AllRests-get [] i r all h = cc
  AllRests-get (x ∷ rests) zero r (here, all) h = subst (λ o. Holds RestFits o) h here
  AllRests-get (x ∷ rests) (suc i) r (here, all) h = AllRests-get rests i r all h

  pub AllRests-remove :
      (rests : List (Rest N)) (i : ℕ) → AllRests rests → AllRests (remove_at i rests)
  unfolding remove_at
  AllRests-remove [] i all = tt
  AllRests-remove (x ∷ rests) zero (here, all) = all
  AllRests-remove (x ∷ rests) (suc i) (here, all) = (here, AllRests-remove rests i all)

  pub put_bot-Named :
      (bot : Bot N) (bots : List (Text × Bot N))
      → Every Named bots
      → Every Named (Dict.set Text-discrete bot.id bot bots)
  put_bot-Named bot bots all = set-Every Named Text-discrete bot.id bot bots refl all

  revise_pos-IsSound :
      (id : Text) (f : PlayerSnapshot N → PlayerSnapshot N) (s : Server N)
      → ((p : PlayerSnapshot N) → Fit id p → Fit id (f p))
      → IsSound s
      → IsSound (record s { players_cache = revise id f s.players_cache })
  revise_pos-IsSound id f s keeps v = record {
    fit = revise-Every id f s.players_cache (λ p found. keeps p) v.fit;
    present = λ q on. has-revise q id f s.players_cache (v.present q on);
    one_each = v.one_each;
    seen_latest = v.seen_latest;
    log = v.log;
    told = v.told;
  }

module _ {N : Type 0} ⦃e : Engine N⦄ where
  pub publish_bot-IsSound :
      (now : ℕ) (snapshot : PlayerSnapshot N) (bot : Bot N) (s : Server N)
      → Fit bot.id snapshot
      → IsSound s
      → IsSound (publish_bot now snapshot bot s)
  unfolding publish_bot enqueue_pending_state
  publish_bot-IsSound now snapshot bot s h v =
      cache_player-IsSound bot.id
        (record snapshot { pos = bot.pos; rot_y = bot.rot_y; vel = bot.vel; updated_at = now }) s h
        v

  walk-id : (seed now : ℕ) (draws : ℕ → N) (bot : Bot N) → (walk seed now draws bot).id ≡ bot.id
  unfolding walk choose_target walk_towards
  walk-id seed now draws bot = ground arith

  -- What a turn hands on.
  abbrev pub TurnFits : Text → Turn N → Type 0
  TurnFits id over = Unit
  TurnFits id (shoots ball snapshot) = Fit id snapshot

  abbrev pub TurnIsSound : Text → Server N × Bot N × Turn N → Type 0
  TurnIsSound id r = IsSound r.0 × (r.1.id ≡ id) × TurnFits id r.2

  act_bot-IsSound :
      (now : ℕ) (uuid id : Text) (snapshot : PlayerSnapshot N) (bot : Bot N) (s : Server N)
      → bot.id ≡ id
      → Fit id snapshot
      → IsSound s
      → TurnIsSound id (act_bot now uuid snapshot bot s)
  unfolding act_bot
  act_bot-IsSound now uuid id snapshot bot s same h v =
      let own : Fit bot.id snapshot = rw same h in
      if_cases (TurnIsSound id)
        (e.lt (e.decimal (pos 10000) 0) (e.sub (e.decimal (pos now) 0) bot.last_shot_at))
        (λ ready. elim (Option-cases (find_nearest bot.pos (values s.players_cache) none)) [
          | inl alone ↦ rw alone (
            publish_bot-IsSound now snapshot (record bot { last_shot_at = e.decimal (pos now) 0 }) s
                own v,
            same,
            tt,
          )
          | inr (found, near) ↦ rw near (append_event-IsSound now (snowball _) s tt v, same, h)
        ])
        (λ waits. (publish_bot-IsSound now snapshot bot s own v, same, tt))

  pub update_bot-IsSound :
      (seed now : ℕ) (d : BotDraws N) (bot : Bot N) (s : Server N)
      → IsSound s
      → TurnIsSound bot.id (update_bot seed now d bot s)
  unfolding update_bot revive_bot
  update_bot-IsSound seed now d bot s v = elim (Option-cases (player_of bot.id s.players_cache)) [
    | inl gone ↦ rw (gone, update_bot) (v, refl, tt)
    | inr (snapshot, found) ↦
        (let h = player_of-Fit bot.id snapshot s v found in
          let spawn = random_spawn_pos seed d.numbers in
          let walked = walk seed now d.numbers bot in
          let same = walk-id seed now d.numbers bot in
          rw (found, update_bot)
            (if_cases (TurnIsSound bot.id)
              (leb snapshot.hp 0 && leb (or_else snapshot.dead_until 0) now)
              (λ due. (
                append_event-IsSound now (respawn bot.id spawn (some 100))
                    (cache_player bot.id
                      (record snapshot {
                        pos = spawn;
                        hp = 100;
                        dead_until = some 0;
                        updated_at = now;
                      })
                      s)
                    (omega arith)
                    (cache_player-IsSound bot.id
                      (record snapshot {
                        pos = spawn;
                        hp = 100;
                        dead_until = some 0;
                        updated_at = now;
                      })
                      s (h.0, omega arith, λ alive. refl) v),
                refl,
                tt,
              ))
              (λ not_due.
                if_cases (TurnIsSound bot.id) (leb snapshot.hp 0) (λ dead. (v, refl, tt))
                  (λ alive.
                    act_bot-IsSound now d.uuid bot.id snapshot walked
                      (record s {
                        players_cache =
                            revise bot.id (λ p. record p { pos = walked.pos }) s.players_cache;
                      })
                      same h
                      (revise_pos-IsSound bot.id (λ p. record p { pos = walked.pos }) s
                        (λ p fit. fit) v)))))
  ]
