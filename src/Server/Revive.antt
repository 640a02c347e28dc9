-- ===== src/Server/Revive.antt =====
-- What `serverHandleState` of game.ts does for a dead player, over any number of reports.
use snow_brawl_game.Base.{
  ℕ, suc, ◌≤◌, ◌<◌, ◌≡◌, refl, ap, ◌∙◌, true, false, ◌&&◌, [], ◌∷◌, ◌++◌, none, some, arith, leb,
  ltb, or_else, List,
}
use snow_brawl_game.Base.Text.{Text, Text-discrete}
use snow_brawl_game.Base.Dict
use snow_brawl_game.Engine.{Engine, Vec3}
use snow_brawl_game.Server.Utils.{is_finite_vec3}
use snow_brawl_game.Server.Protocol.{PlayerSnapshot, ClientState, respawn, event, Numbered}
use snow_brawl_game.Server.State.{
  Server, Output, enqueue_pending_state, Players, set_player, player_of, cache_player, append_event,
  apply_event_to_cache, revise, broadcast,
}
use snow_brawl_game.Server.Game.{
  Draws, server_handle_state, out_of_map, random_spawn, revived, place_state, accept_state, moved,
}

-- A state message as it is handled: the time, what is drawn, and the message.
pub record Report (N : Type 0) : Type 0 where
  pub now : ℕ
  pub draws : Draws N
  pub state : ClientState N

module _ {N : Type 0} where
  get-revise :
      (id : Text) (f : PlayerSnapshot N → PlayerSnapshot N) (p : PlayerSnapshot N) (ps : Players N)
      → player_of id ps ≡ some p
      → player_of id (revise id f ps) ≡ some (f p)
  unfolding revise
  get-revise id f p ps found = rw (found, revise) (Dict.get-set_self Text-discrete id (f p) ps)

module _ {N : Type 0} ⦃e : Engine N⦄ where
  back : ℕ → Draws N → Text → ClientState N → PlayerSnapshot N → Server N → Server N
  unfolding random_spawn revived append_event
  back now d id msg prev s =
      append_event now (respawn id (random_spawn d) (some 100))
        (cache_player id (revived now d msg prev) s)

  back-player :
      (now : ℕ) (d : Draws N) (id : Text) (msg : ClientState N) (prev : PlayerSnapshot N)
      (s : Server N)
      → player_of id (back now d id msg prev s).players_cache ≡ some (revived now d msg prev)
  unfolding back append_event apply_event_to_cache revived
  back-player now d id msg prev s =
      get-revise id _ (revived now d msg prev)
        (set_player id (revived now d msg prev) s.players_cache)
        (Dict.get-set_self Text-discrete id (revived now d msg prev) s.players_cache)

  place_state-frozen :
      (now : ℕ) (d : Draws N) (id name : Text) (p : Vec3 N) (msg : ClientState N) (s : Server N)
      (prev : PlayerSnapshot N)
      → player_of id s.players_cache ≡ some prev
      → prev.hp ≡ 0
      → now < or_else prev.dead_until 0
      → place_state now d id name p msg s ≡ (s, none)
  unfolding place_state
  place_state-frozen now d id name p msg s prev found dead early =
      rw (found, place_state) (ground (arith, dead))

  place_state-back :
      (now : ℕ) (d : Draws N) (id name : Text) (p : Vec3 N) (msg : ClientState N) (s : Server N)
      (prev : PlayerSnapshot N)
      → player_of id s.players_cache ≡ some prev
      → prev.hp ≡ 0
      → or_else prev.dead_until 0 ≤ now
      → (place_state now d id name p msg s).0 ≡ back now d id msg prev s
  unfolding place_state back
  place_state-back now d id name p msg s prev found dead due =
      let late : leb prev.hp 0 && ltb now (or_else prev.dead_until 0) ≡ false = ground arith in
      let ready : leb prev.hp 0 && leb (or_else prev.dead_until 0) now ≡ true = ground arith in
      rw (found, late, ready, place_state) refl

  server_handle_state-place :
      (now : ℕ) (d : Draws N) (id name : Text) (p : Vec3 N) (msg : ClientState N) (s : Server N)
      → msg.pos ≡ some p
      → is_finite_vec3 (some p) ≡ true
      → e.is_finite msg.rot_y ≡ true
      → out_of_map p ≡ false
      → server_handle_state now d id name msg s ≡ place_state now d id name p msg s
  unfolding server_handle_state
  server_handle_state-place now d id name p msg s there finite turned inside =
      rw (there, finite, turned, inside, server_handle_state) refl

  -- The states of one player, handled one after the other.
  unfoldable pub report_all : Text → Text → List (Report N) → Server N → Server N
  report_all id name [] s = s
  report_all id name (r ∷ rest) s =
      report_all id name rest (server_handle_state r.now r.draws id name r.state s).0

  -- A finite position within the map, and a finite rotation.
  abbrev pub Acceptable : Report N → Type 0
  Acceptable r =
      (p : Vec3 N) × (r.state.pos ≡ some p)
      × (is_finite_vec3 (some p) ≡ true)
      × (e.is_finite r.state.rot_y ≡ true)
      × (out_of_map p ≡ false)

  abbrev pub AllAcceptable : List (Report N) → Type 0
  AllAcceptable [] = Unit {0}
  AllAcceptable (r ∷ rest) = Acceptable r × AllAcceptable rest

  abbrev pub AllEarly : ℕ → List (Report N) → Type 0
  AllEarly due [] = Unit {0}
  AllEarly due (r ∷ rest) = (r.now < due) × AllEarly due rest

  -- The place and the rotation that the last report told, if there is any.
  abbrev pub last_place : Vec3 N → List (Report N) → Vec3 N
  last_place p [] = p
  last_place p (r ∷ rest) = last_place (or_else r.state.pos p) rest

  abbrev pub last_turn : N → List (Report N) → N
  last_turn a [] = a
  last_turn a (r ∷ rest) = last_turn r.state.rot_y rest

  -- The player is alive at the place, turned that way, and so much was sent to all.
  pub record Alive (id : Text) (place : Vec3 N) (facing : N) (sent : List (Output N)) (s : Server N)
      : Type 0 where
    pub snap : PlayerSnapshot N
    pub cached : player_of id s.players_cache ≡ some snap
    pub hp : snap.hp ≡ 100
    pub waits : or_else snap.dead_until 0 ≡ 0
    pub placed : snap.pos ≡ place
    pub turned : snap.rot_y ≡ facing
    pub outbox : s.outbox ≡ sent

  server_handle_state-Alive :
      (id name : Text) (place : Vec3 N) (facing : N) (sent : List (Output N)) (r : Report N)
      (s : Server N)
      → Acceptable r
      → Alive id place facing sent s
      → Alive id
          (or_else r.state.pos place)
          r.state.rot_y
          sent
          (server_handle_state r.now r.draws id name r.state s).0
  unfolding place_state accept_state enqueue_pending_state moved
  server_handle_state-Alive id name place facing sent r s (p, there, finite, turned, inside) v =
      let same =
        server_handle_state-place r.now r.draws id name p r.state s there finite turned inside in
      let next = moved r.now id name p r.state (some v.snap) in
      let late : leb v.snap.hp 0 ≡ false = ground (arith, v.hp) in
      rw (same, v.cached, late, there, place_state)
        record {
          snap = next;
          cached = Dict.get-set_self Text-discrete id next s.players_cache;
          hp = v.hp;
          waits = v.waits;
          placed = refl;
          turned = refl;
          outbox = v.outbox;
        }

  report_all-Alive :
      (id name : Text) (place : Vec3 N) (facing : N) (sent : List (Output N)) (rs : List (Report N))
      (s : Server N)
      → AllAcceptable rs
      → Alive id place facing sent s
      → Alive id (last_place place rs) (last_turn facing rs) sent (report_all id name rs s)
  unfolding report_all
  report_all-Alive id name place facing sent [] s ok v = v
  report_all-Alive id name place facing sent (r ∷ rest) s (o, ok) v =
      report_all-Alive id name (or_else r.state.pos place) r.state.rot_y sent rest
        (server_handle_state r.now r.draws id name r.state s).0 ok
        (server_handle_state-Alive id name place facing sent r s o v)

  -- Reports before the time of respawn leave the whole memory as it is.
  report_all-frozen :
      (id name : Text) (rs more : List (Report N)) (s : Server N) (prev : PlayerSnapshot N)
      → AllAcceptable rs
      → AllEarly (or_else prev.dead_until 0) rs
      → player_of id s.players_cache ≡ some prev
      → prev.hp ≡ 0
      → report_all id name (rs ++ more) s ≡ report_all id name more s
  unfolding report_all
  report_all-frozen id name [] more s prev ok early found dead = refl
  report_all-frozen id name (r ∷ rest) more s prev ((p, there, finite, turned, inside), ok)
        (soon, early) found dead =
      let same =
        server_handle_state-place r.now r.draws id name p r.state s there finite turned inside
        ∙ place_state-frozen r.now r.draws id name p r.state s prev found dead soon in
      ap (λ a. report_all id name (rest ++ more) a.0) same
      ∙ report_all-frozen id name rest more s prev ok early found dead

  -- A dead player's acceptable reports, some before the time of respawn, one from that time on, and
  -- any number after it, at any times: exactly one respawn is broadcast, after all that was sent
  -- before, with the place drawn at the first report that was not too early; and the player ends alive
  -- with 100 hp and no time to wait, at the place of the last later report, or else where the respawn
  -- put them, with the rotation that was reported last.
  pub report_all-revives :
      (id name : Text) (early : List (Report N)) (r : Report N) (later : List (Report N))
      (s : Server N) (prev : PlayerSnapshot N)
      → player_of id s.players_cache ≡ some prev
      → prev.hp ≡ 0
      → AllAcceptable early
      → AllEarly (or_else prev.dead_until 0) early
      → Acceptable r
      → or_else prev.dead_until 0 ≤ r.now
      → AllAcceptable later
      → (ev : Numbered N) × (ev.event ≡ respawn id (random_spawn r.draws) (some 100))
        × Alive id
            (last_place (random_spawn r.draws) later)
            (last_turn r.state.rot_y later)
            (s.outbox ++ broadcast (event ev) ∷ [])
            (report_all id name (early ++ r ∷ later) s)
  unfolding report_all back append_event revived
  report_all-revives id name early r later s prev found dead ok soon
        (p, there, finite, turned, inside) due rest =
      (
        record {
          seq = suc s.latest_seq;
          at = r.now;
          event = respawn id (random_spawn r.draws) (some 100);
        },
        refl,
        rw
            (
              report_all-frozen id name early (r ∷ later) s prev ok soon found dead,
              ap (λ a. a.0)
                  (server_handle_state-place r.now r.draws id name p r.state s there finite turned
                    inside),
              place_state-back r.now r.draws id name p r.state s prev found dead due,
            )
            (report_all-Alive id name (random_spawn r.draws) r.state.rot_y _ later
              (back r.now r.draws id r.state prev s) rest
              (record {
                snap = revived r.now r.draws r.state prev;
                cached = back-player r.now r.draws id r.state prev s;
                hp = refl;
                waits = refl;
                placed = refl;
                turned = refl;
                outbox = refl;
              })),
      )
