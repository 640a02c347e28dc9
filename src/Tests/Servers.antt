-- ===== src/Tests/Servers.antt =====
-- The server at concrete inputs: a shot, a death, a bot, and what the theorems say of them.
use snow_brawl_game.Base.{
  ℕ, suc, ◌+◌, ◌*◌, ◌-◌, ◌≤◌, ◌≡◌, refl, ◌↔◌, true, false, List, [], ◌∷◌, ◌++◌, none, some, arith,
  length,
}
use snow_brawl_game.Base.Int.{ℤ, pos, ◌+ℤ◌, ◌-ℤ◌, ◌*ℤ◌}
use snow_brawl_game.Base.Text.{Text, utf16}
use snow_brawl_game.Base.Dict
use snow_brawl_game.Engine.{StrictOrder}
use snow_brawl_game.Server.Protocol.{
  PlayerSnapshot, ClientState, Numbered, hello, snowball, respawn, chat, event,
}
use snow_brawl_game.Server.State.{
  Server, WsClient, broadcast, prune_events, rate_limit_ok, state_freq_ok,
}
use snow_brawl_game.Server.Game.{Draws, random_spawn}
use snow_brawl_game.Server.Gateway.{Hub, receives, closes, sweeps, resumes}
use snow_brawl_game.Server.Bots.Room.{
  Room, Move, gateway, initialises, takes_turn, goes_on, play_room,
}
use snow_brawl_game.Server.Sound.Turns.{RoomIsSound}
use snow_brawl_game.Server.Sound.Room.{play_room-IsSound}
use snow_brawl_game.World.{lookup}
use snow_brawl_game.Network.{apply_snapshot}
use snow_brawl_game.Tests.Registry.{both, both-IsConsistent}
use snow_brawl_game.Tests.Toy.{registry_runs}
use snow_brawl_game.Server.Mirror.{play_room-mirrored, players_message}
use snow_brawl_game.Server.Sound.{has_player}
use snow_brawl_game.Server.Flight.{
  Best, find_best, consider, passes, first_hit, time_of, better, sim_steps,
}
use snow_brawl_game.Server.Utils.{
  snowball_pos_at, intersects_player_cylinder, is_uuid_like, is_finite_vec3, clamp_name,
  collapse_spaces, max_name,
}
use snow_brawl_game.Server.Victim.{Winner, find_best-Winner}
use snow_brawl_game.Server.Search.{StrikesAt, first_hit-earliest}
use snow_brawl_game.Server.Gateway.{run, after, land}
use snow_brawl_game.Server.Shots.{throw_ball}
use snow_brawl_game.Server.Game.{seen_shot_before, out_of_map}
use snow_brawl_game.Server.Dedupe.Run.{throw_ball-once}
use snow_brawl_game.Server.Revive.{Report, Alive, report_all, report_all-revives}
use snow_brawl_game.Server.Limits.{passed, rate_limit_ok-bound, state_freq_ok-bound}
use snow_brawl_game.Server.Names.{IsNeat, clamp_name-IsNeat}
use snow_brawl_game.Server.Log.{recent, prune_events-recent}
use snow_brawl_game.Server.Protocol.{leave}
use snow_brawl_game.Base.{ℕ_discrete}
use snow_brawl_game.Base.Text.{Text-discrete}
use snow_brawl_game.Utils.Strings.{trim, is_space}
use snow_brawl_game.Tests.Toy.{toy, at, me, you}

-- A player of the server.
abbrev player : Text → ℕ → ℕ → PlayerSnapshot ℤ
player id hp dead_until = record {
  id = id;
  name = id;
  pos = at 0;
  rot_y = pos 0;
  vel = at 0;
  hp = hp;
  crouch = false;
  dead_until = some dead_until;
  updated_at = 1000;
  ping_ms = none;
}

abbrev empty : Server ℤ
empty = record {
  latest_seq = 0;
  last_seen_seq = 0;
  events = [];
  players_cache = [];
  clients = [];
  sessions = [];
  pending_states = [];
  seen_shots = [];
  outbox = [];
  kills = [];
}

abbrev hub : Hub ℤ
hub = record { server = empty; tasks = []; world_seed = 7; cleared = [] }

abbrev room : Room ℤ
room = record { hub = hub; bots = []; rests = [] }

abbrev draws : Text → Draws ℤ
draws id = record { uuid = id; first = pos 500; second = pos 750 }

abbrev shot : Text
shot = utf16 "shot-0001"

-- Two players come, with their hellos interleaved, a bot is made, the first throws, the ball lands,
-- the bot has a turn.
abbrev moves : List (Move ℤ)
moves =
    gateway (receives 1000 (draws me) 1 (hello me))
    ∷ gateway (receives 1001 (draws you) 2 (hello you))
    ∷ gateway (resumes 1002 1)
    ∷ gateway (resumes 1002 0)
    ∷ gateway (resumes 1002 0)
    ∷ gateway (resumes 1002 0)
    ∷ initialises 1002 (λ i. pos 900) (pos 0) (pos 0) 0
    ∷ gateway (receives 1003 (draws me) 1 (snowball shot (some (at 0))))
    ∷ gateway (resumes 1004 0)
    ∷ takes_turn 20000 (record { numbers = λ i. pos 900; uuid = utf16 "bot-shot" }) (utf16 "bot-0")
    ∷ goes_on 20001 0
    ∷ gateway (closes 20002 2)
    ∷ []

room-RoomIsSound : RoomIsSound room
unfolding Dict.get
room-RoomIsSound = record {
  memory = record {
    fit = tt;
    present = λ id on. cc;
    one_each = tt;
    seen_latest = refl;
    log = (1, refl);
    told = refl;
  };
  named = tt;
  waiting = tt;
}

play_room-IsSound_example : RoomIsSound (play_room moves room)
play_room-IsSound_example = play_room-IsSound moves room room-RoomIsSound

play_room-mirrored_example :
    let s = (play_room moves room).hub.server in
    let after = (apply_snapshot (players_message s) both).registry.players_by_id in
    (has_player (utf16 "bot-0") s.players_cache ≡ true
      → (r : ℕ) × (lookup (utf16 "bot-0") after ≡ some r))
    × (has_player (utf16 "bot-0") s.players_cache ≡ false → lookup (utf16 "bot-0") after ≡ none)
unfolding registry_runs
play_room-mirrored_example =
    play_room-mirrored moves room both (utf16 "bot-0") room-RoomIsSound both-IsConsistent refl refl

toy-StrictOrder : StrictOrder toy.lt
toy-StrictOrder = record { irreflexive = λ a. ground arith; transitive = λ a b c h k. ground arith }

-- What a search may compute with.
flight_runs : Unit {0}
unfolding find_best consider passes first_hit time_of snowball_pos_at intersects_player_cylinder
    better Text-discrete ℕ_discrete ◌+ℤ◌ ◌-ℤ◌ ◌*ℤ◌
flight_runs = tt

abbrev struck_first : Best ℤ
struck_first = record { victim = player you 50 0; time = pos 0 }

find_best-Winner_example :
    Winner 5 me (at 0) (at 0) (player me 100 0 ∷ player you 50 0 ∷ []) struck_first
unfolding flight_runs
find_best-Winner_example =
    find_best-Winner 5 me (at 0) (at 0) (player me 100 0 ∷ player you 50 0 ∷ []) struck_first
      toy-StrictOrder refl

first_hit-earliest_example :
    (first_hit (at 0) (at 1000) (at 0) (suc sim_steps) 0 ≡ some (pos 0))
    ↔ ((i : ℕ) × (i ≤ sim_steps) × (pos 0 ≡ time_of i) × StrikesAt (at 0) (at 1000) (at 0) 0 i)
first_hit-earliest_example = first_hit-earliest (at 0) (at 1000) (at 0) (pos 0)

throw_ball-once_example :
    let s =
      (run
        (receives 5000 (draws you) 2 (chat shot) ∷ sweeps 6000 ∷ [])
        (after land hub (throw_ball 1000 (draws me) me shot (some (at 0)) hub.server))).server in
    throw_ball 10999 (draws you) you shot (some (at 1)) s ≡ (s, none)
unfolding is_uuid_like is_finite_vec3 seen_shot_before Dict.get
throw_ball-once_example =
    throw_ball-once 1000 (draws me) me shot (at 0) hub
      (receives 5000 (draws you) 2 (chat shot) ∷ sweeps 6000 ∷ []) 10999 (draws you) you
      (some (at 1)) refl refl refl (omega arith, (omega arith, tt)) (omega arith)

-- A player who died, and may come back from 4000 on.
abbrev mourning : Server ℤ
mourning = record empty { players_cache = (me, player me 0 4000) ∷ [] }

abbrev report : ClientState ℤ
report = record { pos = some (at 0); rot_y = pos 0; vel = none; crouch = none; ping_ms = none }

abbrev report_at : ℕ → Report ℤ
report_at now = record { now = now; draws = draws me; state = report }

-- One report is early, the next brings the player back, one more follows.
report_all-revives_example :
    (ev : Numbered ℤ) × (ev.event ≡ respawn me (random_spawn (draws me)) (some 100))
    × Alive me
        (at 0)
        (pos 0)
        (mourning.outbox ++ broadcast (event ev) ∷ [])
        (report_all me me (report_at 3900 ∷ report_at 4000 ∷ report_at 4100 ∷ []) mourning)
unfolding registry_runs is_finite_vec3 out_of_map
report_all-revives_example =
    report_all-revives me me (report_at 3900 ∷ []) (report_at 4000) (report_at 4100 ∷ []) mourning
      (player me 0 4000) refl refl ((at 0, refl, refl, refl, refl), tt) (omega arith, tt)
      (at 0, refl, refl, refl, refl) (omega arith) ((at 0, refl, refl, refl, refl), tt)

abbrev client : WsClient
client = record {
  id = me;
  name = me;
  connected_at = 0;
  bucket_start = 0;
  bucket_count = 1199;
  last_state_at = 0;
}

rate_limit_ok-bound_example :
    10001 * (passed rate_limit_ok (5 ∷ 6 ∷ 10001 ∷ []) client).0 ≤ 1200 * (10001 - 0 + 10001)
rate_limit_ok-bound_example =
    rate_limit_ok-bound (5 ∷ 6 ∷ 10001 ∷ []) 10001 client
      (omega arith, (omega arith, (omega arith, tt))) (omega arith)

state_freq_ok-bound_example :
    75 * (passed state_freq_ok (40 ∷ 50 ∷ 80 ∷ []) client).0 ≤ 2 * (80 - 0)
state_freq_ok-bound_example =
    state_freq_ok-bound (40 ∷ 50 ∷ 80 ∷ []) 80 client
      (omega arith, (omega arith, (omega arith, tt))) (omega arith)

clamp_name-IsNeat_example :
    (1 ≤ length (clamp_name (utf16 "  a   b ")))
    × (length (clamp_name (utf16 "  a   b ")) ≤ max_name)
    × IsNeat true (clamp_name (utf16 "  a   b "))
clamp_name-IsNeat_example = clamp_name-IsNeat (utf16 "  a   b ")

abbrev numbered : ℕ → ℕ → Numbered ℤ
numbered seq at = record { seq = seq; at = at; event = leave me me }

prune_events-recent_example :
    prune_events 130000 (numbered 1 100 ∷ numbered 2 20000 ∷ [])
    ≡ recent 130000 (numbered 1 100 ∷ numbered 2 20000 ∷ [])
prune_events-recent_example =
    prune_events-recent 130000 0 (numbered 1 100 ∷ numbered 2 20000 ∷ [])
      (omega arith, (omega arith, tt))

-- What the code does at concrete inputs.
names : (clamp_name (utf16 "  a   b ") ≡ utf16 "a b") × (clamp_name (utf16 "  ") ≡ utf16 "Player")
unfolding clamp_name collapse_spaces trim is_space
names = (refl, refl)
