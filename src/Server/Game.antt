-- ===== src/Server/Game.antt =====
-- The handlers of game.ts. A handler that waits for a broadcast is cut there: what follows the `await`
-- is a function of its own, and other handlers may run in between. The clock, random numbers
-- and random ids are arguments.
use snow_brawl_game.Base.{
  ℕ, ◌+◌, Bool, true, false, not, ◌&&◌, ◌||◌, List, [], ◌∷◌, Option, none, some, leb, ltb, ◌==◌,
  if◌then◌else◌, or_else,
}
use snow_brawl_game.Base.Int.{pos}
use snow_brawl_game.Base.Text.{Text, is_empty, Text-discrete}
use snow_brawl_game.Base.Dict
use snow_brawl_game.Engine.{Engine, Vec3}
use snow_brawl_game.Server.Utils.{clamp_name, clamp_chat, is_finite_vec3}
use snow_brawl_game.Server.Protocol.{
  PlayerSnapshot, ClientState, PendingState, chat, rename, respawn,
}
use snow_brawl_game.Server.State.{
  Server, player_of, cache_player, append_event, enqueue_pending_state,
}

-- `crypto.randomUUID` and two `Math.random`, as far as a handler draws them.
pub record Draws (N : Type 0) : Type 0 where
  pub uuid : Text
  pub first : N
  pub second : N

-- A ball in flight, between its event and the search for a victim.
pub record Flying (N : Type 0) : Type 0 where
  pub shooter : Text
  pub shot_id : Text
  pub origin : Vec3 N
  pub dir : Vec3 N

-- `seenShotBefore`: whether the shot is a repetition, and the table after it.
unfoldable pub seen_shot_before : ℕ → Text → List (Text × ℕ) → Bool × List (Text × ℕ)
seen_shot_before now shot_id seen = elim (Dict.get Text-discrete shot_id seen) [
  | none ↦ (false, Dict.set Text-discrete shot_id (now + 10000) seen)
  | some exp ↦
      if not (exp == 0) && ltb now exp
      then (true, seen)
      else (false, Dict.set Text-discrete shot_id (now + 10000) seen)
]

-- The sweep of `setInterval`.
unfoldable pub sweep_shots : ℕ → List (Text × ℕ) → List (Text × ℕ)
sweep_shots now [] = []
sweep_shots now ((id, exp) ∷ seen) =
    let rest = sweep_shots now seen in if leb exp now then rest else (id, exp) ∷ rest

-- `typeof msg.pingMs === "number" ? msg.pingMs : prev.pingMs`.
abbrev pub ping_or : Option ℕ → Option ℕ → Option ℕ
ping_or (some ms) before = some ms
ping_or none before = before

module _ {N : Type 0} ⦃e : Engine N⦄ where
  open e use {decimal, add, sub, mul, abs, lt, is_finite}

  abbrev pub zero_vec : Vec3 N
  zero_vec = record { x = decimal (pos 0) 0; y = decimal (pos 0) 0; z = decimal (pos 0) 0 }

  -- A place in the square of side 40 about the centre.
  unfoldable pub random_spawn : Draws N → Vec3 N
  random_spawn d =
      let half = decimal (pos 5) 1 in
      record {
        x = mul (sub d.first half) (decimal (pos 40) 0);
        y = decimal (pos 0) 0;
        z = mul (sub d.second half) (decimal (pos 40) 0);
      }

  unfoldable pub server_on_hello : ℕ → Draws N → Text → PlayerSnapshot N
  unfolding random_spawn clamp_name
  server_on_hello now d name = record {
    id = d.uuid;
    name = clamp_name name;
    pos = random_spawn d;
    rot_y = decimal (pos 0) 0;
    vel = zero_vec;
    hp = 100;
    crouch = false;
    dead_until = some 0;
    updated_at = now;
    ping_ms = none;
  }

  unfoldable pub rename_cached : ℕ → Text → Text → Server N → Server N
  rename_cached now client_id new_name s = elim (player_of client_id s.players_cache) [
    | none ↦ s
    | some prev ↦ cache_player client_id (record prev { name = new_name; updated_at = now }) s
  ]

  unfoldable pub server_handle_rename : ℕ → Text → Text → Server N → Server N
  unfolding clamp_name rename_cached append_event
  server_handle_rename now client_id raw s =
      let new_name = clamp_name raw in
      if is_empty new_name
      then s
      else append_event now (rename client_id new_name) (rename_cached now client_id new_name s)

  unfoldable pub server_handle_chat : ℕ → Text → Text → Text → Server N → Server N
  unfolding clamp_chat append_event
  server_handle_chat now client_id name raw s =
      let text = clamp_chat raw in
      if is_empty text then s else append_event now (chat client_id name text) s

  -- `Math.abs(pos.x) > MAP_HALF + 5`, and the like.
  unfoldable pub out_of_map : Vec3 N → Bool
  out_of_map p =
      lt (decimal (pos 195) 0) (abs p.x)
      || lt (decimal (pos 195) 0) (abs p.z)
      || lt (decimal (pos 5000) 0) (abs p.y)

  unfoldable pub revived : ℕ → Draws N → ClientState N → PlayerSnapshot N → PlayerSnapshot N
  unfolding random_spawn
  revived now d msg prev = record prev {
    pos = random_spawn d;
    rot_y = msg.rot_y;
    vel = zero_vec;
    hp = 100;
    crouch = false;
    dead_until = some 0;
    updated_at = now;
    ping_ms = ping_or msg.ping_ms prev.ping_ms;
  }

  -- The snapshot that a state message of a living or unknown player makes.
  unfoldable pub moved :
      ℕ → Text → Text → Vec3 N → ClientState N → Option (PlayerSnapshot N) → PlayerSnapshot N
  unfolding is_finite_vec3
  moved now client_id name p msg prev = record {
    id = client_id;
    name = name;
    pos = p;
    rot_y = msg.rot_y;
    vel = if is_finite_vec3 msg.vel then or_else msg.vel zero_vec else zero_vec;
    hp = elim prev [ none ↦ 100 | some q ↦ q.hp ];
    crouch = or_else msg.crouch false;
    dead_until = some (elim prev [ none ↦ 0 | some q ↦ or_else q.dead_until 0 ]);
    updated_at = now;
    ping_ms = ping_or msg.ping_ms (elim prev [ none ↦ none | some q ↦ q.ping_ms ]);
  }

  unfoldable pub pending_of : PlayerSnapshot N → Option ℕ → PendingState N
  pending_of snap ping_ms = record {
    id = snap.id;
    pos = snap.pos;
    rot_y = snap.rot_y;
    vel = snap.vel;
    crouch = snap.crouch;
    updated_at = snap.updated_at;
    ping_ms = ping_ms;
  }

  unfoldable pub accept_state :
      ℕ → Text → Text → Vec3 N → ClientState N → Option (PlayerSnapshot N) → Server N → Server N
  unfolding moved pending_of enqueue_pending_state
  accept_state now client_id name p msg prev s =
      let next = moved now client_id name p msg prev in
      enqueue_pending_state (pending_of next next.ping_ms) (cache_player client_id next s)

  -- `serverHandleState`; a player who comes back leaves a state to enqueue after the broadcast.
  unfoldable pub place_state :
      ℕ
      → Draws N
      → Text
      → Text
      → Vec3 N
      → ClientState N
      → Server N
      → Server N × Option (PendingState N)
  unfolding revived append_event pending_of accept_state
  place_state now d client_id name p msg s = elim (player_of client_id s.players_cache) [
    | none ↦ (accept_state now client_id name p msg none s, none)
    | some prev ↦
        if leb prev.hp 0 && ltb now (or_else prev.dead_until 0)
        then (s, none)
        else if leb prev.hp 0 && leb (or_else prev.dead_until 0) now
        then (
          append_event now (respawn client_id (random_spawn d) (some 100))
              (cache_player client_id (revived now d msg prev) s),
          some (record (pending_of (revived now d msg prev) none) { id = client_id }),
        )
        else (accept_state now client_id name p msg (some prev) s, none)
  ]

  unfoldable pub server_handle_state :
      ℕ → Draws N → Text → Text → ClientState N → Server N → Server N × Option (PendingState N)
  unfolding is_finite_vec3 out_of_map place_state
  server_handle_state now d client_id name msg s = elim msg.pos [
    | none ↦ (s, none)
    | some p ↦
        if not (is_finite_vec3 (some p)) || not (is_finite msg.rot_y)
        then (s, none)
        else if out_of_map p
        then (s, none)
        else place_state now d client_id name p msg s
  ]
