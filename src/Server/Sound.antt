-- ===== src/Server/Sound.antt =====
-- What the memory of state.ts is asked to keep, and the steps that the handlers are made of.
pub mod Handlers
pub mod Shots
pub mod Steps
pub mod Hub
pub mod Turns
pub mod Room
use snow_brawl_game.Base.{
  ℕ, zero, suc, ◌+◌, ◌≤◌, ◌<◌, ◌≡◌, refl, sym, ap, ◌∙◌, ◌≢◌, inl, inr, Bool, true, false, List, [],
  ◌∷◌, ◌++◌, Option, none, some, arith, ltb, or_else, Option-cases, Holds, if_cases,
}
use mathlib.Core.Path.{subst}
use mathlib.Core.List.{append-nil}
use snow_brawl_game.Base.Text.{Text, Text-discrete}
use snow_brawl_game.Base.Dict
use snow_brawl_game.Base.Every.{
  Every, set-Every, delete-Every, get-Every, has-set, has-set_self, has-delete_ne,
}
use snow_brawl_game.Engine.{Vec3}
use snow_brawl_game.Server.Protocol.{
  PlayerSnapshot, WorldEvent, Numbered, join, leave, chat, state, snowball, hit, rename, death,
  respawn, event,
}
use snow_brawl_game.Server.Log.{
  Numbers, announced, up_to, announced-append, Numbers-append, Numbers-prune,
}
use snow_brawl_game.Server.State.{
  Players, Server, Output, player_of, set_player, cache_player, prune_events, revise,
  apply_event_to_cache, append_event, event_ms, broadcast, broadcast_droppable, send, close,
}

module _ {N : Type 0} where
  -- A cached snapshot has its key for id and at most 100 hp, and a player with hp left waits for no
  -- respawn.
  abbrev pub Fit : Text → PlayerSnapshot N → Type 0
  Fit k p = (p.id ≡ k) × (p.hp ≤ 100) × (0 < p.hp → or_else p.dead_until 0 ≡ 0)

  abbrev pub has_player : Text → Players N → Bool
  has_player = Dict.has Text-discrete

  -- Every cached snapshot is fit, every connected client has one, no
  -- client is listed twice, the two counters agree, and the
  -- log is the last stretch of the events that were broadcast: the numbers 1, 2, … in order.
  pub record Sound (players : Players N) (clients : List (Text × ℕ)) (latest seen : ℕ)
      (events : List (Numbered N)) (outbox : List (Output N)) : Type 0 where
    pub fit : Every Fit players
    pub present :
        (id : Text) → Dict.has Text-discrete id clients ≡ true → has_player id players ≡ true
    pub one_each : Dict.Distinct Text-discrete clients
    pub seen_latest : seen ≡ latest
    pub log : (first : ℕ) × Numbers first latest events
    pub told : announced outbox ≡ up_to latest

  abbrev pub IsSound : Server N → Type 0
  IsSound s = Sound s.players_cache s.clients s.latest_seq s.last_seen_seq s.events s.outbox

  pub revise-Every :
      (id : Text) (f : PlayerSnapshot N → PlayerSnapshot N) (ps : Players N)
      → ((p : PlayerSnapshot N) → player_of id ps ≡ some p → Fit id p → Fit id (f p))
      → Every Fit ps
      → Every Fit (revise id f ps)
  unfolding revise
  revise-Every id f ps keeps v = elim (Option-cases (player_of id ps)) [
    | inl gone ↦ rw (gone, revise) v
    | inr (p, found) ↦
        rw (found, revise)
          (set-Every Fit Text-discrete id (f p) ps
            (keeps p found (get-Every Fit Text-discrete id p ps v found)) v)
  ]

  pub has-revise :
      (q id : Text) (f : PlayerSnapshot N → PlayerSnapshot N) (ps : Players N)
      → has_player q ps ≡ true
      → has_player q (revise id f ps) ≡ true
  unfolding revise Dict.get
  has-revise q id f ps h = elim (Option-cases (player_of id ps)) [
    | inl gone ↦ rw (gone, revise) h
    | inr (p, found) ↦ rw (found, revise) (has-set Text-discrete q id (f p) ps h)
  ]

  -- What an event has to say of the cache that it is applied to.
  abbrev pub Proper : WorldEvent N → Players N → List (Text × ℕ) → Type 0
  Proper (join p) ps clients = Fit p.id p
  Proper (leave id name) ps clients = Dict.has Text-discrete id clients ≡ false
  Proper (hit h) ps clients =
      (h.victim_hp ≤ 100)
      × Holds (λ p. 0 < h.victim_hp → or_else p.dead_until 0 ≡ 0) (player_of h.victim_id ps)
  Proper (respawn id pos hp) ps clients = or_else hp 100 ≤ 100
  Proper _ ps clients = Unit

  apply-Every :
      (now : ℕ) (ev : WorldEvent N) (ps : Players N) (clients : List (Text × ℕ))
      → Proper ev ps clients
      → Every Fit ps
      → Every Fit (apply_event_to_cache now ev ps)
  unfolding apply_event_to_cache
  apply-Every now (join p) ps clients h v = set-Every Fit Text-discrete p.id p ps h v
  apply-Every now (leave id name) ps clients h v = delete-Every Fit Text-discrete id ps v
  apply-Every now (state id pos rot_y vel crouch) ps clients h v =
      revise-Every id _ ps (λ p found old. old) v
  apply-Every now (hit what) ps clients h v =
      revise-Every what.victim_id _ ps
        (λ p found old. (
          old.0,
          h.0,
          subst (Holds (λ q. 0 < what.victim_hp → or_else q.dead_until 0 ≡ 0)) found h.1,
        ))
        v
  apply-Every now (rename id name) ps clients h v = revise-Every id _ ps (λ p found old. old) v
  apply-Every now (death d) ps clients h v =
      revise-Every d.victim_id _ ps (λ p found old. (old.0, omega arith, λ alive. omega arith)) v
  apply-Every now (respawn id pos hp) ps clients h v =
      revise-Every id _ ps (λ p found old. (old.0, h, λ alive. refl)) v
  apply-Every now (chat id name text) ps clients h v = v
  apply-Every now (snowball ball) ps clients h v = v

  has-apply :
      (now : ℕ) (ev : WorldEvent N) (ps : Players N) (clients : List (Text × ℕ)) (q : Text)
      → Proper ev ps clients
      → Dict.has Text-discrete q clients ≡ true
      → has_player q ps ≡ true
      → has_player q (apply_event_to_cache now ev ps) ≡ true
  unfolding apply_event_to_cache
  has-apply now (join p) ps clients q h on v = has-set Text-discrete q p.id p ps v
  has-apply now (leave id name) ps clients q h on v =
      has-delete_ne Text-discrete q id ps
        (λ same. cc (ap (λ k. Dict.has Text-discrete k clients) same))
      ∙ v
  has-apply now (state id pos rot_y vel crouch) ps clients q h on v = has-revise q id _ ps v
  has-apply now (hit what) ps clients q h on v = has-revise q what.victim_id _ ps v
  has-apply now (rename id name) ps clients q h on v = has-revise q id _ ps v
  has-apply now (death d) ps clients q h on v = has-revise q d.victim_id _ ps v
  has-apply now (respawn id pos hp) ps clients q h on v = has-revise q id _ ps v
  has-apply now (chat id name text) ps clients q h on v = v
  has-apply now (snowball ball) ps clients q h on v = v

  pub append_event-IsSound :
      (now : ℕ) (ev : WorldEvent N) (s : Server N)
      → Proper ev s.players_cache s.clients
      → IsSound s
      → IsSound (append_event now ev s)
  unfolding append_event
  append_event-IsSound now ev s h v =
      let (first, numbers) = v.log in
      record {
        fit = apply-Every now ev s.players_cache s.clients h v.fit;
        present = λ id on. has-apply now ev s.players_cache s.clients id h on (v.present id on);
        one_each = v.one_each;
        seen_latest = refl;
        log =
            Numbers-prune now first (suc s.latest_seq) _
              (Numbers-append first s.latest_seq s.events _ refl numbers);
        told = announced-append s.outbox _ ∙ ap (λ t. t ++ suc s.latest_seq ∷ []) v.told;
      }

  pub cache_player-IsSound :
      (id : Text) (p : PlayerSnapshot N) (s : Server N)
      → Fit id p
      → IsSound s
      → IsSound (cache_player id p s)
  cache_player-IsSound id p s h v = record {
    fit = set-Every Fit Text-discrete id p s.players_cache h v.fit;
    present = λ q on. has-set Text-discrete q id p s.players_cache (v.present q on);
    one_each = v.one_each;
    seen_latest = v.seen_latest;
    log = v.log;
    told = v.told;
  }

  -- A message that is no event.
  pub say-IsSound :
      (o : Output N) (s : Server N)
      → announced (o ∷ []) ≡ []
      → IsSound s
      → IsSound (record s { outbox = s.outbox ++ o ∷ [] })
  say-IsSound o s silent v = record {
    fit = v.fit;
    present = v.present;
    one_each = v.one_each;
    seen_latest = v.seen_latest;
    log = v.log;
    told =
        announced-append s.outbox (o ∷ [])
        ∙ ap (λ t. announced s.outbox ++ t) silent
        ∙ append-nil _
        ∙ v.told;
  }

  -- The cached snapshot of an id.
  pub player_of-Fit :
      (id : Text) (p : PlayerSnapshot N) (s : Server N)
      → IsSound s
      → player_of id s.players_cache ≡ some p
      → Fit id p
  player_of-Fit id p s v found = get-Every Fit Text-discrete id p s.players_cache v.fit found
