-- ===== src/Server/Sound/Steps.antt =====
-- The invariant of the memory, for the steps of ws.ts and the timers of state.ts.
use snow_brawl_game.Base.{
  List-cases, ℕ, ◌≡◌, refl, sym, ap, ◌∙◌, inl, inr, true, false, List, [], ◌∷◌, ◌++◌, none, some,
  arith, Option-cases, if_cases, ℕ_discrete,
}
use snow_brawl_game.Base.Text.{Text, Text-discrete}
use snow_brawl_game.Base.Dict
use snow_brawl_game.Base.Every.{Every, set-Every, has-set, has-set_self, has-of_delete}
use snow_brawl_game.Server.Protocol.{PlayerSnapshot, join, leave, welcome, snapshot, pong, states}
use snow_brawl_game.Server.State.{
  Players, Server, values, player_of, set_player, cache_player, cleanup_players, cleanup,
  state_sync, state_tick, send, close, broadcast_droppable,
}
use snow_brawl_game.Server.Gateway.{
  Hub, is_cleared, output, on_ping, new_client, enter, greet_client, on_close, hello_timeout,
}
use snow_brawl_game.Server.Sound.{
  Fit, IsSound, player_of-Fit, has_player, append_event-IsSound, cache_player-IsSound, say-IsSound,
}

module _ {N : Type 0} where
  cleanup_players-Every :
      (now : ℕ) (clients : List (Text × ℕ)) (ps : Players N)
      → Every Fit ps
      → Every Fit (cleanup_players now clients ps)
  unfolding cleanup_players
  cleanup_players-Every now clients [] v = tt
  cleanup_players-Every now clients ((id, snap) ∷ ps) (h, rest) =
      ground (arith, cleanup_players-Every now clients ps rest)

  -- Players with a connection stay.
  has-cleanup_players :
      (now : ℕ) (clients : List (Text × ℕ)) (q : Text) (ps : Players N)
      → Dict.has Text-discrete q clients ≡ true
      → has_player q ps ≡ true
      → has_player q (cleanup_players now clients ps) ≡ true
  unfolding cleanup_players Dict.get
  has-cleanup_players now clients q [] on h = cc
  has-cleanup_players now clients q ((id, snap) ∷ ps) on h = elim (Text-discrete id q) [
    | yes same ↦ rw (same, on) (ground arith)
    | no other ↦ ground (arith, has-cleanup_players now clients q ps on)
  ]

  pub cleanup-IsSound : (now : ℕ) (s : Server N) → IsSound s → IsSound (cleanup now s)
  unfolding cleanup
  cleanup-IsSound now s v = record {
    fit = cleanup_players-Every now s.clients s.players_cache v.fit;
    present = λ q on. has-cleanup_players now s.clients q s.players_cache on (v.present q on);
    one_each = v.one_each;
    seen_latest = v.seen_latest;
    log = v.log;
    told = v.told;
  }

  pub on_close-IsSound :
      (now socket : ℕ) (s : Server N) → IsSound s → IsSound (on_close now socket s)
  unfolding on_close
  on_close-IsSound now socket s v = elim (Option-cases (Dict.get ℕ_discrete socket s.sessions)) [
    | inl nobody ↦ rw (nobody, on_close) v
    | inr (c, there) ↦
        rw (there, on_close)
          (append_event-IsSound now (leave c.id c.name)
            (record s { clients = Dict.delete Text-discrete c.id s.clients })
            (rw (Dict.get-delete_self Text-discrete c.id s.clients v.one_each, Dict.has) refl)
            (record {
              fit = v.fit;
              present = λ q on. v.present q (has-of_delete Text-discrete q c.id s.clients on);
              one_each = Dict.delete-Distinct Text-discrete c.id s.clients v.one_each;
              seen_latest = v.seen_latest;
              log = v.log;
              told = v.told;
            }))
  ]

  pub enter-IsSound :
      (now at socket : ℕ) (snap : PlayerSnapshot N) (s : Server N)
      → Fit snap.id snap
      → IsSound s
      → IsSound (enter now at socket snap s)
  unfolding enter
  enter-IsSound now at socket snap s h v =
      append_event-IsSound now (join snap)
        (record s {
          sessions = Dict.set ℕ_discrete socket (new_client at snap) s.sessions;
          clients = Dict.set Text-discrete snap.id socket s.clients;
          players_cache = set_player snap.id snap s.players_cache;
        })
        h
        (record {
          fit = set-Every Fit Text-discrete snap.id snap s.players_cache h v.fit;
          present = λ q on. elim (Text-discrete snap.id q) [
            | yes same ↦ rw (← same) (has-set_self Text-discrete snap.id snap s.players_cache)
            | no other ↦ has-set Text-discrete q snap.id snap s.players_cache (
                v.present q (
                  ap (λ o. elim o [ none ↦ false | some _ ↦ true ])
                    (sym (Dict.get-set_ne Text-discrete snap.id q socket s.clients other))
                  ∙ on))
          ];
          one_each = Dict.set-Distinct Text-discrete snap.id socket s.clients v.one_each;
          seen_latest = v.seen_latest;
          log = v.log;
          told = v.told;
        })

  pub on_ping-IsSound :
      (now socket : ℕ) (id : Text) (s : Server N) → IsSound s → IsSound (on_ping now socket id s)
  unfolding on_ping output
  on_ping-IsSound now socket id s v = elim (Option-cases (player_of id s.players_cache)) [
    | inl gone ↦ rw (gone, on_ping) (say-IsSound (send socket (pong now)) s refl v)
    | inr (p, found) ↦
        rw (found, on_ping)
          (say-IsSound (send socket (pong now)) (cache_player id (record p { updated_at = now }) s)
            refl
            (cache_player-IsSound id (record p { updated_at = now }) s
              (player_of-Fit id p s v found) v))
  ]

  pub greet_client-IsSound :
      (seed socket now : ℕ) (s : Server N) → IsSound s → IsSound (greet_client seed socket now s)
  unfolding greet_client output
  greet_client-IsSound seed socket now s v =
      elim (Option-cases (Dict.get ℕ_discrete socket s.sessions)) [
        | inl nobody ↦ rw (nobody, greet_client) v
        | inr (c, there) ↦
            rw (there, greet_client)
              (say-IsSound (send socket (snapshot (values s.players_cache) s.last_seen_seq))
                (record s { outbox = s.outbox ++ send socket (welcome c.id now seed) ∷ [] }) refl
                (say-IsSound (send socket (welcome c.id now seed)) s refl v))
      ]

  pub hello_timeout-IsSound :
      (socket : ℕ) (hub : Hub N) → IsSound hub.server → IsSound (hello_timeout socket hub).server
  unfolding hello_timeout output
  hello_timeout-IsSound socket hub v =
      if_cases (λ (h : Hub N). IsSound h.server) (is_cleared socket hub.cleared) (λ off. v)
        (λ on. say-IsSound (close socket 4000) hub.server refl v)

  pub state_sync-IsSound : (s : Server N) → IsSound s → IsSound (state_sync s)
  unfolding state_sync
  state_sync-IsSound s v = elim (List-cases s.clients) [
    | inl nobody ↦ rw (nobody, state_sync) v
    | inr (c, cs, some_one) ↦
        rw (some_one, state_sync)
          (say-IsSound (broadcast_droppable (snapshot (values s.players_cache) s.last_seen_seq)) s
            refl v)
  ]

  pub state_tick-IsSound : (now : ℕ) (s : Server N) → IsSound s → IsSound (state_tick now s)
  unfolding state_tick
  state_tick-IsSound now s v = elim (List-cases s.clients) [
    | inl nobody ↦ rw (nobody, state_tick) v
    | inr (c, cs, some_one) ↦ elim (List-cases s.pending_states) [
      | inl nothing ↦ rw (some_one, nothing, state_tick) v
      | inr (p, ps, waiting) ↦
          rw (some_one, waiting, state_tick)
            (say-IsSound (broadcast_droppable (states now (values s.pending_states))) s refl v)
    ]
  ]
