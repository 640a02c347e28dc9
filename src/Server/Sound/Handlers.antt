-- ===== src/Server/Sound/Handlers.antt =====
-- The invariant of the memory, for the handlers of game.ts.
use snow_brawl_game.Base.{
  ℕ, refl, inl, inr, not, ◌&&◌, ◌||◌, Option, none, some, arith, leb, ltb, or_else, Option-cases,
  Holds, if_cases, if◌then◌else◌,
}
use snow_brawl_game.Base.Text.{Text, is_empty}
use snow_brawl_game.Engine.{Engine, Vec3}
use snow_brawl_game.Server.Utils.{clamp_name, clamp_chat, is_finite_vec3}
use snow_brawl_game.Server.Protocol.{
  PlayerSnapshot, ClientState, PendingState, chat, rename, respawn,
}
use snow_brawl_game.Server.State.{Server, player_of, cache_player, enqueue_pending_state}
use snow_brawl_game.Server.Game.{
  Draws, server_on_hello, server_handle_rename, server_handle_chat, server_handle_state, out_of_map,
  revived, moved, rename_cached, accept_state, place_state, random_spawn,
}
use snow_brawl_game.Server.Sound.{
  Fit, IsSound, player_of-Fit, append_event-IsSound, cache_player-IsSound,
}

module _ {N : Type 0} ⦃e : Engine N⦄ where
  pub server_on_hello-Fit :
      (now : ℕ) (d : Draws N) (name : Text)
      → Fit (server_on_hello now d name).id (server_on_hello now d name)
  unfolding server_on_hello
  server_on_hello-Fit now d name = (refl, omega arith, λ alive. refl)

  rename_cached-IsSound :
      (now : ℕ) (id name : Text) (s : Server N) → IsSound s → IsSound (rename_cached now id name s)
  unfolding rename_cached
  rename_cached-IsSound now id name s v = elim (Option-cases (player_of id s.players_cache)) [
    | inl gone ↦ rw (gone, rename_cached) v
    | inr (p, found) ↦
        rw (found, rename_cached)
          (cache_player-IsSound id (record p { name = name; updated_at = now }) s
            (player_of-Fit id p s v found) v)
  ]

  pub server_handle_rename-IsSound :
      (now : ℕ) (id raw : Text) (s : Server N)
      → IsSound s
      → IsSound (server_handle_rename now id raw s)
  unfolding server_handle_rename
  server_handle_rename-IsSound now id raw s v =
      if_cases IsSound (is_empty (clamp_name raw)) (λ empty. v)
        (λ full.
          append_event-IsSound now (rename id (clamp_name raw))
            (rename_cached now id (clamp_name raw) s) tt
            (rename_cached-IsSound now id (clamp_name raw) s v))

  pub server_handle_chat-IsSound :
      (now : ℕ) (id name raw : Text) (s : Server N)
      → IsSound s
      → IsSound (server_handle_chat now id name raw s)
  unfolding server_handle_chat
  server_handle_chat-IsSound now id name raw s v =
      if_cases IsSound (is_empty (clamp_chat raw)) (λ empty. v)
        (λ full. append_event-IsSound now (chat id name (clamp_chat raw)) s tt v)

  abbrev SoundResult : Server N × Option (PendingState N) → Type 0
  SoundResult r = IsSound r.0

  moved-Fit :
      (now : ℕ) (id name : Text) (p : Vec3 N) (msg : ClientState N)
      (prev : Option (PlayerSnapshot N))
      → Holds (Fit id) prev
      → Fit id (moved now id name p msg prev)
  unfolding moved
  moved-Fit now id name p msg none h = (refl, omega arith, λ alive. refl)
  moved-Fit now id name p msg (some q) h = (refl, h.1, h.2)

  accept_state-IsSound :
      (now : ℕ) (id name : Text) (p : Vec3 N) (msg : ClientState N)
      (prev : Option (PlayerSnapshot N)) (s : Server N)
      → Holds (Fit id) prev
      → IsSound s
      → IsSound (accept_state now id name p msg prev s)
  unfolding accept_state enqueue_pending_state
  accept_state-IsSound now id name p msg prev s h v =
      cache_player-IsSound id (moved now id name p msg prev) s (moved-Fit now id name p msg prev h)
        v

  revived-Fit :
      (now : ℕ) (d : Draws N) (id : Text) (msg : ClientState N) (prev : PlayerSnapshot N)
      → Fit id prev
      → Fit id (revived now d msg prev)
  unfolding revived
  revived-Fit now d id msg prev h = (h.0, omega arith, λ alive. refl)

  place_state-IsSound :
      (now : ℕ) (d : Draws N) (id name : Text) (p : Vec3 N) (msg : ClientState N) (s : Server N)
      → IsSound s
      → IsSound (place_state now d id name p msg s).0
  unfolding place_state
  place_state-IsSound now d id name p msg s v = elim (Option-cases (player_of id s.players_cache)) [
    | inl gone ↦ rw (gone, place_state) (accept_state-IsSound now id name p msg none s tt v)
    | inr (prev, found) ↦
        (let fit = player_of-Fit id prev s v found in
          rw (found, place_state)
            (if_cases SoundResult (leb prev.hp 0 && ltb now (or_else prev.dead_until 0))
              (λ frozen. v)
              (λ free.
                if_cases SoundResult (leb prev.hp 0 && leb (or_else prev.dead_until 0) now)
                  (λ due.
                    append_event-IsSound now (respawn id (random_spawn d) (some 100))
                      (cache_player id (revived now d msg prev) s) (omega arith)
                      (cache_player-IsSound id (revived now d msg prev) s
                        (revived-Fit now d id msg prev fit) v))
                  (λ alive. accept_state-IsSound now id name p msg (some prev) s fit v))))
  ]

  pub server_handle_state-IsSound :
      (now : ℕ) (d : Draws N) (id name : Text) (msg : ClientState N) (s : Server N)
      → IsSound s
      → IsSound (server_handle_state now d id name msg s).0
  unfolding server_handle_state
  server_handle_state-IsSound now d id name msg s v = elim (Option-cases msg.pos) [
    | inl missing ↦ rw (missing, server_handle_state) v
    | inr (p, there) ↦
        rw (there, server_handle_state)
          (if_cases SoundResult (not (is_finite_vec3 (some p)) || not (e.is_finite msg.rot_y))
            {x = (s, none)}
            {y = if out_of_map p then (s, none) else place_state now d id name p msg s} (λ bad. v)
            (λ good.
              if_cases SoundResult (out_of_map p) (λ out. v)
                (λ in_map. place_state-IsSound now d id name p msg s v)))
  ]
