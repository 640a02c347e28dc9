-- ===== src/Server/Dedupe.antt =====
-- The table of shots of game.ts, and what the handlers do to it.
pub mod Run
use snow_brawl_game.Base.{
  ℕ, zero, suc, ◌+◌, ◌≤◌, ◌<◌, ◌≡◌, refl, sym, ap, ◌∙◌, ◌≢◌, inl, inr, Bool, true, false, List, [],
  ◌∷◌, Option, none, some, arith, Bool-cases, Option-cases, Holds, if_cases, if◌then◌else◌, not,
  ◌||◌, ◌&&◌, ltb, leb,
}
use snow_brawl_game.Base.Text.{Text, is_empty, Text-discrete}
use snow_brawl_game.Base.Dict
use snow_brawl_game.Engine.{Engine, Vec3}
use snow_brawl_game.Server.Protocol.{ClientState, PlayerSnapshot}
use snow_brawl_game.Server.State.{Server, append_event}
use snow_brawl_game.Server.Game.{
  Draws, Flying, seen_shot_before, sweep_shots, server_handle_state, server_handle_rename,
  server_handle_chat,
}
use snow_brawl_game.Server.Utils.{is_uuid_like, is_finite_vec3}
use snow_brawl_game.Server.Shots.{throw_ball, land_ball, finish_ball}

-- A shot that is held stays so through a look at the table, and through a sweep, before its time.
get-seen_shot_before :
    (now : ℕ) (other id : Text) (exp : ℕ) (seen : List (Text × ℕ))
    → now < exp
    → Dict.get Text-discrete id seen ≡ some exp
    → Dict.get Text-discrete id (seen_shot_before now other seen).1 ≡ some exp
unfolding seen_shot_before
get-seen_shot_before now other id exp seen h held = elim (Text-discrete other id) [
  | yes same ↦ rw same (rw (held, seen_shot_before) (ground (arith, held)))
  | no ne ↦ ground (arith, Dict.get-set_ne Text-discrete other id (now + 10000) seen ne, held)
]

pub seen_shot_before-held :
    (now : ℕ) (id : Text) (exp : ℕ) (seen : List (Text × ℕ))
    → now < exp
    → Dict.get Text-discrete id seen ≡ some exp
    → (seen_shot_before now id seen).0 ≡ true
unfolding seen_shot_before
seen_shot_before-held now id exp seen h held = ground arith

pub get-seen_shot_before_new :
    (now : ℕ) (id : Text) (seen : List (Text × ℕ))
    → (seen_shot_before now id seen).0 ≡ false
    → Dict.get Text-discrete id (seen_shot_before now id seen).1 ≡ some (now + 10000)
unfolding seen_shot_before
get-seen_shot_before_new now id seen new =
    ground (arith, Dict.get-set_self Text-discrete id (now + 10000) seen)

get-sweep_shots :
    (now : ℕ) (id : Text) (exp : ℕ) (seen : List (Text × ℕ))
    → now < exp
    → Dict.get Text-discrete id seen ≡ some exp
    → Dict.get Text-discrete id (sweep_shots now seen) ≡ some exp
unfolding sweep_shots Dict.get
get-sweep_shots now id exp [] h held = held
get-sweep_shots now id exp ((j, x) ∷ seen) h held =
    ground (arith, get-sweep_shots now id exp seen h)

module _ {N : Type 0} ⦃e : Engine N⦄ where
  pub server_handle_state-seen :
      (now : ℕ) (d : Draws N) (id name : Text) (msg : ClientState N) (s : Server N)
      → (server_handle_state now d id name msg s).0.seen_shots ≡ s.seen_shots
  unfolding server_handle_state
  server_handle_state-seen now d id name msg s = ground arith

  pub server_handle_rename-seen :
      (now : ℕ) (id raw : Text) (s : Server N)
      → (server_handle_rename now id raw s).seen_shots ≡ s.seen_shots
  unfolding server_handle_rename
  server_handle_rename-seen now id raw s = ground arith

  pub land_ball-seen :
      (now : ℕ) (ball : Flying N) (s : Server N)
      → (land_ball now ball s).0.seen_shots ≡ s.seen_shots
  unfolding land_ball
  land_ball-seen now ball s = ground arith

  pub finish_ball-seen :
      (now : ℕ) (ball : Flying N) (victim : PlayerSnapshot N) (respawn_at : ℕ) (s : Server N)
      → (finish_ball now ball victim respawn_at s).seen_shots ≡ s.seen_shots
  unfolding finish_ball
  finish_ball-seen now ball victim respawn_at s = ground arith

  pub server_handle_chat-seen :
      (now : ℕ) (id name raw : Text) (s : Server N)
      → (server_handle_chat now id name raw s).seen_shots ≡ s.seen_shots
  unfolding server_handle_chat
  server_handle_chat-seen now id name raw s = ground arith

  pub throw_ball-Held :
      (now : ℕ) (d : Draws N) (client_id shot : Text) (dir : Option (Vec3 N)) (s : Server N)
      (id : Text) (exp : ℕ)
      → now < exp
      → Dict.get Text-discrete id s.seen_shots ≡ some exp
      → Dict.get Text-discrete id (throw_ball now d client_id shot dir s).0.seen_shots ≡ some exp
  unfolding throw_ball
  throw_ball-Held now d client_id shot none s id exp h held = held
  throw_ball-Held now d client_id shot (some dir) s id exp h held =
      let shot_id = if is_uuid_like shot then shot else d.uuid in
      ground (arith, get-seen_shot_before now shot_id id exp s.seen_shots h held)
