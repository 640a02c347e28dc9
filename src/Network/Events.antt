-- ===== src/Network/Events.antt =====
-- `applyEvent` of client_src/network.js; `now` is `Date.now()`.
use snow_brawl_game.Base.{
  ℕ, ◌+◌, Bool, true, false, ◌||◌, ◌++◌, Option, none, some, zero, suc, if◌then◌else◌, or_else,
  get_elem?,
}
use snow_brawl_game.Base.Int.{ℤ, pos, negsuc}
use snow_brawl_game.Base.Text.{Text, utf16, is_empty, Text-discrete}
use snow_brawl_game.Base.Dict
use snow_brawl_game.Engine.{Engine, Vec3}
use snow_brawl_game.Player.{
  Player, update_name_label, set_remote_target, show_chat, on_hit, apply_knockback,
}
use snow_brawl_game.Snowball.{new_snowball, add_snowball}
use snow_brawl_game.Utils.Strings.{fix_utf8}
use snow_brawl_game.Utils.Ui.{set_hp_ui, append_chat_log}
use snow_brawl_game.World.{
  Snapshot, Registry, World, is_local, lookup, update_object, remove_player,
}
use snow_brawl_game.Network.{on_registry, ensure_local, ensure_remote, with_player}
use snow_brawl_game.Network.Messages.{
  StateEntry, Event, join, leave, chat, state, snowball, hit, rename, death, respawn,
}

-- `hp <= 0`.
unfoldable pub not_positive : ℤ → Bool
not_positive (pos zero) = true
not_positive (pos (suc n)) = false
not_positive (negsuc n) = true

-- `name || fallback`, of a string that may be missing.
unfoldable pub or_text : Option Text → Text → Text
or_text none fallback = fallback
or_text (some s) fallback = if is_empty s then fallback else s

-- `at || Date.now()`.
unfoldable pub time_or : Option ℕ → ℕ → ℕ
time_or none now = now
time_or (some zero) now = now
time_or (some (suc t)) now = suc t

-- `!localPlayerId`.
unfoldable pub no_local_id : Option Text → Bool
no_local_id none = true
no_local_id (some l) = is_empty l

module _ {N : Type 0} ⦃e : Engine N⦄ where
  unfoldable pub on_join : Snapshot N → World N → World N
  unfolding no_local_id ensure_local ensure_remote
  on_join snap w =
      if no_local_id w.registry.local_player_id
      then w
      else if is_local w.registry.local_player_id snap.id
      then ensure_local snap w
      else on_registry (ensure_remote w.world_seed snap.id snap.pos snap.name) w

  -- The player behind an id.
  unfoldable pub player_of : Text → Registry N → Option (Player N)
  player_of id reg = elim (lookup id reg.players_by_id) [
    | none ↦ none
    | some r ↦ get_elem? reg.objects r
  ]

  unfoldable pub on_chat : Text → Option Text → Text → World N → World N
  unfolding player_of with_player or_text
  on_chat id name text w =
      let shown : Text = elim (player_of id w.registry) [
        | none ↦ fix_utf8 N (or_text name (utf16 "Unknown"))
        | some p ↦ p.name
      ] in
      record w {
        registry = with_player id (show_chat text) w.registry;
        chat_log = append_chat_log (shown ++ utf16 ": " ++ text) w.chat_log;
      }

  unfoldable pub on_state : StateEntry N → World N → World N
  unfolding with_player
  on_state s w =
      if is_local w.registry.local_player_id s.id
      then w
      else on_registry (with_player s.id (set_remote_target s.pos s.rot_y s.vel s.crouch)) w

  unfoldable pub on_snowball : Text → Text → Vec3 N → Vec3 N → World N → World N
  unfolding new_snowball add_snowball
  on_snowball id owner origin dir w =
      if Dict.has Text-discrete id w.balls.snowballs_by_id
      then w
      else record w { balls = add_snowball (new_snowball id origin dir owner) w.balls }

  -- What a hit does to the object of the local player.
  unfoldable pub wound : Vec3 N → ℤ → ℕ → Player N → Player N
  unfolding apply_knockback not_positive
  wound impulse hp at p =
      let q : Player N = record (apply_knockback impulse p) { health = hp; last_hp_at = some at } in
      if not_positive hp then record q { dead = true } else q

  unfoldable pub hit_local : Vec3 N → ℤ → ℕ → World N → World N
  unfolding wound not_positive
  hit_local impulse hp at w = elim w.registry.local_player [
    | none ↦ w
    | some r ↦ record w {
      registry = update_object r (wound impulse hp at) w.registry;
      hp_ui = set_hp_ui hp;
      hit_flashes = w.hit_flashes + 1;
      dead_overlay = if not_positive hp then true else w.dead_overlay;
    }
  ]

  unfoldable pub on_hit_event : ℕ → Text → Vec3 N → ℤ → Option ℕ → World N → World N
  unfolding with_player hit_local time_or
  on_hit_event now victim impulse hp at w =
      let after = on_registry (with_player victim on_hit) w in
      if is_local w.registry.local_player_id victim
      then hit_local impulse hp (time_or at now) after
      else after

  unfoldable pub die : Player N → Player N
  die p = record p { dead = true }

  unfoldable pub on_death : Text → Option Text → Option Text → World N → World N
  unfolding player_of with_player or_text die
  on_death victim attacker_name victim_name w =
      let attacker = fix_utf8 N (or_text attacker_name (utf16 "???")) in
      let fallen = fix_utf8 N (or_text victim_name (utf16 "???")) in
      record w {
        registry = with_player victim die w.registry;
        dead_overlay = elim (player_of victim w.registry) [
          | none ↦ w.dead_overlay
          | some p ↦ is_local w.registry.local_player_id p.id || w.dead_overlay
        ];
        chat_log = append_chat_log (utf16 "💀 " ++ attacker ++ utf16 " 击杀了 " ++ fallen) w.chat_log;
      }

  unfoldable pub revive : Vec3 N → ℤ → Player N → Player N
  revive place hp p = record p { dead = false; health = hp; visible = true; position = place }

  unfoldable pub on_respawn : Text → Vec3 N → Option ℤ → World N → World N
  unfolding player_of revive
  on_respawn id place hp w =
      let restored = or_else hp (pos 100) in
      let after = on_registry (with_player id (revive place restored)) w in
      elim (player_of id w.registry) [
        | none ↦ after
        | some p ↦
            if is_local w.registry.local_player_id p.id
            then record after { dead_overlay = false; hp_ui = set_hp_ui restored }
            else after
      ]

  unfoldable pub apply_event : ℕ → Event N → World N → World N
  unfolding on_join on_chat on_state on_snowball on_hit_event on_death on_respawn remove_player
      with_player
  apply_event now (join snap) w = on_join snap w
  apply_event now (leave id) w = on_registry (remove_player id) w
  apply_event now (chat id name text) w = on_chat id name text w
  apply_event now (state s) w = on_state s w
  apply_event now (snowball id owner origin dir) w = on_snowball id owner origin dir w
  apply_event now (hit victim impulse hp at) w = on_hit_event now victim impulse hp at w
  apply_event now (rename id name) w = on_registry (with_player id (update_name_label name)) w
  apply_event now (death victim attacker_name victim_name) w =
      on_death victim attacker_name victim_name w
  apply_event now (respawn id place hp) w = on_respawn id place hp w
