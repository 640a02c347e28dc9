-- ===== src/Tests/Registry.antt =====
-- The players of client_src/network.js through snapshots and events, at concrete inputs.
use snow_brawl_game.Base.{◌≡◌, refl, [], ◌∷◌, some, none, true}
use snow_brawl_game.Base.Int.{ℤ, pos}
use snow_brawl_game.Base.Text.{Text, utf16}
use snow_brawl_game.Base.Dict
use snow_brawl_game.World.{World, lookup}
use snow_brawl_game.World.Consistent.{IsConsistent}
use snow_brawl_game.Network.{apply_snapshot}
use snow_brawl_game.Network.Messages.{hit}
use snow_brawl_game.Network.Events.{apply_event}
use snow_brawl_game.Network.Invariant.{apply_snapshot-IsConsistent}
use snow_brawl_game.Network.EventInvariant.{apply_event-IsConsistent}
use snow_brawl_game.Network.Sync.{lookup-apply_snapshot}
use snow_brawl_game.Tests.Toy.{toy, entry, me, you, quiet, at, registry_runs}

quiet-IsConsistent : IsConsistent quiet.registry
unfolding Dict.get
quiet-IsConsistent = record { aligned = refl; entries = tt; vacant = refl }

abbrev third : Text
third = utf16 "third"

-- The local player and one other.
abbrev pub both : World ℤ
both = apply_snapshot (entry me (pos 100) 5 ∷ entry you (pos 80) 5 ∷ []) quiet

pub both-IsConsistent : IsConsistent both.registry
both-IsConsistent =
    apply_snapshot-IsConsistent (entry me (pos 100) 5 ∷ entry you (pos 80) 5 ∷ []) quiet
      quiet-IsConsistent

both_players : (both.registry.players ≡ 0 ∷ 1 ∷ []) × (both.registry.local_player ≡ some 0)
unfolding registry_runs
both_players = (refl, refl)

-- The other player is not in the next snapshot.
lookup-apply_snapshot_example :
    lookup you (apply_snapshot (entry third (pos 1) 6 ∷ []) both).registry.players_by_id ≡ none
unfolding registry_runs
lookup-apply_snapshot_example =
    (lookup-apply_snapshot (entry third (pos 1) 6 ∷ []) both you both-IsConsistent).0 refl refl

apply_event-IsConsistent_example :
    IsConsistent (apply_event 7 (hit me (at 3) (pos 0) none) both).registry
apply_event-IsConsistent_example =
    apply_event-IsConsistent 7 (hit me (at 3) (pos 0) none) both both-IsConsistent

hit_kills : (apply_event 7 (hit me (at 3) (pos 0) none) both).dead_overlay ≡ true
unfolding registry_runs
hit_kills = refl
