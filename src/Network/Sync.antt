-- ===== src/Network/Sync.antt =====
-- After `applySnapshot` of client_src/network.js the map holds the players of the snapshot.
pub mod Entry
pub mod Remove
use snow_brawl_game.Base.{
  ℕ, ◌≡◌, refl, sym, ap, ◌∙◌, ◌⊎◌, inl, inr, Bool, true, false, not, ◌&&◌, ◌||◌, List, [], ◌∷◌,
  Option, none, some, arith, Bool-cases, Option-cases, ◌≢◌, if◌then◌else◌,
}
use snow_brawl_game.Base.Text.{Text, is_empty, Text-discrete}
use snow_brawl_game.Base.Dict
use snow_brawl_game.Engine.{Engine}
use snow_brawl_game.World.{Index, Snapshot, Registry, World, is_local, lookup, remove_player}
use snow_brawl_game.World.Entries.{set, delete, lookup-delete-none, lookup-delete_self}
use snow_brawl_game.World.Consistent.{IsConsistent, remove_player-IsConsistent}
use snow_brawl_game.Network.{
  on_registry, apply_entry, apply_entries, in_snapshot, drop_missing, apply_snapshot,
}
use snow_brawl_game.Network.Invariant.{apply_entries-IsConsistent}
use Remove.{drop_missing-lookup_gone, drop_missing-lookup_kept}
use Entry.{Grows, Grows-keeps, Grows-other, apply_entry-index}

in_snapshot-named :
    {N : Type 0} (id : Text) (list : List (Snapshot N))
    → in_snapshot id list ≡ true
    → is_empty id ≡ false
unfolding in_snapshot
in_snapshot-named id [] h = cc
in_snapshot-named id (snap ∷ list) h = ground (arith, in_snapshot-named id list)

module _ {N : Type 0} ⦃e : Engine N⦄ where
  apply_entries-local_id :
      (list : List (Snapshot N)) (w : World N)
      → IsConsistent w.registry
      → (apply_entries list w).registry.local_player_id ≡ w.registry.local_player_id
  unfolding apply_entries
  apply_entries-local_id [] w v = refl
  apply_entries-local_id (snap ∷ list) w v =
      apply_entries-local_id list (apply_entry snap w) (apply_entries-IsConsistent (snap ∷ []) w v)
      ∙ (apply_entry-index snap w v).2

  -- The first loop keeps every entry.
  apply_entries-keeps :
      (list : List (Snapshot N)) (w : World N) (id : Text) (r : ℕ)
      → IsConsistent w.registry
      → lookup id w.registry.players_by_id ≡ some r
      → lookup id (apply_entries list w).registry.players_by_id ≡ some r
  unfolding apply_entries
  apply_entries-keeps [] w id r v h = h
  apply_entries-keeps (snap ∷ list) w id r v h =
      apply_entries-keeps list (apply_entry snap w) id r
        (apply_entries-IsConsistent (snap ∷ []) w v)
        (Grows-keeps snap.id id _ _ r (apply_entry-index snap w v).0 h)

  -- It has an entry for every other player of the snapshot.
  apply_entries-has :
      (list : List (Snapshot N)) (w : World N) (id : Text)
      → IsConsistent w.registry
      → is_local w.registry.local_player_id id ≡ false
      → in_snapshot id list ≡ true
      → (r : ℕ) × (lookup id (apply_entries list w).registry.players_by_id ≡ some r)
  unfolding apply_entries in_snapshot
  apply_entries-has [] w id v remote h = cc
  apply_entries-has (snap ∷ list) w id v remote h =
      let next = apply_entries-IsConsistent (snap ∷ []) w v in
      let (grown, there, kept) = apply_entry-index snap w v in
      elim (Text-discrete snap.id id) [
        | yes p ↦ elim (Option-cases (lookup id (apply_entry snap w).registry.players_by_id)) [
          | inl gone ↦ absurd (
              there (rw p (in_snapshot-named id (snap ∷ list) h)) (rw p remote)
                (ap (λ (t : Text). lookup t (apply_entry snap w).registry.players_by_id) p ∙ gone))
          | inr (r, found) ↦ (r, apply_entries-keeps list (apply_entry snap w) id r next found)
        ]
        | no p ↦ apply_entries-has list (apply_entry snap w) id next (rw kept remote) (ground arith)
      ]

  -- For a consistent registry and every id: after applySnapshot the map of players has no entry
  -- for an id that is neither the local player's nor named by the snapshot, has an entry for every
  -- other named id, and keeps the very object of every player who was there before and is local or
  -- named.
  pub lookup-apply_snapshot :
      (list : List (Snapshot N)) (w : World N) (id : Text)
      → IsConsistent w.registry
      → let before = w.registry.players_by_id in
        let after = (apply_snapshot list w).registry.players_by_id in
        (is_local w.registry.local_player_id id ≡ false
          → in_snapshot id list ≡ false
          → lookup id after ≡ none)
        × (is_local w.registry.local_player_id id ≡ false
            → in_snapshot id list ≡ true
            → (r : ℕ) × (lookup id after ≡ some r))
        × ((r : ℕ)
            → (is_local w.registry.local_player_id id ≡ true) ⊎ (in_snapshot id list ≡ true)
            → lookup id before ≡ some r
            → lookup id after ≡ some r)
  unfolding apply_snapshot
  lookup-apply_snapshot list w id v =
      let middle = apply_entries list w in
      let m = middle.registry.players_by_id in
      let w' = apply_entries-IsConsistent list w v in
      let kept = apply_entries-local_id list w v in
      (
        λ remote out.
            drop_missing-lookup_gone list m middle.registry id w' (rw kept remote) out refl,
        λ remote listed.
            (let (r, found) = apply_entries-has list w id v remote listed in
              (r, drop_missing-lookup_kept list m middle.registry id (inr listed) ∙ found)),
        λ r why found.
            drop_missing-lookup_kept list m middle.registry id (rw kept why)
            ∙ apply_entries-keeps list w id r v found,
      )
