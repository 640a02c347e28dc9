-- ===== src/Network/Sync/Entry.antt =====
-- One round of the loop of `applySnapshot`: what it does to the map of the players.
use snow_brawl_game.Base.{
  ℕ, ◌≡◌, refl, inl, inr, true, false, none, some, Bool-cases, Option-cases, ◌≢◌, length, get_elem?,
  leb, or_else, ap,
}
use snow_brawl_game.Base.Text.{Text, is_empty, Text-discrete}
use snow_brawl_game.Base.Dict
use snow_brawl_game.Engine.{Engine, Vec3}
use snow_brawl_game.Player.{Player}
use snow_brawl_game.World.{
  Index, Snapshot, Registry, World, is_local, lookup, update_object, add_player,
}
use snow_brawl_game.World.Entries.{set}
use snow_brawl_game.World.Consistent.{IsConsistent}
use snow_brawl_game.Network.{
  snapshot_of_local, ensure_local, ensure_remote, with_player, refresh_remote, apply_entry,
}
use snow_brawl_game.Network.Invariant.{local-Vacant}

-- The map is as it was, or has one entry more, under a key that it did not have.
pub data Grows (id : Text) (m m' : Index) : Type 0 where
  same : m' ≡ m → Grows id m m'
  added : (n : ℕ) → lookup id m ≡ none → m' ≡ set id n m → Grows id m m'

pub Grows-keeps :
    (id q : Text) (m m' : Index) (r : ℕ)
    → Grows id m m'
    → lookup q m ≡ some r
    → lookup q m' ≡ some r
Grows-keeps id q m m' r (same e) h = rw e h
Grows-keeps id q m m' r (added n new e) h = elim (Text-discrete id q) [
  | yes p ↦ cc (ap (λ (t : Text). lookup t m) p)
  | no p ↦ rw (e, Dict.get-set_ne Text-discrete id q n m p) h
]

pub Grows-other :
    (id q : Text) (m m' : Index) → Grows id m m' → id ≢ q → lookup q m ≡ none → lookup q m' ≡ none
Grows-other id q m m' (same e) ne h = rw e h
Grows-other id q m m' (added n new e) ne h = rw (e, Dict.get-set_ne Text-discrete id q n m ne) h

module _ {N : Type 0} ⦃e : Engine N⦄ where
  with_player-index :
      (id : Text) (f : Player N → Player N) (reg : Registry N)
      → ((with_player id f reg).players_by_id ≡ reg.players_by_id)
        × ((with_player id f reg).local_player_id ≡ reg.local_player_id)
  unfolding with_player update_object
  with_player-index id f reg = elim (Option-cases (lookup id reg.players_by_id)) [
    | inl gone ↦ rw (gone, with_player) (refl, refl)
    | inr (r, found) ↦ rw (found, with_player) (refl, refl)
  ]

  pub snapshot_of_local-index :
      (snap : Snapshot N) (w : World N)
      → ((snapshot_of_local snap w).registry.players_by_id ≡ w.registry.players_by_id)
        × ((snapshot_of_local snap w).registry.local_player_id ≡ w.registry.local_player_id)
  unfolding snapshot_of_local update_object
  snapshot_of_local-index snap w = elim (Option-cases w.registry.local_player) [
    | inl nobody ↦ rw (nobody, snapshot_of_local) (refl, refl)
    | inr (r, known) ↦ elim (Option-cases (get_elem? w.registry.objects r)) [
      | inl lost ↦ rw (known, lost, snapshot_of_local) (refl, refl)
      | inr (p, found) ↦
          elim (Bool-cases (leb (or_else p.last_hp_at 0) (or_else snap.updated_at 0))) [
            | inl fresh ↦ rw (known, found, fresh, snapshot_of_local) (refl, refl)
            | inr stale ↦ rw (known, found, stale, snapshot_of_local) (refl, refl)
          ]
    ]
  ]

  ensure_remote-index :
      (seed : ℕ) (id : Text) (p : Vec3 N) (name : Text) (reg : Registry N)
      → let after = ensure_remote seed id p name reg in
        Grows id reg.players_by_id after.players_by_id
        × (lookup id after.players_by_id ≢ none)
        × (after.local_player_id ≡ reg.local_player_id)
  unfolding ensure_remote add_player
  ensure_remote-index seed id p name reg = elim (Option-cases (lookup id reg.players_by_id)) [
    | inl new ↦
        rw (new, ensure_remote)
          (
            added (length reg.objects) new refl,
            λ h. cc (Dict.get-set_self Text-discrete id (length reg.objects) reg.players_by_id),
            refl,
          )
    | inr (r, found) ↦ rw (found, ensure_remote) (same refl, λ h. cc, refl)
  ]

  ensure_local-index :
      (snap : Snapshot N) (w : World N)
      → is_local w.registry.local_player_id snap.id ≡ true
      → IsConsistent w.registry
      → Grows snap.id w.registry.players_by_id (ensure_local snap w).registry.players_by_id
        × ((ensure_local snap w).registry.local_player_id ≡ w.registry.local_player_id)
  unfolding ensure_local add_player
  ensure_local-index snap w mine v = elim (Option-cases w.registry.local_player) [
    | inl nobody ↦
        rw (nobody, ensure_local)
          (
            added (length w.registry.objects) (local-Vacant _ _ _ snap.id nobody mine v.vacant)
                refl,
            refl,
          )
    | inr (r, known) ↦ rw (known, ensure_local) (same refl, refl)
  ]

  -- A round adds at most the snapshot's own id; a named player that is not the local one is in the
  -- map afterwards.
  pub apply_entry-index :
      (snap : Snapshot N) (w : World N)
      → IsConsistent w.registry
      → let after = (apply_entry snap w).registry in
        Grows snap.id w.registry.players_by_id after.players_by_id
        × (is_empty snap.id ≡ false
            → is_local w.registry.local_player_id snap.id ≡ false
            → lookup snap.id after.players_by_id ≢ none)
        × (after.local_player_id ≡ w.registry.local_player_id)
  unfolding apply_entry
  apply_entry-index snap w v = elim (Bool-cases (is_empty snap.id)) [
    | inl nameless ↦ rw (nameless, apply_entry) (same refl, λ h _. cc, refl)
    | inr named ↦ elim (Bool-cases (is_local w.registry.local_player_id snap.id)) [
      | inl mine ↦
          let (grown, kept) = ensure_local-index snap w mine v in
          let (index, id) = snapshot_of_local-index snap (ensure_local snap w) in
          rw (named, mine, apply_entry, index, id) (grown, λ _ h. cc, kept)
      | inr remote ↦
          let (grown, there, kept) =
            ensure_remote-index w.world_seed snap.id snap.pos snap.name w.registry in
          let (index, id) =
            with_player-index snap.id (refresh_remote snap)
              (ensure_remote w.world_seed snap.id snap.pos snap.name w.registry) in
          rw (named, remote, apply_entry, index, id) (grown, λ _ _. there, kept)
    ]
  ]
