-- ===== src/Network/Sync/Remove.antt =====
-- The second loop of `applySnapshot`: who leaves the map, and who stays.
use snow_brawl_game.Base.{
  ◌≡◌, refl, sym, ◌∙◌, ◌⊎◌, inl, inr, true, false, not, ◌&&◌, List, [], ◌∷◌, none, arith,
  Bool-cases, Option-cases, ◌≢◌, if◌then◌else◌,
}
use snow_brawl_game.Base.Text.{Text, Text-discrete}
use snow_brawl_game.Base.Dict
use snow_brawl_game.World.{Index, Snapshot, Registry, is_local, lookup, remove_player}
use snow_brawl_game.World.Entries.{lookup-delete_self}
use snow_brawl_game.World.Consistent.{IsConsistent, remove_player-IsConsistent}
use snow_brawl_game.Network.{in_snapshot, drop_missing}

module _ {N : Type 0} where
  pub remove_player-lookup :
      (k q : Text) (reg : Registry N)
      → k ≢ q
      → lookup q (remove_player k reg).players_by_id ≡ lookup q reg.players_by_id
  unfolding remove_player
  remove_player-lookup k q reg ne = elim (Option-cases (lookup k reg.players_by_id)) [
    | inl gone ↦ rw (gone, remove_player) refl
    | inr (r, found) ↦
        rw (found, remove_player) (Dict.get-delete_ne Text-discrete k q reg.players_by_id ne)
  ]

  -- Nobody is found under an id that was removed.
  pub remove_player-gone :
      (k : Text) (reg : Registry N)
      → IsConsistent reg
      → lookup k (remove_player k reg).players_by_id ≡ none
  unfolding remove_player
  remove_player-gone k reg v = elim (Option-cases (lookup k reg.players_by_id)) [
    | inl gone ↦ let e : remove_player k reg ≡ reg = rw (gone, remove_player) refl in rw e gone
    | inr (r, found) ↦
        rw (found, remove_player) (lookup-delete_self 0 _ k reg.players_by_id v.entries)
  ]

  remove_player-local_id :
      (k : Text) (reg : Registry N) → (remove_player k reg).local_player_id ≡ reg.local_player_id
  unfolding remove_player
  remove_player-local_id k reg = elim (Option-cases (lookup k reg.players_by_id)) [
    | inl gone ↦ rw (gone, remove_player) refl
    | inr (r, found) ↦ rw (found, remove_player) refl
  ]

  pub remove_player-lookup-none :
      (k q : Text) (reg : Registry N)
      → IsConsistent reg
      → lookup q reg.players_by_id ≡ none
      → lookup q (remove_player k reg).players_by_id ≡ none
  remove_player-lookup-none k q reg v h = elim (Text-discrete k q) [
    | yes p ↦ rw (← p) (remove_player-gone k reg v)
    | no p ↦ remove_player-lookup k q reg p ∙ h
  ]

  -- One round.
  abbrev round : List (Snapshot N) → Text → Registry N → Registry N
  round list id reg =
      if not (is_local reg.local_player_id id) && not (in_snapshot id list)
      then remove_player id reg
      else reg

  round-local_id :
      (list : List (Snapshot N)) (k : Text) (reg : Registry N)
      → (round list k reg).local_player_id ≡ reg.local_player_id
  round-local_id list k reg = ground (arith, remove_player-local_id k reg)

  round-IsConsistent :
      (list : List (Snapshot N)) (k : Text) (reg : Registry N)
      → IsConsistent reg
      → IsConsistent (round list k reg)
  round-IsConsistent list k reg v =
      elim (Bool-cases (not (is_local reg.local_player_id k) && not (in_snapshot k list))) [
        | inl out ↦ rw out (remove_player-IsConsistent k reg v)
        | inr stays ↦ rw stays v
      ]

  -- The local player and those whom the snapshot names keep their entries.
  pub drop_missing-lookup_kept :
      (list : List (Snapshot N)) (m : Index) (reg : Registry N) (id : Text)
      → (is_local reg.local_player_id id ≡ true) ⊎ (in_snapshot id list ≡ true)
      → lookup id (drop_missing list m reg).players_by_id ≡ lookup id reg.players_by_id
  unfolding drop_missing
  drop_missing-lookup_kept list [] reg id why = refl
  drop_missing-lookup_kept list ((k, r) ∷ m) reg id why =
      drop_missing-lookup_kept list m (round list k reg) id (rw (round-local_id list k reg) why)
      ∙ elim (Text-discrete k id) [
        | yes p ↦ rw p (ground arith)
        | no p ↦ ground (arith, remove_player-lookup k id reg p)
      ]

  drop_missing-lookup-none :
      (list : List (Snapshot N)) (m : Index) (reg : Registry N) (id : Text)
      → IsConsistent reg
      → lookup id reg.players_by_id ≡ none
      → lookup id (drop_missing list m reg).players_by_id ≡ none
  unfolding drop_missing
  drop_missing-lookup-none list [] reg id v h = h
  drop_missing-lookup-none list ((k, r) ∷ m) reg id v h =
      drop_missing-lookup-none list m (round list k reg) id (round-IsConsistent list k reg v)
        (ground (arith, remove_player-lookup-none k id reg v h))

  -- Anybody else who has an entry loses it.
  pub drop_missing-lookup_gone :
      (list : List (Snapshot N)) (m : Index) (reg : Registry N) (id : Text)
      → IsConsistent reg
      → is_local reg.local_player_id id ≡ false
      → in_snapshot id list ≡ false
      → lookup id m ≡ lookup id reg.players_by_id
      → lookup id (drop_missing list m reg).players_by_id ≡ none
  unfolding drop_missing Dict.get
  drop_missing-lookup_gone list [] reg id v remote out e = unfold drop_missing in sym e
  drop_missing-lookup_gone list ((k, r) ∷ m) reg id v remote out e = elim (Text-discrete k id) [
    | yes p ↦
        drop_missing-lookup-none list m (round list k reg) id (round-IsConsistent list k reg v)
          (rw p (ground (arith, remove_player-gone id reg v)))
    | no p ↦
        drop_missing-lookup_gone list m (round list k reg) id (round-IsConsistent list k reg v)
          (rw (round-local_id list k reg) remote) out
          (ground (arith, remove_player-lookup k id reg p))
  ]
