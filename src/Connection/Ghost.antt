-- ===== src/Connection/Ghost.antt =====
-- A reconnection, as the server of ws.ts conducts it: the `join` of the new id is broadcast to the new
-- client too, then comes its `welcome`, then a snapshot with its own entry.
use snow_brawl_game.Base.{
  ℕ, suc, ◌+◌, ◌≡◌, ◌≢◌, refl, ap, ◌∙◌, true, false, [], ◌∷◌, Option, none, some, arith,
  Option-cases, inl, inr, length, length-append, get_elem?, get_elem?-append_left, if_pos, leb,
  or_else, Bool-cases,
}
use snow_brawl_game.Base.Text.{Text, is_empty, Text-discrete}
use snow_brawl_game.Base.Dict
use snow_brawl_game.Engine.{Engine}
use snow_brawl_game.Player.{Player, new_player}
use snow_brawl_game.World.{
  Index, Snapshot, Registry, World, is_local, lookup, update_object, add_player, remove_player,
  create_local_player,
}
use snow_brawl_game.World.Entries.{refs, set}
use snow_brawl_game.World.Consistent.{
  IsConsistent, add_player-IsConsistent, remove_player-IsConsistent,
}
use snow_brawl_game.Network.{
  on_registry, apply_entry, snapshot_of_local, ensure_local, ensure_remote,
}
use snow_brawl_game.Network.Events.{no_local_id, on_join}
use snow_brawl_game.Network.Sync.Entry.{snapshot_of_local-index}
use snow_brawl_game.Network.Sync.Remove.{remove_player-lookup}
use snow_brawl_game.Connection.Receive.{forget_old, greet}

length-refs : (m : Index) → length (refs m) ≡ length m
length-refs [] = refl
length-refs (x ∷ m) = ap suc (length-refs m)

-- `set` on a key that is there makes no new entry.
length-set_old :
    (k : Text) (v r : ℕ) (m : Index) → lookup k m ≡ some r → length (set k v m) ≡ length m
unfolding Dict.get Dict.set
length-set_old k v r [] h = cc
length-set_old k v r ((j, q) ∷ m) h = ground (arith, length-set_old k v r m)

is_local_self : (k : Text) → is_local (some k) k ≡ true
unfolding is_local
is_local_self k = if_pos (Text-discrete k k) refl _ _

module _ {N : Type 0} ⦃e : Engine N⦄ where
  snapshot_of_local-players :
      (snap : Snapshot N) (w : World N)
      → (snapshot_of_local snap w).registry.players ≡ w.registry.players
  unfolding snapshot_of_local update_object
  snapshot_of_local-players snap w = elim (Option-cases w.registry.local_player) [
    | inl nobody ↦ rw (nobody, snapshot_of_local) refl
    | inr (r, known) ↦ elim (Option-cases (get_elem? w.registry.objects r)) [
      | inl lost ↦ rw (known, lost, snapshot_of_local) refl
      | inr (p, found) ↦
          elim (Bool-cases (leb (or_else p.last_hp_at 0) (or_else snap.updated_at 0))) [
            | inl fresh ↦ rw (known, found, fresh, snapshot_of_local) refl
            | inr stale ↦ rw (known, found, stale, snapshot_of_local) refl
          ]
    ]
  ]

  -- The own entry of a snapshot, where the map has that id already and there is no local player.
  apply_entry-doubles :
      (snap : Snapshot N) (w : World N) (r : ℕ)
      → is_empty snap.id ≡ false
      → is_local w.registry.local_player_id snap.id ≡ true
      → w.registry.local_player ≡ none
      → lookup snap.id w.registry.players_by_id ≡ some r
      → w.registry.players ≡ refs w.registry.players_by_id
      → let after = (apply_entry snap w).registry in
        length after.players ≡ length after.players_by_id + 1
  unfolding apply_entry ensure_local add_player
  apply_entry-doubles snap w r named mine nobody there aligned =
      let w' = create_local_player snap w in
      rw
        (
          named,
          mine,
          apply_entry,
          nobody,
          ensure_local,
          (snapshot_of_local-index snap w').0,
          snapshot_of_local-players snap w',
        )
        (omega (
          arith,
          length-append w.registry.players (length w.registry.objects ∷ []),
          length-set_old snap.id (length w.registry.objects) r w.registry.players_by_id there,
          ap length aligned,
          length-refs w.registry.players_by_id,
        ))

  -- After `join` and `welcome`: the local player is gone, and the new id leads to the object that the
  -- `join` made.
  abbrev Expecting : Text → World N → Type 0
  Expecting id w =
      (r : ℕ) × (lookup id w.registry.players_by_id ≡ some r)
      × (w.registry.local_player ≡ none)
      × (w.registry.players ≡ refs w.registry.players_by_id)

  -- The registry after the `join` of a new id that is not the local player's.
  on_join-new :
      (snap : Snapshot N) (w : World N)
      → no_local_id w.registry.local_player_id ≡ false
      → is_local w.registry.local_player_id snap.id ≡ false
      → lookup snap.id w.registry.players_by_id ≡ none
      → on_join snap w
        ≡ on_registry
            (add_player snap.id (new_player w.world_seed snap.id snap.pos snap.name true))
            w
  unfolding on_join ensure_remote
  on_join-new snap w late other new = rw (late, other, on_join, new, ensure_remote) refl

  forget_old-other :
      (id : Text) (reg : Registry N) (r : ℕ) (p : Player N)
      → reg.local_player ≡ some r
      → get_elem? reg.objects r ≡ some p
      → is_local (some id) p.id ≡ false
      → forget_old id reg ≡ record (remove_player p.id reg) { local_player = none }
  unfolding forget_old
  forget_old-other id reg r p known found other = ground arith

  greet-Expecting :
      (snap : Snapshot N) (seed : Option ℕ) (w : World N) (r : ℕ) (p : Player N)
      → IsConsistent w.registry
      → w.registry.local_player ≡ some r
      → get_elem? w.registry.objects r ≡ some p
      → no_local_id w.registry.local_player_id ≡ false
      → is_local w.registry.local_player_id snap.id ≡ false
      → p.id ≢ snap.id
      → lookup snap.id w.registry.players_by_id ≡ none
      → Expecting snap.id (greet snap.id seed (on_join snap w))
  unfolding greet
  greet-Expecting snap seed w r p v known found late other ne new =
      let own = new_player w.world_seed snap.id snap.pos snap.name true in
      let joined = add_player snap.id own w.registry in
      let v' =
        add_player-IsConsistent snap.id own w.registry (unfold new_player in refl) new other v in
      let left = remove_player-IsConsistent p.id joined v' in
      rw
        (
          on_join-new snap w late other new,
          forget_old-other snap.id joined r p (unfold add_player in known)
              (unfold add_player in get_elem?-append_left w.registry.objects (own ∷ []) r p found)
              (unfold is_local in ground arith),
        )
        (
          length w.registry.objects,
          remove_player-lookup p.id snap.id joined ne
              ∙ unfold add_player in
                Dict.get-set_self Text-discrete snap.id (length w.registry.objects)
                  w.registry.players_by_id,
          refl,
          left.aligned,
        )

  -- A client with a local player that reconnects under a new id, and receives the join of that id
  -- before its welcome, has after its own entry of the snapshot one more element in the array of
  -- players than in the map.
  pub reconnect-doubles :
      (snap : Snapshot N) (seed : Option ℕ) (w : World N) (r : ℕ) (p : Player N)
      → IsConsistent w.registry
      → w.registry.local_player ≡ some r
      → get_elem? w.registry.objects r ≡ some p
      → no_local_id w.registry.local_player_id ≡ false
      → is_local w.registry.local_player_id snap.id ≡ false
      → is_empty snap.id ≡ false
      → p.id ≢ snap.id
      → lookup snap.id w.registry.players_by_id ≡ none
      → let after = (apply_entry snap (greet snap.id seed (on_join snap w))).registry in
        length after.players ≡ length after.players_by_id + 1
  reconnect-doubles snap seed w r p v known found late other named ne new =
      let (q, there, nobody, aligned) =
        greet-Expecting snap seed w r p v known found late other ne new in
      apply_entry-doubles snap (greet snap.id seed (on_join snap w)) q named
        (unfold greet in is_local_self snap.id) nobody there aligned
