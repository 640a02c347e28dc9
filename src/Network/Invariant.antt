-- ===== src/Network/Invariant.antt =====
-- The registry's invariant through `applySnapshot`, `states` and `applyEvent`.
use snow_brawl_game.Base.{
  ℕ, ◌≡◌, refl, inl, inr, true, false, not, ◌&&◌, List, [], ◌∷◌, Option, none, some, arith,
  Bool-cases, Option-cases, leb, or_else, get_elem?,
}
use snow_brawl_game.Base.Int.{ℤ}
use snow_brawl_game.Base.Text.{Text, is_empty}
use snow_brawl_game.Engine.{Engine, Vec3}
use snow_brawl_game.Player.{Player, new_player, update_ping, update_name_label, set_remote_target}
use snow_brawl_game.World.{
  Index, Snapshot, Registry, World, is_local, lookup, add_player, local_object,
}
use snow_brawl_game.World.Consistent.{
  IsConsistent, Vacant, update_object-IsConsistent, add_player-aligned, add_player-IsConsistent,
  remove_player-IsConsistent,
}
use snow_brawl_game.Network.{
  refresh_local, snapshot_of_local, ensure_local, ensure_remote, with_player, refresh_remote,
  apply_entry, apply_entries, in_snapshot, drop_missing, apply_snapshot, apply_state, apply_states,
}
use snow_brawl_game.Network.Messages.{StateEntry}
use snow_brawl_game.Network.Events.{wound}

pub local-Vacant :
    (lp : Option ℕ) (lid : Option Text) (m : Index) (id : Text)
    → lp ≡ none
    → is_local lid id ≡ true
    → Vacant lp lid m
    → lookup id m ≡ none
unfolding is_local
local-Vacant (some r) lid m id nobody mine v = cc
local-Vacant none none m id nobody mine v = cc
local-Vacant none (some l) m id nobody mine v = let same : id ≡ l = ground arith in rw same v

module _ {N : Type 0} ⦃e : Engine N⦄ where
  -- The methods of a player leave its id alone.
  refresh_local-id : (snap : Snapshot N) (p : Player N) → (refresh_local snap p).id ≡ p.id
  unfolding refresh_local update_ping
  refresh_local-id snap p = ground arith

  refresh_remote-id : (snap : Snapshot N) (p : Player N) → (refresh_remote snap p).id ≡ p.id
  unfolding refresh_remote update_name_label update_ping set_remote_target
  refresh_remote-id snap p = ground arith

  pub wound-id :
      (impulse : Vec3 N) (hp : ℤ) (at : ℕ) (p : Player N) → (wound impulse hp at p).id ≡ p.id
  unfolding wound
  wound-id impulse hp at p = ground arith

  pub update_name_label-id : (name : Text) (p : Player N) → (update_name_label name p).id ≡ p.id
  unfolding update_name_label
  update_name_label-id name p = ground arith

  pub with_player-IsConsistent :
      (id : Text) (f : Player N → Player N) (reg : Registry N)
      → ((p : Player N) → (f p).id ≡ p.id)
      → IsConsistent reg
      → IsConsistent (with_player id f reg)
  unfolding with_player
  with_player-IsConsistent id f reg h v = elim (Option-cases (lookup id reg.players_by_id)) [
    | inl gone ↦ rw (gone, with_player) v
    | inr (r, found) ↦ rw (found, with_player) (update_object-IsConsistent r f reg h v)
  ]

  pub ensure_remote-IsConsistent :
      (seed : ℕ) (id : Text) (p : Vec3 N) (name : Text) (reg : Registry N)
      → is_local reg.local_player_id id ≡ false
      → IsConsistent reg
      → IsConsistent (ensure_remote seed id p name reg)
  unfolding ensure_remote
  ensure_remote-IsConsistent seed id p name reg remote v =
      elim (Option-cases (lookup id reg.players_by_id)) [
        | inl new ↦
            rw (new, ensure_remote)
              (add_player-IsConsistent id _ reg (unfold new_player in refl) new remote v)
        | inr (r, found) ↦ rw (found, ensure_remote) v
      ]

  pub ensure_local-IsConsistent :
      (snap : Snapshot N) (w : World N)
      → is_local w.registry.local_player_id snap.id ≡ true
      → IsConsistent w.registry
      → IsConsistent (ensure_local snap w).registry
  unfolding ensure_local
  ensure_local-IsConsistent snap w mine v = elim (Option-cases w.registry.local_player) [
    | inl nobody ↦
        let new = local-Vacant _ _ _ snap.id nobody mine v.vacant in
        let (a, b) =
          add_player-aligned snap.id (local_object w.world_seed snap) w.registry
            (unfold local_object in refl) new v in
        rw (nobody, ensure_local)
          (record {
            aligned = unfold add_player in a;
            entries = unfold add_player in b;
            vacant = tt;
          })
    | inr (r, known) ↦ rw (known, ensure_local) v
  ]

  snapshot_of_local-IsConsistent :
      (snap : Snapshot N) (w : World N)
      → IsConsistent w.registry
      → IsConsistent (snapshot_of_local snap w).registry
  unfolding snapshot_of_local
  snapshot_of_local-IsConsistent snap w v = elim (Option-cases w.registry.local_player) [
    | inl nobody ↦ rw (nobody, snapshot_of_local) v
    | inr (r, known) ↦ elim (Option-cases (get_elem? w.registry.objects r)) [
      | inl lost ↦ rw (known, lost, snapshot_of_local) v
      | inr (p, found) ↦
          let kept =
            update_object-IsConsistent r (refresh_local snap) w.registry (refresh_local-id snap)
              v in
          elim (Bool-cases (leb (or_else p.last_hp_at 0) (or_else snap.updated_at 0))) [
            | inl fresh ↦ rw (known, found, fresh, snapshot_of_local) kept
            | inr stale ↦ rw (known, found, stale, snapshot_of_local) kept
          ]
    ]
  ]

  apply_entry-IsConsistent :
      (snap : Snapshot N) (w : World N)
      → IsConsistent w.registry
      → IsConsistent (apply_entry snap w).registry
  unfolding apply_entry
  apply_entry-IsConsistent snap w v = elim (Bool-cases (is_empty snap.id)) [
    | inl nameless ↦ rw (nameless, apply_entry) v
    | inr named ↦ elim (Bool-cases (is_local w.registry.local_player_id snap.id)) [
      | inl mine ↦
          rw (named, mine, apply_entry)
            (snapshot_of_local-IsConsistent snap (ensure_local snap w)
              (ensure_local-IsConsistent snap w mine v))
      | inr remote ↦
          rw (named, remote, apply_entry)
            (with_player-IsConsistent snap.id (refresh_remote snap) _ (refresh_remote-id snap) (
              ensure_remote-IsConsistent w.world_seed snap.id snap.pos snap.name w.registry remote
                v))
    ]
  ]

  pub apply_entries-IsConsistent :
      (list : List (Snapshot N)) (w : World N)
      → IsConsistent w.registry
      → IsConsistent (apply_entries list w).registry
  unfolding apply_entries
  apply_entries-IsConsistent [] w v = v
  apply_entries-IsConsistent (snap ∷ list) w v =
      apply_entries-IsConsistent list (apply_entry snap w) (apply_entry-IsConsistent snap w v)

  drop_missing-IsConsistent :
      (list : List (Snapshot N)) (m : Index) (reg : Registry N)
      → IsConsistent reg
      → IsConsistent (drop_missing list m reg)
  unfolding drop_missing
  drop_missing-IsConsistent list [] reg v = v
  drop_missing-IsConsistent list ((id, r) ∷ m) reg v =
      drop_missing-IsConsistent list m _
        (elim (Bool-cases (not (is_local reg.local_player_id id) && not (in_snapshot id list))) [
          | inl out ↦ rw out (remove_player-IsConsistent id reg v)
          | inr stays ↦ rw stays v
        ])

  -- A snapshot leaves a consistent registry consistent.
  pub apply_snapshot-IsConsistent :
      (list : List (Snapshot N)) (w : World N)
      → IsConsistent w.registry
      → IsConsistent (apply_snapshot list w).registry
  unfolding apply_snapshot
  apply_snapshot-IsConsistent list w v =
      drop_missing-IsConsistent list (apply_entries list w).registry.players_by_id _
        (apply_entries-IsConsistent list w v)

  apply_state-IsConsistent :
      (s : StateEntry N) (w : World N)
      → IsConsistent w.registry
      → IsConsistent (apply_state s w).registry
  unfolding apply_state
  apply_state-IsConsistent s w v = elim (Bool-cases (is_empty s.id)) [
    | inl nameless ↦ rw (nameless, apply_state) v
    | inr named ↦ elim (Bool-cases (is_local w.registry.local_player_id s.id)) [
      | inl mine ↦ rw (named, mine, apply_state) v
      | inr remote ↦
          rw (named, remote, apply_state)
            (with_player-IsConsistent s.id _ _ (λ p. unfold set_remote_target in refl)
              (ensure_remote-IsConsistent w.world_seed s.id s.pos _ w.registry remote v))
    ]
  ]

  pub apply_states-IsConsistent :
      (list : List (StateEntry N)) (w : World N)
      → IsConsistent w.registry
      → IsConsistent (apply_states list w).registry
  unfolding apply_states
  apply_states-IsConsistent [] w v = v
  apply_states-IsConsistent (s ∷ list) w v =
      apply_states-IsConsistent list (apply_state s w) (apply_state-IsConsistent s w v)
