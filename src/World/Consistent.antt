-- ===== src/World/Consistent.antt =====
-- The registry's invariant, and that its operations keep it.
use snow_brawl_game.Base.{
  ℕ, zero, suc, ◌≡◌, refl, sym, ap, ◌∙◌, inl, inr, List, [], ◌∷◌, ◌++◌, Option, Option-cases, none,
  some, arith, length, modify, false,
}
use snow_brawl_game.Base.Text.{Text, Text-discrete}
use snow_brawl_game.Base.Dict
use snow_brawl_game.Player.{Player, destroy}
use snow_brawl_game.World.{
  Index, Registry, lookup, object_ids, update_object, add_player, remove_player, is_local,
}
use snow_brawl_game.World.Entries.{
  refs, set, delete, Entries, refs-set, Entries-set, refs-delete, Entries-delete,
  lookup-delete-none,
}

-- While there is no local player, no entry has the id of the local player.
abbrev pub Vacant : Option ℕ → Option Text → Index → Type 0
Vacant (some _) id m = Unit {0}
Vacant none none m = Unit {0}
Vacant none (some l) m = lookup l m ≡ none

Vacant-delete :
    (lp : Option ℕ) (lid : Option Text) (k : Text) (m : Index)
    → Vacant lp lid m
    → Vacant lp lid (delete k m)
Vacant-delete (some _) lid k m v = tt
Vacant-delete none none k m v = tt
Vacant-delete none (some l) k m v = lookup-delete-none l k m v

Vacant-set :
    (lp : Option ℕ) (lid : Option Text) (k : Text) (r : ℕ) (m : Index)
    → is_local lid k ≡ false
    → Vacant lp lid m
    → Vacant lp lid (set k r m)
unfolding is_local
Vacant-set (some _) lid k r m h v = tt
Vacant-set none none k r m h v = tt
Vacant-set none (some l) k r m h v = Dict.get-set_ne Text-discrete k l r m (ground arith) ∙ v

module _ {N : Type 0} where
  -- The array lists exactly the players of the map, in the map's order; each entry of the map refers
  -- to an object of its own with the key for id; no key and no reference occurs twice.
  pub record IsConsistent (reg : Registry N) : Type 0 where
    pub aligned : reg.players ≡ refs reg.players_by_id
    pub entries : Entries 0 (object_ids reg.objects) reg.players_by_id
    pub vacant : Vacant reg.local_player reg.local_player_id reg.players_by_id

  object_ids-append :
      (ps : List (Player N)) (p : Player N) → object_ids (ps ++ p ∷ []) ≡ object_ids ps ++ p.id ∷ []
  object_ids-append [] p = refl
  object_ids-append (q ∷ ps) p = rw (object_ids-append ps p)

  length-object_ids : (ps : List (Player N)) → length (object_ids ps) ≡ length ps
  length-object_ids [] = refl
  length-object_ids (p ∷ ps) = ap suc (length-object_ids ps)

  pub object_ids-modify :
      (ps : List (Player N)) (r : ℕ) (f : Player N → Player N)
      → ((p : Player N) → (f p).id ≡ p.id)
      → object_ids (modify ps r f) ≡ object_ids ps
  object_ids-modify [] r f h = refl
  object_ids-modify (p ∷ ps) zero f h = rw (h p)
  object_ids-modify (p ∷ ps) (suc r) f h = rw (object_ids-modify ps r f h)

  pub update_object-IsConsistent :
      (r : ℕ) (f : Player N → Player N) (reg : Registry N)
      → ((p : Player N) → (f p).id ≡ p.id)
      → IsConsistent reg
      → IsConsistent (update_object r f reg)
  unfolding update_object
  update_object-IsConsistent r f reg h v = record {
    aligned = v.aligned;
    entries = rw (object_ids-modify reg.objects r f h) (v.entries);
    vacant = v.vacant;
  }

  pub add_player-aligned :
      (id : Text) (p : Player N) (reg : Registry N)
      → p.id ≡ id
      → lookup id reg.players_by_id ≡ none
      → IsConsistent reg
      → let after = add_player id p reg in
        (after.players ≡ refs after.players_by_id)
        × Entries 0 (object_ids after.objects) after.players_by_id
  unfolding add_player
  add_player-aligned id p reg named new v =
      let n = length reg.objects in
      (
        rw (v.aligned, refs-set id n reg.players_by_id new) refl,
        rw (object_ids-append reg.objects p, named, ← length-object_ids reg.objects)
            (Entries-set 0 (object_ids reg.objects) id reg.players_by_id (omega arith) new
              v.entries),
      )

  -- A remote player with a new id.
  pub add_player-IsConsistent :
      (id : Text) (p : Player N) (reg : Registry N)
      → p.id ≡ id
      → lookup id reg.players_by_id ≡ none
      → is_local reg.local_player_id id ≡ false
      → IsConsistent reg
      → IsConsistent (add_player id p reg)
  unfolding add_player
  add_player-IsConsistent id p reg named new remote v =
      let (a, b) = add_player-aligned id p reg named new v in
      record {
        aligned = unfold add_player in a;
        entries = unfold add_player in b;
        vacant = Vacant-set _ _ id (length reg.objects) reg.players_by_id remote v.vacant;
      }

  pub remove_player-IsConsistent :
      (id : Text) (reg : Registry N) → IsConsistent reg → IsConsistent (remove_player id reg)
  unfolding remove_player
  remove_player-IsConsistent id reg v = elim (Option-cases (lookup id reg.players_by_id)) [
    | inl gone ↦ rw (gone, remove_player) v
    | inr (r, found) ↦
        rw (found, remove_player)
          (record {
            aligned = rw v.aligned (sym (refs-delete 0 _ id reg.players_by_id r v.entries found));
            entries =
                rw (object_ids-modify reg.objects r destroy (λ p. unfold destroy in refl))
                  (Entries-delete 0 _ id reg.players_by_id v.entries);
            vacant =
                Vacant-delete reg.local_player reg.local_player_id id reg.players_by_id v.vacant;
          })
  ]
