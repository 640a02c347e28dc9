-- ===== src/World/Entries.antt =====
-- The map of the players, against the ids in the store: every entry refers to an object with its key
-- for id, references grow along the map, and no key occurs twice.
use snow_brawl_game.Base.{
  ℕ, suc, ◌≤◌, ◌≡◌, refl, List, [], ◌∷◌, ◌++◌, map, none, some, arith, length, get_elem?,
  get_elem?-append_left, get_elem?-append_new, get_elem?-bound,
}
use snow_brawl_game.Base.Text.{Text, Text-discrete}
use snow_brawl_game.Base.Dict
use snow_brawl_game.World.{Index, lookup, splice}

abbrev pub refs : Index → List ℕ
refs = map (λ entry. entry.1)

abbrev pub set : Text → ℕ → Index → Index
set = Dict.set Text-discrete

abbrev pub delete : Text → Index → Index
delete = Dict.delete Text-discrete

abbrev pub Entries : ℕ → List Text → Index → Type 0
Entries low ids [] = Unit {0}
Entries low ids ((k, r) ∷ m) =
    (low ≤ r) × (get_elem? ids r ≡ some k) × (lookup k m ≡ none) × Entries (suc r) ids m

pub Entries-mono :
    (a b : ℕ) (ids : List Text) (m : Index) → a ≤ b → Entries b ids m → Entries a ids m
Entries-mono a b ids [] h v = tt
Entries-mono a b ids ((k, r) ∷ m) h (low, here, once, rest) = (omega arith, here, once, rest)

-- A new key goes to the end.
pub refs-set :
    (k : Text) (r : ℕ) (m : Index) → lookup k m ≡ none → refs (set k r m) ≡ refs m ++ r ∷ []
unfolding Dict.get Dict.set
refs-set k r [] h = refl
refs-set k r ((j, q) ∷ m) h = ground (arith, refs-set k r m)

pub Entries-set :
    (low : ℕ) (ids : List Text) (k : Text) (m : Index)
    → low ≤ length ids
    → lookup k m ≡ none
    → Entries low ids m
    → Entries low (ids ++ k ∷ []) (set k (length ids) m)
unfolding Dict.get Dict.set
Entries-set low ids k [] h new v = (h, get_elem?-append_new ids k, refl, tt)
Entries-set low ids k ((j, q) ∷ m) h new v = ground (
  arith,
  get_elem?-append_left ids (k ∷ []) q j v.1,
  get_elem?-bound ids q j v.1,
  Dict.get-set_ne Text-discrete k j (length ids) m,
  Entries-set (suc q) ids k m,
)

pub lookup-delete-none : (q k : Text) (m : Index) → lookup q m ≡ none → lookup q (delete k m) ≡ none
unfolding Dict.get Dict.delete
lookup-delete-none q k [] h = refl
lookup-delete-none q k ((j, r) ∷ m) h = ground (arith, lookup-delete-none q k m)

pub lookup-ge :
    (low : ℕ) (ids : List Text) (k : Text) (m : Index) (r : ℕ)
    → Entries low ids m
    → lookup k m ≡ some r
    → low ≤ r
unfolding Dict.get
lookup-ge low ids k [] r v h = cc
lookup-ge low ids k ((j, q) ∷ m) r v h = ground (arith, lookup-ge (suc q) ids k m r v.3)

pub Entries-delete :
    (low : ℕ) (ids : List Text) (k : Text) (m : Index)
    → Entries low ids m
    → Entries low ids (delete k m)
unfolding Dict.delete
Entries-delete low ids k [] v = tt
Entries-delete low ids k ((j, q) ∷ m) v = ground (
  arith,
  Entries-mono low (suc q) ids m,
  Entries-delete (suc q) ids k m v.3,
  lookup-delete-none j k m,
)

-- The reference behind a key leaves the list of references together with the key.
pub refs-delete :
    (low : ℕ) (ids : List Text) (k : Text) (m : Index) (r : ℕ)
    → Entries low ids m
    → lookup k m ≡ some r
    → refs (delete k m) ≡ splice r (refs m)
unfolding Dict.get Dict.delete splice
refs-delete low ids k [] r v h = cc
refs-delete low ids k ((j, q) ∷ m) r v h =
    ground (arith, refs-delete (suc q) ids k m r v.3, lookup-ge (suc q) ids k m r v.3)

pub lookup-delete_self :
    (low : ℕ) (ids : List Text) (k : Text) (m : Index)
    → Entries low ids m
    → lookup k (delete k m) ≡ none
unfolding Dict.get Dict.delete
lookup-delete_self low ids k [] v = refl
lookup-delete_self low ids k ((j, q) ∷ m) v = ground (arith, lookup-delete_self (suc q) ids k m v.3)
