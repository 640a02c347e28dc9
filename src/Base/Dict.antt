-- ===== src/Base/Dict.antt =====
-- The JavaScript `Map`: entries in insertion order; `set` on a key that is there keeps its place.
use mathlib.Core.Logic.{inr, inl, ite, if_pos}
use snow_brawl_game.Base.{
  Option-cases, ◌≡◌, refl, ◌≢◌, List, [], ◌∷◌, Option, none, some, arith, Bool, true, false,
}

module _ {ℓ} {K V : Type ℓ} (dec : Discrete K) where
  unfoldable pub get : K → List (K × V) → Option V
  get k [] = none
  get k ((j, v) ∷ m) = ite (dec j k) (some v) (get k m)

  unfoldable pub set : K → V → List (K × V) → List (K × V)
  set k v [] = (k, v) ∷ []
  set k v ((j, w) ∷ m) = ite (dec j k) ((j, v) ∷ m) ((j, w) ∷ set k v m)

  unfoldable pub delete : K → List (K × V) → List (K × V)
  delete k [] = []
  delete k ((j, w) ∷ m) = ite (dec j k) m ((j, w) ∷ delete k m)

  abbrev pub has : K → List (K × V) → Bool
  has k m = elim (get k m) [ none ↦ false | some _ ↦ true ]

  pub get-none_of_has : (k : K) (m : List (K × V)) → has k m ≡ false → get k m ≡ none
  get-none_of_has k m h = elim (Option-cases (get k m)) [
    | inl gone ↦ gone
    | inr (v, found) ↦ ground arith
  ]

  pub get-set_self : (k : K) (v : V) (m : List (K × V)) → get k (set k v m) ≡ some v
  unfolding get set
  get-set_self k v [] = if_pos (dec k k) refl _ _
  get-set_self k v ((j, w) ∷ m) = ground (arith, get-set_self k v m)

  pub get-set_ne : (k q : K) (v : V) (m : List (K × V)) → k ≢ q → get q (set k v m) ≡ get q m
  unfolding get set
  get-set_ne k q v [] h = ground arith
  get-set_ne k q v ((j, w) ∷ m) h = ground (arith, get-set_ne k q v m h)

  pub get-delete_ne : (k q : K) (m : List (K × V)) → k ≢ q → get q (delete k m) ≡ get q m
  unfolding get delete
  get-delete_ne k q [] h = refl
  get-delete_ne k q ((j, w) ∷ m) h = ground (arith, get-delete_ne k q m h)

  -- No key occurs twice.
  abbrev pub Distinct : List (K × V) → Type ℓ
  Distinct [] = Unit
  Distinct ((k, v) ∷ m) = (get k m ≡ none) × Distinct m

  pub get-delete-none : (q k : K) (m : List (K × V)) → get q m ≡ none → get q (delete k m) ≡ none
  unfolding get delete
  get-delete-none q k [] h = refl
  get-delete-none q k ((j, w) ∷ m) h = ground (arith, get-delete-none q k m)

  pub get-delete_self : (k : K) (m : List (K × V)) → Distinct m → get k (delete k m) ≡ none
  unfolding get delete
  get-delete_self k [] d = refl
  get-delete_self k ((j, w) ∷ m) d = ground (arith, get-delete_self k m d.1)

  pub delete-Distinct : (k : K) (m : List (K × V)) → Distinct m → Distinct (delete k m)
  unfolding delete
  delete-Distinct k [] d = tt
  delete-Distinct k ((j, w) ∷ m) d =
      ground (arith, delete-Distinct k m d.1, get-delete-none j k m d.0)

  pub set-Distinct : (k : K) (v : V) (m : List (K × V)) → Distinct m → Distinct (set k v m)
  unfolding get set
  set-Distinct k v [] d = (refl, tt)
  set-Distinct k v ((j, w) ∷ m) d = ground (arith, set-Distinct k v m d.1, get-set_ne k j v m)
