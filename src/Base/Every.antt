-- ===== src/Base/Every.antt =====
-- What holds of every entry of a map.
use snow_brawl_game.Base.{Option-cases, ◌≡◌, refl, ◌≢◌, List, [], ◌∷◌, some, arith, true, inl, inr}
use snow_brawl_game.Base.Dict.{
  get-delete-none, get, set, delete, has, get-set_self, get-set_ne, get-delete_ne,
}

module _ {ℓ κ} {K V : Type ℓ} (P : K → V → Type κ) where
  abbrev pub Every : List (K × V) → Type κ
  Every [] = Unit
  Every ((k, v) ∷ m) = P k v × Every m

module _ {ℓ κ} {K V : Type ℓ} (P : K → V → Type κ) (dec : Discrete K) where
  pub get-Every : (k : K) (v : V) (m : List (K × V)) → Every P m → get dec k m ≡ some v → P k v
  unfolding get
  get-Every k v [] all h = cc
  get-Every k v ((j, w) ∷ m) (here, rest) h = ground (arith, get-Every k v m rest)

  pub set-Every : (k : K) (v : V) (m : List (K × V)) → P k v → Every P m → Every P (set dec k v m)
  unfolding set
  set-Every k v [] p all = (p, tt)
  set-Every k v ((j, w) ∷ m) p (here, rest) = ground (arith, set-Every k v m p rest)

  pub delete-Every : (k : K) (m : List (K × V)) → Every P m → Every P (delete dec k m)
  unfolding delete
  delete-Every k [] all = tt
  delete-Every k ((j, w) ∷ m) (here, rest) = ground (arith, delete-Every k m rest)

module _ {ℓ} {K V : Type ℓ} (dec : Discrete K) where
  pub has-set_self : (k : K) (v : V) (m : List (K × V)) → has dec k (set dec k v m) ≡ true
  has-set_self k v m = rw (get-set_self dec k v m, has) refl

  pub has-set :
      (q k : K) (v : V) (m : List (K × V)) → has dec q m ≡ true → has dec q (set dec k v m) ≡ true
  has-set q k v m h = elim (dec k q) [
    | yes p ↦ rw (← p) (has-set_self k v m)
    | no p ↦ rw (get-set_ne dec k q v m p, has) h
  ]

  pub has-delete_ne :
      (q k : K) (m : List (K × V)) → k ≢ q → has dec q (delete dec k m) ≡ has dec q m
  has-delete_ne q k m ne = rw (get-delete_ne dec k q m ne, has) refl

  pub has-of_delete :
      (q k : K) (m : List (K × V)) → has dec q (delete dec k m) ≡ true → has dec q m ≡ true
  has-of_delete q k m on = elim (Option-cases (get dec q m)) [
    | inl gone ↦ cc (get-delete-none dec q k m gone)
    | inr (r, found) ↦ rw (found, has) refl
  ]
