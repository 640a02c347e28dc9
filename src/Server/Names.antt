-- ===== src/Server/Names.antt =====
-- What `clampName` of utils.ts makes of any text.
use snow_brawl_game.Base.{
  ℕ, zero, suc, ◌≤◌, ◌≡◌, refl, inl, inr, Bool, true, false, ◌&&◌, [], ◌∷◌, arith, Bool-cases,
  length, take, if_cases,
}
use snow_brawl_game.Base.Text.{Text, utf16, is_empty}
use snow_brawl_game.Utils.Strings.{is_space, trim, trim_start, trim_end}
use snow_brawl_game.Server.Utils.{collapse_spaces, clamp_name, max_name}

-- White space is a plain space, and never follows white space; the flag stands for what precedes.
abbrev pub IsNeat : Bool → Text → Type 0
IsNeat after_space [] = Unit
IsNeat after_space (c ∷ s) =
    (is_space c ≡ true → (c ≡ 32) × (after_space ≡ false)) × IsNeat (is_space c) s

-- The first unit, if any, is no white space.
abbrev StartsFull : Text → Type 0
StartsFull [] = Unit
StartsFull (c ∷ s) = is_space c ≡ false

trim_start-StartsFull : (s : Text) → StartsFull (trim_start s)
unfolding trim_start
trim_start-StartsFull [] = tt
trim_start-StartsFull (c ∷ s) =
    if_cases StartsFull (is_space c) (λ space. trim_start-StartsFull s) (λ full. full)

trim_end-StartsFull : (s : Text) → StartsFull s → StartsFull (trim_end s)
unfolding trim_end
trim_end-StartsFull [] h = tt
trim_end-StartsFull (c ∷ s) h =
    if_cases StartsFull (is_space c && is_empty (trim_end s)) (λ blank. tt) (λ full. h)

collapse_spaces-IsNeat : (in_run : Bool) (s : Text) → IsNeat in_run (collapse_spaces in_run s)
unfolding collapse_spaces
collapse_spaces-IsNeat in_run [] = tt
collapse_spaces-IsNeat in_run (c ∷ s) = elim (Bool-cases (is_space c)) [
  | inl space ↦ elim in_run as (λ r. IsNeat r (collapse_spaces r (c ∷ s))) [
    | true ↦ rw (space, collapse_spaces) (collapse_spaces-IsNeat true s)
    | false ↦
        rw (space, collapse_spaces)
          ((λ is. (refl, refl)), unfold is_space in collapse_spaces-IsNeat true s)
  ]
  | inr full ↦ rw (full, collapse_spaces) ((λ is. cc), rw full (collapse_spaces-IsNeat false s))
]

collapse_spaces-StartsFull : (s : Text) → StartsFull s → StartsFull (collapse_spaces false s)
unfolding collapse_spaces
collapse_spaces-StartsFull [] h = tt
collapse_spaces-StartsFull (c ∷ s) h = rw (h, collapse_spaces) h

IsNeat-start : (s : Text) → StartsFull s → IsNeat false s → IsNeat true s
IsNeat-start [] h v = tt
IsNeat-start (c ∷ s) h v = (λ is. cc, v.1)

take-IsNeat : (n : ℕ) (b : Bool) (s : Text) → IsNeat b s → IsNeat b (take n s)
take-IsNeat zero b s v = tt
take-IsNeat (suc n) b [] v = tt
take-IsNeat (suc n) b (c ∷ s) v = (v.0, take-IsNeat n (is_space c) s v.1)

length-take : (n : ℕ) (s : Text) → length (take n s) ≤ n
length-take zero s = omega arith
length-take (suc n) [] = omega arith
length-take (suc n) (c ∷ s) = omega (arith, length-take n s)

length-take_pos : (n : ℕ) (s : Text) → is_empty s ≡ false → 1 ≤ length (take (suc n) s)
length-take_pos n [] h = cc
length-take_pos n (c ∷ s) h = omega arith

player-IsNeat : IsNeat true (utf16 "Player")
unfolding is_space
player-IsNeat =
    ((λ is. cc), ((λ is. cc), ((λ is. cc), ((λ is. cc), ((λ is. cc), ((λ is. cc), tt))))))

-- For every text: the name that clampName makes of it has between 1 and 20 units, does not begin
-- with white space, and has no white space but single plain spaces.
pub clamp_name-IsNeat :
    (name : Text)
    → (1 ≤ length (clamp_name name))
      × (length (clamp_name name) ≤ max_name)
      × IsNeat true (clamp_name name)
unfolding clamp_name
clamp_name-IsNeat name =
    let trimmed = collapse_spaces false (trim name) in
    if_cases
      (λ s.
        (1 ≤ length (take max_name s))
        × (length (take max_name s) ≤ max_name)
        × IsNeat true (take max_name s))
      (is_empty trimmed) (λ blank. (omega arith, omega arith, player-IsNeat))
      (λ full. (
        length-take_pos 19 trimmed full,
        length-take max_name trimmed,
        take-IsNeat max_name true trimmed (
            IsNeat-start trimmed
              (collapse_spaces-StartsFull (trim name)
                (unfold trim in trim_end-StartsFull (trim_start name) (trim_start-StartsFull name)))
              (collapse_spaces-IsNeat false (trim name))),
      ))
