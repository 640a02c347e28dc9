-- ===== src/Server/Storage/Totals.antt =====
-- The statistics of storage.ts against the history of the kills.
use snow_brawl_game.Base.{
  ◌⊎◌, ℕ, ◌+◌, ◌≡◌, refl, ap, ◌∙◌, ◌≢◌, inl, inr, List, [], ◌∷◌, ◌++◌, Option, none, some, arith,
  Option-cases, Bool-cases,
}
use mathlib.Core.Option
use snow_brawl_game.Base.Text.{Text, Text-discrete}
use snow_brawl_game.Base.Dict
use snow_brawl_game.Server.State.{KillRecord}
use snow_brawl_game.Server.Storage.{
  PlayerStats, Store, StoreAction, upsert_stats, record_kill, cleanup_old_kills, player_stats_of,
  run_store,
}

-- What `getPlayerStats` shows of a name; nothing for a name without a row.
abbrev pub shown : Option PlayerStats → ℕ × ℕ
shown none = (0, 0)
shown (some row) = (row.kills, row.deaths)

-- The amount, if the names agree.
abbrev pub credit : Text → Text → ℕ → ℕ
credit a b n = elim (Text-discrete a b) [ yes _ ↦ n | no _ ↦ 0 ]

credit_self : (a : Text) (n : ℕ) → credit a a n ≡ n
credit_self a n = ground arith

credit_other : (a b : Text) → a ≢ b → (n : ℕ) → credit a b n ≡ 0
credit_other a b ne n = ground arith

credit_none : (a b : Text) → credit a b 0 ≡ 0
credit_none a b = ground arith

same_or_not : (a b : Text) → (a ≡ b) ⊎ (a ≢ b)
same_or_not a b = elim (Text-discrete a b) [ yes p ↦ inl p | no p ↦ inr p ]

abbrev pub one_if : Text → Text → ℕ
one_if a b = credit a b 1

-- The abstract view: how often the history says that the name killed, and that it was killed.
abbrev pub killed : Text → List StoreAction → ℕ
killed name [] = 0
killed name (StoreAction.kills id now kill ∷ actions) =
    one_if kill.attacker_name name + killed name actions
killed name (StoreAction.cleans now ∷ actions) = killed name actions

abbrev pub died : Text → List StoreAction → ℕ
died name [] = 0
died name (StoreAction.kills id now kill ∷ actions) =
    one_if kill.victim_name name + died name actions
died name (StoreAction.cleans now ∷ actions) = died name actions

get-append :
    {V : Type 0} (k q : Text) (v : V) (m : List (Text × V))
    → Dict.get Text-discrete k m ≡ none
    → Dict.get Text-discrete q (m ++ (k, v) ∷ [])
      ≡ Dict.get Text-discrete q (Dict.set Text-discrete k v m)
unfolding Dict.get Dict.set
get-append k q v [] h = refl
get-append k q v ((j, w) ∷ m) h = ground (arith, get-append k q v m)

get-upsert_stats_ne :
    (name q : Text) (row : PlayerStats) (table : List (Text × PlayerStats))
    → name ≢ q
    → Dict.get Text-discrete q (upsert_stats name row table) ≡ Dict.get Text-discrete q table
unfolding upsert_stats
get-upsert_stats_ne name q row table ne = elim (Option-cases (Dict.get Text-discrete name table)) [
  | inl new ↦
      rw (new, upsert_stats)
        (get-append name q row table new ∙ Dict.get-set_ne Text-discrete name q row table ne)
  | inr (old, found) ↦ rw (found, upsert_stats) (Dict.get-set_ne Text-discrete name q _ table ne)
]

upsert_stats-shown_self :
    (name : Text) (row : PlayerStats) (table : List (Text × PlayerStats))
    → let before = shown (Dict.get Text-discrete name table) in
      let after = shown (Dict.get Text-discrete name (upsert_stats name row table)) in
      (after.0 ≡ before.0 + row.kills) × (after.1 ≡ before.1 + row.deaths)
unfolding upsert_stats
upsert_stats-shown_self name row table = elim (Option-cases (Dict.get Text-discrete name table)) [
  | inl new ↦
      (let here =
          get-append name name row table new ∙ Dict.get-set_self Text-discrete name row table in
        rw (new, upsert_stats) (rw (here, shown) (omega arith, omega arith)))
  | inr (old, found) ↦
      (let grown : PlayerStats = record row {
        kills = old.kills + row.kills;
        deaths = old.deaths + row.deaths;
      } in
        rw (found, upsert_stats)
          (rw (Dict.get-set_self Text-discrete name grown table, shown) (refl, refl)))
]

-- A name's own row grows by what is added, the others' stay.
upsert_stats-shown :
    (name q : Text) (row : PlayerStats) (table : List (Text × PlayerStats))
    → let before = shown (Dict.get Text-discrete q table) in
      let after = shown (Dict.get Text-discrete q (upsert_stats name row table)) in
      (after.0 ≡ before.0 + credit name q row.kills)
      × (after.1 ≡ before.1 + credit name q row.deaths)
upsert_stats-shown name q row table = elim (same_or_not name q) [
  | inl same ↦ rw (← same) (
      rw (credit_self name row.kills, credit_self name row.deaths)
        (upsert_stats-shown_self name row table))
  | inr other ↦
      rw
        (
          get-upsert_stats_ne name q row table other,
          credit_other name q other row.kills,
          credit_other name q other row.deaths,
        )
        (omega arith, omega arith)
]

-- Kills and deaths of a name after a kill that was recorded.
record_kill-shown :
    (id : Text) (now : ℕ) (kill : KillRecord) (store next : Store) (q : Text)
    → record_kill id now kill store ≡ some next
    → let before = shown (player_stats_of q store) in
      let after = shown (player_stats_of q next) in
      (after.0 ≡ before.0 + one_if kill.attacker_name q)
      × (after.1 ≡ before.1 + one_if kill.victim_name q)
unfolding record_kill player_stats_of
record_kill-shown id now kill store next q h =
    elim (Bool-cases (Dict.has Text-discrete id store.kills)) [
      | inl taken ↦ cc (rw (taken, record_kill) at h)
      | inr free ↦
          (let attacker : PlayerStats = record {
            kills = 1;
            deaths = 0;
            last_seen = now;
            last_player_id = kill.attacker_id;
          } in
            let victim : PlayerStats = record {
              kills = 0;
              deaths = 1;
              last_seen = now;
              last_player_id = kill.victim_id;
            } in
            let middle = upsert_stats kill.attacker_name attacker store.player_stats in
            let stored : some (upsert_stats kill.victim_name victim middle)
                ≡ some next.player_stats =
              ap (λ (o : Option Store). Option.map (λ (t : Store). t.player_stats) o)
                (rw (free, record_kill) at h) in
            let is : upsert_stats kill.victim_name victim middle ≡ next.player_stats = cc stored in
            let first = upsert_stats-shown kill.attacker_name q attacker store.player_stats in
            let second = upsert_stats-shown kill.victim_name q victim middle in
            rw (← is) (
              omega (arith, first.0, second.0, credit_none kill.victim_name q),
              omega (arith, first.1, second.1, credit_none kill.attacker_name q),
            ))
    ]

pub run_store-shown :
    (actions : List StoreAction) (store last : Store) (q : Text)
    → run_store actions store ≡ some last
    → let before = shown (player_stats_of q store) in
      let after = shown (player_stats_of q last) in
      (after.0 ≡ before.0 + killed q actions) × (after.1 ≡ before.1 + died q actions)
unfolding run_store cleanup_old_kills player_stats_of
run_store-shown [] store last q h =
    let same : store ≡ last = cc h in rw (← same) (omega arith, omega arith)
run_store-shown (StoreAction.kills id now kill ∷ actions) store last q h =
    elim (Option-cases (record_kill id now kill store)) [
      | inl thrown ↦ cc (rw (thrown, run_store) at h)
      | inr (next, done) ↦
          (let first = record_kill-shown id now kill store next q done in
            let rest = run_store-shown actions next last q (rw (done, run_store) at h) in
            (omega (arith, first.0, rest.0), omega (arith, first.1, rest.1)))
    ]
run_store-shown (StoreAction.cleans now ∷ actions) store last q h =
    run_store-shown actions (cleanup_old_kills now store) last q h
