-- ===== src/Server/Storage.antt =====
-- The two tables of storage.ts, as its SQL statements change them. Rows are in the order of
-- insertion; what SQLite says of statements it runs (ON CONFLICT, PRIMARY KEY) is written out.
pub mod Totals
pub mod Kept
use snow_brawl_game.Base.{
  ℕ, zero, suc, ◌+◌, ◌*◌, ◌≡◌, refl, sym, ap, ◌∙◌, ◌≢◌, inl, inr, Bool, true, false, List, [], ◌∷◌,
  ◌++◌, Option, none, some, arith, ltb, leb, if◌then◌else◌, Option-cases, or_else,
}
use snow_brawl_game.Base.Text.{Text, Text-discrete}
use snow_brawl_game.Base.Dict
use snow_brawl_game.Server.State.{KillRecord}

-- A row of `kills`, less its primary key.
pub record KillRow : Type 0 where
  pub what : KillRecord
  pub timestamp : ℕ

-- A row of `player_stats`, less its primary key.
pub record PlayerStats : Type 0 where
  pub kills : ℕ
  pub deaths : ℕ
  pub last_seen : ℕ
  pub last_player_id : Text

pub record Store : Type 0 where
  pub kills : List (Text × KillRow)
  pub player_stats : List (Text × PlayerStats)

-- `upsertStatsStmt`.
unfoldable pub upsert_stats :
    Text → PlayerStats → List (Text × PlayerStats) → List (Text × PlayerStats)
upsert_stats name row table = elim (Dict.get Text-discrete name table) [
  | none ↦ table ++ (name, row) ∷ []
  | some old ↦
      Dict.set Text-discrete name
        (record row { kills = old.kills + row.kills; deaths = old.deaths + row.deaths }) table
]

-- `recordKill`, with its id and its time; `none` where the insertion throws, since the id is taken.
unfoldable pub record_kill : Text → ℕ → KillRecord → Store → Option Store
unfolding upsert_stats
record_kill id now kill store =
    if Dict.has Text-discrete id store.kills
    then none
    else some (record {
      kills = store.kills ++ (id, record { what = kill; timestamp = now }) ∷ [];
      player_stats =
          upsert_stats kill.victim_name
            (record { kills = 0; deaths = 1; last_seen = now; last_player_id = kill.victim_id })
            (upsert_stats kill.attacker_name
              (record { kills = 1; deaths = 0; last_seen = now; last_player_id = kill.attacker_id })
              store.player_stats);
    })

-- `cleanupStmt` with the cutoff of `cleanupOldKills`, 30 days.
unfoldable pub drop_old : ℕ → List (Text × KillRow) → List (Text × KillRow)
drop_old now [] = []
drop_old now ((id, row) ∷ rows) =
    let rest = drop_old now rows in
    if ltb (row.timestamp + 30 * 24 * 60 * 60 * 1000) now then rest else (id, row) ∷ rest

unfoldable pub cleanup_old_kills : ℕ → Store → Store
unfolding drop_old
cleanup_old_kills now store = record store { kills = drop_old now store.kills }

-- `getPlayerStats`.
unfoldable pub player_stats_of : Text → Store → Option PlayerStats
player_stats_of name store = Dict.get Text-discrete name store.player_stats

-- What happens to the store: a kill, with the id drawn for it, or the hourly cleanup.
pub data StoreAction : Type 0 where
  kills : Text → ℕ → KillRecord → StoreAction
  cleans : ℕ → StoreAction

unfoldable pub run_store : List StoreAction → Store → Option Store
unfolding record_kill cleanup_old_kills
run_store [] store = some store
run_store (kills id now kill ∷ actions) store = elim (record_kill id now kill store) [
  | none ↦ none
  | some next ↦ run_store actions next
]
run_store (cleans now ∷ actions) store = run_store actions (cleanup_old_kills now store)
