-- ===== src/Server/Storage/Kept.antt =====
-- The insertions of storage.ts, over a history of kills and cleanups.
use snow_brawl_game.Base.{ℕ, ◌+◌, ◌≡◌, refl, ◌≢◌, List, [], ◌∷◌, ◌++◌, none, some, arith}
use snow_brawl_game.Base.Text.{Text, Text-discrete}
use snow_brawl_game.Base.Dict
use snow_brawl_game.Server.Storage.{
  KillRow, Store, StoreAction, record_kill, drop_old, cleanup_old_kills, player_stats_of, run_store,
}
use snow_brawl_game.Server.Storage.Totals.{shown, killed, died, run_store-shown}

abbrev Rows : Type 0
Rows = List (Text × KillRow)

-- No kill of the history has an id of the table.
abbrev pub Absent : List StoreAction → Rows → Type 0
Absent [] rows = Unit
Absent (StoreAction.kills id now kill ∷ actions) rows =
    (Dict.get Text-discrete id rows ≡ none) × Absent actions rows
Absent (StoreAction.cleans now ∷ actions) rows = Absent actions rows

-- No kill of the history has the given id.
abbrev pub Without : Text → List StoreAction → Type 0
Without id [] = Unit
Without id (StoreAction.kills j now kill ∷ actions) = (id ≢ j) × Without id actions
Without id (StoreAction.cleans now ∷ actions) = Without id actions

-- No two kills of the history have one id.
abbrev pub NewIds : List StoreAction → Type 0
NewIds [] = Unit
NewIds (StoreAction.kills id now kill ∷ actions) = Without id actions × NewIds actions
NewIds (StoreAction.cleans now ∷ actions) = NewIds actions

get-append_ne :
    (q k : Text) (row : KillRow) (rows : Rows)
    → k ≢ q
    → Dict.get Text-discrete q rows ≡ none
    → Dict.get Text-discrete q (rows ++ (k, row) ∷ []) ≡ none
unfolding Dict.get
get-append_ne q k row [] ne h = ground arith
get-append_ne q k row ((j, w) ∷ rows) ne h = ground (arith, get-append_ne q k row rows ne)

get-drop_old :
    (now : ℕ) (q : Text) (rows : Rows)
    → Dict.get Text-discrete q rows ≡ none
    → Dict.get Text-discrete q (drop_old now rows) ≡ none
unfolding Dict.get drop_old
get-drop_old now q [] h = h
get-drop_old now q ((j, w) ∷ rows) h = ground (arith, get-drop_old now q rows)

Absent-append :
    (actions : List StoreAction) (k : Text) (row : KillRow) (rows : Rows)
    → Without k actions
    → Absent actions rows
    → Absent actions (rows ++ (k, row) ∷ [])
Absent-append [] k row rows w v = tt
Absent-append (StoreAction.kills id now kill ∷ actions) k row rows (ne, w) (gone, v) =
    (get-append_ne id k row rows ne gone, Absent-append actions k row rows w v)
Absent-append (StoreAction.cleans now ∷ actions) k row rows w v =
    Absent-append actions k row rows w v

Absent-drop_old :
    (actions : List StoreAction) (now : ℕ) (rows : Rows)
    → Absent actions rows
    → Absent actions (drop_old now rows)
Absent-drop_old [] now rows v = tt
Absent-drop_old (StoreAction.kills id at kill ∷ actions) now rows (gone, v) =
    (get-drop_old now id rows gone, Absent-drop_old actions now rows v)
Absent-drop_old (StoreAction.cleans at ∷ actions) now rows v = Absent-drop_old actions now rows v

run_store-kept :
    (actions : List StoreAction) (store : Store)
    → NewIds actions
    → Absent actions store.kills
    → (last : Store) × (run_store actions store ≡ some last)
unfolding run_store record_kill cleanup_old_kills
run_store-kept [] store fresh v = (store, refl)
run_store-kept (StoreAction.kills id now kill ∷ actions) store (without, fresh) (gone, v) =
    rw (gone, Dict.has, run_store)
      (run_store-kept actions _ fresh (Absent-append actions id _ store.kills without v))
run_store-kept (StoreAction.cleans now ∷ actions) store fresh v =
    run_store-kept actions (cleanup_old_kills now store) fresh
      (Absent-drop_old actions now store.kills v)

-- For a history of kills and hourly cleanups in which no two kills have one id, nor has one an id
-- of the table: no insertion throws, and in the end getPlayerStats shows for every name its kills and
-- deaths from before, more by the number of kills of the history with that name as attacker,
-- respectively as victim, however many of their rows were cleaned up meanwhile.
pub run_store-totals :
    (actions : List StoreAction) (store : Store) (q : Text)
    → NewIds actions
    → Absent actions store.kills
    → let before = shown (player_stats_of q store) in
      (last : Store) × (run_store actions store ≡ some last)
      × ((shown (player_stats_of q last)).0 ≡ before.0 + killed q actions)
      × ((shown (player_stats_of q last)).1 ≡ before.1 + died q actions)
run_store-totals actions store q fresh v =
    let (last, ran) = run_store-kept actions store fresh v in
    let (kills, deaths) = run_store-shown actions store last q ran in (last, ran, kills, deaths)
