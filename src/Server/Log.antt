-- ===== src/Server/Log.antt =====
-- The event log of state.ts: how its events are numbered, and which of them `pruneEvents` drops.
use snow_brawl_game.Base.{
  if◌then◌else◌, ℕ, zero, suc, ◌+◌, ◌≤◌, ◌≡◌, refl, sym, ap, ◌∙◌, false, List, [], ◌∷◌, ◌++◌, arith,
  ltb, if_cases,
}
use snow_brawl_game.Server.Protocol.{Numbered, event}
use snow_brawl_game.Server.State.{Output, prune_events, event_ms, broadcast}

-- 1, 2, …, n.
abbrev pub up_to : ℕ → List ℕ
up_to zero = []
up_to (suc n) = up_to n ++ suc n ∷ []

module _ {N : Type 0} where
  -- The numbers of a stretch of the log: from `first` on, one by one, up to `last`.
  abbrev pub Numbers : ℕ → ℕ → List (Numbered N) → Type 0
  Numbers first last [] = first ≡ suc last
  Numbers first last (ev ∷ events) = (ev.seq ≡ first) × Numbers (suc first) last events

  -- The numbers of the events that were broadcast.
  abbrev pub announced : List (Output N) → List ℕ
  announced [] = []
  announced (broadcast (event ev) ∷ outbox) = ev.seq ∷ announced outbox
  announced (_ ∷ outbox) = announced outbox

  pub announced-append :
      (xs ys : List (Output N)) → announced (xs ++ ys) ≡ announced xs ++ announced ys
  announced-append [] ys = refl
  announced-append (broadcast (event ev) ∷ xs) ys = ap (λ t. ev.seq ∷ t) (announced-append xs ys)
  announced-append (_ ∷ xs) ys = announced-append xs ys

  pub Numbers-append :
      (first last : ℕ) (events : List (Numbered N)) (ev : Numbered N)
      → ev.seq ≡ suc last
      → Numbers first last events
      → Numbers first (suc last) (events ++ ev ∷ [])
  Numbers-append first last [] ev h v = (h ∙ sym v, ap suc v)
  Numbers-append first last (x ∷ events) ev h (here, rest) =
      (here, Numbers-append (suc first) last events ev h rest)

  pub Numbers-prune :
      (now first last : ℕ) (events : List (Numbered N))
      → Numbers first last events
      → (n : ℕ) × Numbers n last (prune_events now events)
  unfolding prune_events
  Numbers-prune now first last [] v = (first, v)
  Numbers-prune now first last (x ∷ events) v =
      if_cases (λ (kept : List (Numbered N)). (n : ℕ) × Numbers n last kept)
        (ltb (x.at + event_ms) now) (λ old. Numbers-prune now (suc first) last events v.1)
        (λ fresh. (first, v))

  -- No event is earlier than the one before it.
  abbrev pub Ascending : ℕ → List (Numbered N) → Type 0
  Ascending low [] = Unit
  Ascending low (ev ∷ events) = (low ≤ ev.at) × Ascending ev.at events

  -- The events of the last two minutes.
  abbrev pub recent : ℕ → List (Numbered N) → List (Numbered N)
  recent now [] = []
  recent now (ev ∷ events) =
      let rest = recent now events in if ltb (ev.at + event_ms) now then rest else ev ∷ rest

  recent-all :
      (now low : ℕ) (events : List (Numbered N))
      → ltb (low + event_ms) now ≡ false
      → Ascending low events
      → recent now events ≡ events
  recent-all now low [] h v = refl
  recent-all now low (ev ∷ events) h v = ground (arith, recent-all now ev.at events, v.1)

  -- When the times of the log never decrease, pruneEvents keeps exactly the events of the last two
  -- minutes, wherever they stand.
  pub prune_events-recent :
      (now low : ℕ) (events : List (Numbered N))
      → Ascending low events
      → prune_events now events ≡ recent now events
  unfolding prune_events
  prune_events-recent now low [] v = refl
  prune_events-recent now low (ev ∷ events) v =
      if_cases
        (λ (kept : List (Numbered N)).
          kept ≡ (if ltb (ev.at + event_ms) now then recent now events else ev ∷ recent now events))
        (ltb (ev.at + event_ms) now) (λ old. rw old (prune_events-recent now ev.at events v.1))
        (λ new. rw new (ap (λ t. ev ∷ t) (sym (recent-all now ev.at events new v.1))))
