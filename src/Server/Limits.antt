-- ===== src/Server/Limits.antt =====
-- How much the two limits of state.ts let through.
use snow_brawl_game.Base.{
  ℕ, suc, ◌+◌, ◌*◌, ◌≤◌, Bool, List, [], ◌∷◌, arith, leb, ◌-◌, if◌then◌else◌,
}
use snow_brawl_game.Server.State.{WsClient, rate_limit_ok, state_freq_ok}

-- A limit asked at the given times, one after the other: how often it says yes, and the client after.
abbrev pub passed : (ℕ → WsClient → Bool × WsClient) → List ℕ → WsClient → ℕ × WsClient
passed limit [] c = (0, c)
passed limit (now ∷ times) c =
    let (ok, c') = limit now c in
    let (rest, last) = passed limit times c' in ((if ok then suc rest else rest), last)

-- No time is later than the given one.
abbrev pub By : ℕ → List ℕ → Type 0
By end [] = Unit
By end (now ∷ times) = (now ≤ end) × By end times

abbrev capped : ℕ → ℕ
capped n = if leb n 1200 then n else 1200

rate_limit_ok-step :
    (now end : ℕ) (c : WsClient)
    → now ≤ end
    → c.bucket_start ≤ end
    → let (ok, c') = rate_limit_ok now c in
      (c'.bucket_start ≤ end)
      × (10001 * (if ok then 1 else 0) + 10001 * capped c.bucket_count + 1200 * c.bucket_start
          ≤ 1200 * c'.bucket_start + 10001 * capped c'.bucket_count)
unfolding rate_limit_ok
rate_limit_ok-step now end c h b = ground arith

rate_limit_ok-potential :
    (times : List ℕ) (end : ℕ) (c : WsClient)
    → By end times
    → c.bucket_start ≤ end
    → 10001 * (passed rate_limit_ok times c).0
        + 10001 * capped c.bucket_count
        + 1200 * c.bucket_start
      ≤ 1200 * end + 10001 * 1200
rate_limit_ok-potential [] end c by b = ground arith
rate_limit_ok-potential (now ∷ times) end c (h, by) b =
    let (ok, c') = rate_limit_ok now c in
    let (b', step) = rate_limit_ok-step now end c h b in
    ground (arith, rate_limit_ok-potential times end c' by b')

-- Whatever the times at which a client's messages come, in any order but none after `end`, the
-- limit that onmessage asks lets at most 1200 through for every started window of more than ten
-- seconds: the number let through, times 10001, is at most 1200 times the milliseconds since the
-- client's window started plus 10001.
pub rate_limit_ok-bound :
    (times : List ℕ) (end : ℕ) (c : WsClient)
    → By end times
    → c.bucket_start ≤ end
    → 10001 * (passed rate_limit_ok times c).0 ≤ 1200 * (end - c.bucket_start + 10001)
rate_limit_ok-bound times end c by b = omega (arith, rate_limit_ok-potential times end c by b)

state_freq_ok-step :
    (now end : ℕ) (c : WsClient)
    → now ≤ end
    → c.last_state_at ≤ end
    → let (ok, c') = state_freq_ok now c in
      (c'.last_state_at ≤ end)
      × (75 * (if ok then 1 else 0) + 2 * c.last_state_at ≤ 2 * c'.last_state_at)
unfolding state_freq_ok
state_freq_ok-step now end c h b = ground arith

-- Whatever the times of a client's state messages, in any order but none after `end`, those that
-- pass stateFreqOk are at least 37.5 milliseconds apart on average: 75 times their number is at most
-- twice the milliseconds since the last one that had passed before.
pub state_freq_ok-bound :
    (times : List ℕ) (end : ℕ) (c : WsClient)
    → By end times
    → c.last_state_at ≤ end
    → 75 * (passed state_freq_ok times c).0 ≤ 2 * (end - c.last_state_at)
state_freq_ok-bound [] end c by b = omega arith
state_freq_ok-bound (now ∷ times) end c (h, by) b =
    let (ok, c') = state_freq_ok now c in
    let (b', step) = state_freq_ok-step now end c h b in
    ground (arith, state_freq_ok-bound times end c' by b')
