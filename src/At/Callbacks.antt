-- ===== src/At/Callbacks.antt =====
-- app/api/v1/at/idempotency.py: deduplication of callbacks that are delivered at least once.
pub mod Refinement
mod Tests
use ekaette.Prelude.{
  ℕ, ◌-◌, ◌*◌, String, Bool, true, false, Option, none, some, ltb, leb, if◌then◌else◌, length,
  colon, second,
}
use ekaette.Dict.{Dict, lookup, insert, erase, erase_all, keys_where}

abbrev pub dedup_window : ℕ
dedup_window = 300 * second

abbrev pub Seen : Type 0
Seen = Dict ℕ

abbrev pub is_old : ℕ → ℕ → Bool
is_old now seen_at = ltb dedup_window (now - seen_at)

-- the rest of the call, once the key is known not to be a duplicate
pub remember : String → ℕ → Seen → Bool × Seen
remember key now seen =
    let kept =
      if ltb 1000 (length seen) then erase_all (keys_where (is_old now) seen) seen else seen in
    (false, insert key now kept)

pub check_seen : String → ℕ → Option ℕ → Seen → Bool × Seen
unfolding remember
check_seen key now none seen = remember key now seen
check_seen key now (some seen_at) seen =
    if leb (now - seen_at) dedup_window then (true, seen) else remember key now (erase key seen)

unfoldable pub is_duplicate_callback : String → String → ℕ → Seen → Bool × Seen
unfolding check_seen
is_duplicate_callback session_id event_key now seen =
    let key = colon session_id event_key in check_seen key now (lookup key seen) seen
