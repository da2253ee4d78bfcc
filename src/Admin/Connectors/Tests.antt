-- ===== src/Admin/Connectors/Tests.antt =====
-- A connector whose tests fail, and two workers at its lock, in app/api/v1/admin/policy.py.
use ekaette.Prelude.{
  ◌+◌, ◌-◌, ◌*◌, ◌/◌, max, ◌≡◌, refl, true, false, List, [], ◌∷◌, arith, leb, if◌then◌else◌, second,
}
use ekaette.Dict.{lookup, erase_all, keys_where}
use ekaette.Admin.Connectors.{Locks, retry_after_seconds, circuit_is_open, acquire_connector_lock}
use ekaette.Admin.Connectors.Circuit.{
  Probe, failed, succeeded, consecutive, last_failure, after_probes, retry_after_probes,
}
use ekaette.Admin.Connectors.Lock.{acquire, release, lock_run, lock_excludes}

abbrev probes : List Probe
probes =
    failed "c" (30 * second)
    ∷ succeeded "d"
    ∷ failed "c" (20 * second)
    ∷ succeeded "c"
    ∷ failed "c" (10 * second)
    ∷ []

-- two failures in a row open the circuit for sixty seconds
opened : circuit_is_open "c" (40 * second) (after_probes 2 60 probes) ≡ true
unfolding circuit_is_open lookup
opened = ground (arith, retry_after_probes 2 60 "c" probes (40 * second))

retry_after_probes_example : retry_after_seconds "c" (40 * second) (after_probes 2 60 probes) ≡ (
    if leb (max 1 2) (consecutive "c" probes)
    then (last_failure "c" probes + 60 * second - 40 * second) / second
    else 0)
retry_after_probes_example = retry_after_probes 2 60 "c" probes (40 * second)

abbrev free : Locks
free = []

acquired : (acquire_connector_lock 50 "k" 5 free).0 ≡ true
unfolding acquire_connector_lock lookup erase_all keys_where
acquired = refl

lock_excludes_example :
    (acquire_connector_lock 50 "k" 20
      (lock_run 50 (acquire "k" 9 ∷ release "j" ∷ []) (acquire_connector_lock 50 "k" 5 free).1)).0
    ≡ false
lock_excludes_example =
    lock_excludes 50 "k" 5 20 (acquire "k" 9 ∷ release "j" ∷ []) free tt acquired
      (omega arith, (refl, tt)) (omega arith)
