-- ===== src/LockManager/Tests.antt =====
-- tests/unit/test_lock_state.py, and the theorems at concrete inputs.
use sinkronisasi_dan_distrib.Base.{
  none, String, ◌≡◌, refl, none, some, List, [], ◌∷◌, lookup, insert, erase, contains, set_add,
  set_discard, member, dec_string,
}
use sinkronisasi_dan_distrib.LockManager.{
  Result, abort, Mode, exclusive, shared, LockRequest, LockStateMachine, Command, acquire, release,
  init, released, granted, get_lock, apply, run, get_status, grant_waiting, grant_each,
  grant_request, grant_holder, take_granted, add_held, drop_holder, discard_held, apply_acquire,
  acquire_new, can_grant, apply_release, release_holder,
}
use sinkronisasi_dan_distrib.LockManager.Grants.{holds}
use sinkronisasi_dan_distrib.LockManager.Retry.{acquire_retry}
use sinkronisasi_dan_distrib.LockManager.Safety.{
  mutual_exclusion, held_by_client_agrees, Released, release-Released,
}

program : Unit {0}
unfolding lookup insert erase set_add set_discard member dec_string apply run get_status
    grant_waiting grant_each grant_request grant_holder take_granted add_held drop_holder
    discard_held apply_acquire acquire_new can_grant apply_release release_holder
program = tt

abbrev alpha : String → String → Mode → LockRequest
alpha id client mode = record {
  request_id = id;
  lock_name = "alpha";
  client_id = client;
  mode = mode;
  created_at = 1;
  ttl_ms = none;
}

-- `test_lock_fairness_shared_then_exclusive`, up to the release
abbrev fairness : List Command
fairness =
    acquire (alpha "r1" "c1" shared)
    ∷ acquire (alpha "r2" "c2" exclusive)
    ∷ acquire (alpha "r3" "c3" shared)
    ∷ []

abbrev after_release : LockStateMachine
after_release = (apply (run init fairness) (release "alpha" "c1")).0

fairness_test : get_status after_release "r2" ≡ some (granted "r2" "alpha" "c2" exclusive)
unfolding program
fairness_test = refl

abbrev exclusive_first : List Command
exclusive_first = acquire (alpha "r1" "c1" exclusive) ∷ acquire (alpha "r2" "c2" shared) ∷ []

mutual_exclusion_example : ◌≡◌ {A = String} "c1" "c1"
unfolding program
mutual_exclusion_example = mutual_exclusion exclusive_first "alpha" "c1" "c1" exclusive refl refl

held_by_client_agrees_example :
    let m = run init fairness in
    let s = get_lock m "alpha" in
    (holds m.held_by_client "c1" "alpha" ≡ contains "c1" s.holders)
    × (contains "c1" s.holder_expiry ≡ contains "c1" s.holders)
held_by_client_agrees_example = held_by_client_agrees fairness "alpha" "c1"

-- the request waits behind the two readers, is aborted, and is sent again
acquire_retry_example :
    let m' =
      run
        (apply (run init fairness) (acquire (alpha "r9" "c9" exclusive))).0
        (abort "r9" none ∷ []) in
    (result : Result) × (get_status m' "r9" ≡ some result)
    × (apply m' (acquire (alpha "r9" "c8" shared)) ≡ (m', result))
acquire_retry_example =
    acquire_retry (run init fairness) (alpha "r9" "c9" exclusive) (alpha "r9" "c8" shared)
      (abort "r9" none ∷ []) refl

release-Released_example :
    Released after_release "alpha" "c1" (get_lock (run init fairness) "alpha")
    × ((apply (run init fairness) (release "alpha" "c1")).1 ≡ released "alpha" "c1")
unfolding program
release-Released_example =
    release-Released (run init fairness) "alpha" "c1" (get_lock (run init fairness) "alpha") refl
      refl
