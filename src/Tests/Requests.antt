-- ===== src/Tests/Requests.antt =====
-- The idempotency theorems on one key, and runs of the service as the repository's own tests make
-- them.
use cyber_hub_api.Prelude.{
  ◌+◌, ltb, ◌≡◌, refl, ◌≢◌, String, none, some, arith, str_eq, eq_iff, if◌then◌else◌,
}
use cyber_hub_api.Idempotency.{
  admitted, Store, reserved, different_request, in_progress, Request, replayed, conflict,
  new_record, reserve, complete, fail, storage_get, storage_set, storage_delete, idempotency_guard,
  request_hash_of,
}
use cyber_hub_api.Idempotency.Spec.{view}
use cyber_hub_api.Idempotency.Laws.{
  Reserves, reserve-Reserves, Completes, complete-Completes, Fails, fail-Fails,
}
use cyber_hub_api.Idempotency.Reachable.{
  Reachable, empty, reserving, completing, AreEntries, Reachable-AreEntries, Reachable-IsKeyed,
}
use cyber_hub_api.Idempotency.Requests.{
  answer_of, idempotency_guard_lem, reserved_key_conflicts, completed_is_replayed,
}

abbrev nothing : Store String
nothing key = none

-- The store after the first request.
abbrev busy : Store String
busy = (reserve 100 nothing "key-1" "hash-1").1

abbrev own_hash : String → String
own_hash text = text

abbrev retry : Request
retry = record {
  method = "POST";
  original_url = "/reports";
  body_text = "{}";
  idempotency_key = some "key-1";
}

busy-Reachable : Reachable busy
busy-Reachable = reserving empty 100 "key-1" "hash-1"

abbrev key_name : String
key_name = "key-1"

key_filled : key_name ≢ ""
key_filled e = let h = (eq_iff key_name "").1 e in ground arith

-- The store after the first request was answered.
abbrev answered : Store String
answered = complete 200 busy "key-1" "done" 201

Reachable-AreEntries_example : AreEntries answered
Reachable-AreEntries_example =
    Reachable-AreEntries (completing busy-Reachable 200 "key-1" "done" 201)

reserve-Reserves_example :
    Reserves 100 nothing "key-1" "hash-1"
      (view 100 nothing "key-1")
      (reserve 100 nothing "key-1" "hash-1")
reserve-Reserves_example = reserve-Reserves 100 nothing "key-1" "hash-1"

complete-Completes_example :
    Completes 200 busy "key-1" "done" 201
      (view 200 busy "key-1")
      (complete 200 busy "key-1" "done" 201)
complete-Completes_example =
    complete-Completes 200 busy "key-1" "done" 201 (Reachable-IsKeyed busy-Reachable)

fail-Fails_example : Fails 200 busy "key-1" (view 200 busy "key-1") (fail 200 busy "key-1")
fail-Fails_example = fail-Fails 200 busy "key-1"

idempotency_guard_lem_example :
    (idempotency_guard own_hash 200 busy retry).0
    ≡ answer_of own_hash 200 busy "key-1" (request_hash_of own_hash retry) (view 200 busy "key-1")
idempotency_guard_lem_example =
    idempotency_guard_lem own_hash 200 busy retry "key-1" refl key_filled

reserved_key_conflicts_example : (idempotency_guard own_hash 200 busy retry).0 ≡ (
    if ltb 200 (100 + 86400000)
    then conflict (
        if str_eq "hash-1" (request_hash_of own_hash retry) then in_progress else different_request)
    else admitted "key-1")
unfolding view
reserved_key_conflicts_example =
    reserved_key_conflicts own_hash 100 200 nothing "key-1" "hash-1" retry refl refl key_filled

completed_is_replayed_example :
    (idempotency_guard own_hash 300 (complete 200 busy "key-1" "done" 201) retry).0
    ≡ replayed 201 (some "done")
unfolding reserve storage_get storage_set
completed_is_replayed_example =
    completed_is_replayed own_hash 200 300 busy "key-1" (new_record 100 "key-1" "hash-1") "done" 201
      retry (Reachable-IsKeyed busy-Reachable) refl (omega arith) refl refl key_filled

-- A key that was reserved is refused to another request, and to the same one.
different_request_refused : (reserve 150 busy "key-1" "hash-2").0 ≡ different_request
unfolding reserve storage_get storage_set
different_request_refused = refl

same_request_refused : (reserve 150 busy "key-1" "hash-1").0 ≡ in_progress
unfolding reserve storage_get storage_set
same_request_refused = refl

-- A failed request frees its key.
failed_request_retried : (reserve 150 (fail 120 busy "key-1") "key-1" "hash-1").0 ≡ reserved
unfolding reserve storage_get storage_set storage_delete fail
failed_request_retried = refl
