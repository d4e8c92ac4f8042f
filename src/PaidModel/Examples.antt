-- ===== src/PaidModel/Examples.antt =====
-- The theorems on paid calls at concrete inputs.
use local_first_orchestrator.Base.{
  ℕ, ◌+◌, ◌≡◌, ◌⊎◌, refl, none, [], ◌∷◌, ok, err, Host, value_error, find_where, count_where, arith,
  is_blank,
}
use local_first_orchestrator.Ledger.{
  Ledger, empty_ledger, escalation, PaidReservation, ModelCall, completed,
}
use local_first_orchestrator.Governor.Requests.{Reservation}
use local_first_orchestrator.Governor.Authorize.{authorize, new_reservation}
use local_first_orchestrator.PaidModel.Invoke.{
  Packet, RunnerOutcome, proposed, Route, invoke, new_call,
}
use local_first_orchestrator.PaidModel.Guard.{IsFree, provider_reached_only_if_IsFree}
use local_first_orchestrator.PaidModel.Lost.{lost_response_raises}

abbrev host : Host
host = record {
  digest = λ s. s;
  redact_error = λ s. s;
  redact_evidence = λ s. s;
  stable_error = λ s. s;
}

abbrev route : Route
route = record {
  provider_alert_target = none;
  provider_alert_failure_threshold = 3;
  provider = "provider";
  model = "model";
}

abbrev packet : Packet
packet = record { ticket_id = none; tranche_id = none; body = "{}" }

-- A provider that counts its calls
abbrev runner : Packet → ℕ → RunnerOutcome × ℕ
runner p calls = (proposed "{}", calls + 1)

abbrev reserved : PaidReservation
reserved = record (new_reservation "id1" "feature" escalation "key" 7) { status = completed }

abbrev begun : ModelCall
begun = new_call "call1" "feature" escalation "id1" packet 7

abbrev lost : Ledger
lost = record empty_ledger { reservations = reserved ∷ []; model_calls = begun ∷ [] }

provider_reached_only_if_IsFree_example :
    (let board' =
        (invoke host route runner "key" packet 9 "feature" escalation "id2" "call2"
          (λ db. db)
          lost
          0).2 in
      (board' ≡ 0)
      ⊎ ((v : Reservation) × ((authorize "feature" escalation "key" "id2" 9 lost).0 ≡ ok v)
          × IsFree host route runner "key" packet 9 v
              (λ db. db)
              (authorize "feature" escalation "key" "id2" 9 lost).1
          × (board' ≡ (runner packet 0).1)))
provider_reached_only_if_IsFree_example =
    provider_reached_only_if_IsFree host route runner "key" packet 9 "feature" escalation "id2"
      "call2" (λ db. db) lost 0

lost_response_raises_example :
    invoke host route runner "key" packet 9 "feature" escalation "id2" "call2" (λ db. db) lost 0
    ≡ (err (value_error "reservation is not in flight"), lost, 0)
unfolding find_where count_where is_blank
lost_response_raises_example =
    lost_response_raises host route runner "key" packet 9 "feature" escalation "id2" "call2"
      (λ db. db) reserved begun lost 0 refl refl (omega arith) refl refl refl
