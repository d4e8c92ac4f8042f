-- ===== src/Governor/Examples.antt =====
-- The governor's theorems at concrete inputs.
use local_first_orchestrator.Base.{
  ◌≡◌, refl, false, some, [], ◌∷◌, List, arith, err, ok, permission_error, pos, Host, ◌+◌, ◌<◌,
  ◌&&◌, str_eq, ◌≤◌, count_where, find_where, is_blank, sum_where, String,
}
use local_first_orchestrator.Ledger.{
  Ledger, PaidPurpose, empty_ledger, Budget, escalation, unknown_outcome, PaidReservation,
}
use local_first_orchestrator.Governor.Requests.{
  Reservation, purpose_eq, used, approved_calls, budget_of, limit_for,
}
use local_first_orchestrator.Governor.Authorize.{authorize, configure, new_reservation}
use local_first_orchestrator.Governor.Budget.{IsSound}
use local_first_orchestrator.Governor.Ended.{HasEnded}
use local_first_orchestrator.Governor.Runs.{
  Operation, authorizing, perform_all, budget_respected, ended_stays, unknown_never_repeated,
  authorize_new_outcome,
}

abbrev host : Host
host = record {
  digest = λ s. s;
  redact_error = λ s. s;
  redact_evidence = λ s. s;
  stable_error = λ s. s;
}

abbrev budget : Budget
budget = record {
  feature_id = "feature";
  architecture_limit = 1;
  checkpoint_limit = 1;
  escalation_limit = 1;
  created_at = 5;
  updated_at = 5;
}

abbrev funded : Ledger
funded = record empty_ledger { budgets = budget ∷ [] }

configure_funds :
    (configure "feature" (pos 1) (pos 1) (pos 1) 5 empty_ledger).1.budgets ≡ funded.budgets
unfolding configure find_where
configure_funds = refl

funded-IsSound : IsSound funded
unfolding used approved_calls count_where
funded-IsSound = record { ids = λ i. omega arith; within = λ f p b found. omega arith }

abbrev script : List Operation
script =
    authorizing "feature" escalation "key" "id1" 7
    ∷ authorizing "feature" escalation "other" "id2" 8
    ∷ []

budget_respected_example :
    used "feature" escalation (perform_all host script funded)
    ≤ limit_for escalation budget
      + approved_calls "feature" escalation (perform_all host script funded)
unfolding perform_all authorize find_where is_blank sum_where count_where
budget_respected_example =
    budget_respected host script funded "feature" escalation budget funded-IsSound refl

abbrev lost_row : PaidReservation
lost_row = record (new_reservation "id1" "feature" escalation "key" 7) {
  status = unknown_outcome;
  reason = some "runner outcome ambiguous";
  updated_at = 9;
}

abbrev lost : Ledger
lost = record funded { reservations = lost_row ∷ [] }

lost-HasEnded : HasEnded "feature" escalation "key" unknown_outcome lost
unfolding find_where
lost-HasEnded = record { row = lost_row; found = refl; status = refl }

lost_fits :
    (f : String) (p : PaidPurpose) (b : Budget)
    → budget_of f lost ≡ some b
    → used f p lost ≤ limit_for p b + approved_calls f p lost
unfolding used approved_calls count_where find_where
lost_fits f p b found = ground arith

lost-IsSound : IsSound lost
unfolding used approved_calls count_where find_where
lost-IsSound = record { ids = λ i. ground arith; within = lost_fits }

ended_stays_example :
    HasEnded "feature" escalation "key" unknown_outcome (perform_all host script lost)
ended_stays_example =
    ended_stays "feature" escalation "key" unknown_outcome host script lost lost-IsSound refl
      lost-HasEnded

unknown_never_repeated_example :
    authorize "feature" escalation "key" "id3" 20 (perform_all host script lost) ≡ (
      err (permission_error "paid invocation has unknown outcome and must not be repeated"),
      perform_all host script lost,
    )
unfolding is_blank
unknown_never_repeated_example =
    unknown_never_repeated host script lost "feature" escalation "key" "id3" 20 lost-IsSound refl
      lost-HasEnded

abbrev wide : Budget
wide = record budget { escalation_limit = 2 }

abbrev room : Ledger
room = record lost { budgets = wide ∷ [] }

authorize_new_outcome_example :
    (let limit = limit_for escalation wide + approved_calls "feature" escalation room in
      let r = authorize "feature" escalation "next" "id4" 30 room in
      let v : Reservation = record {
        reservation_id = "id4";
        feature_id = "feature";
        purpose = escalation;
        request_key = "next";
      } in
      (limit ≤ used "feature" escalation room
        → r ≡ (err (permission_error "paid budget exhausted; needs_checkpoint"), room))
      × (used "feature" escalation room < limit
          → (r.0 ≡ ok v)
            × (r.1 ≡ record room {
              reservations =
                  new_reservation "id4" "feature" escalation "next" 30 ∷ room.reservations;
              events = r.1.events;
            })
            × (used "feature" escalation r.1 ≡ used "feature" escalation room + 1)
            × (used "feature" escalation r.1
                ≤ limit_for escalation wide + approved_calls "feature" escalation r.1)
            × ((g : String) (q : PaidPurpose)
                → (str_eq "feature" g && purpose_eq escalation q) ≡ false
                → used g q r.1 ≡ used g q room)
            × (authorize "feature" escalation "next" "id5" 31 r.1 ≡ (ok v, r.1))))
unfolding find_where is_blank
authorize_new_outcome_example =
    authorize_new_outcome "feature" escalation "next" "id4" "id5" 30 31 wide room refl refl refl
      refl
