-- ===== src/Tests/Manager.antt =====
-- A manager that starts, and the goroutines for its coverage data.
use database_user_operator.Base.{◌≡◌, ◌⊎◌, ok, refl, true, []}
use database_user_operator.Manager.Coverage.{
  Build, State, Steps, tick, cancel, more, done, initial, flushed,
}
use database_user_operator.Manager.Coverage.Laws.{
  Consistent, Ends, initial-Consistent, initial-Ends,
}
use database_user_operator.Manager.{Libraries, main}
use database_user_operator.Manager.Laws.{Accepted, Refused, all_requests, main-exit_code}

abbrev starting : Libraries
starting = record { reply = λ requests r. ok tt; coverage_directory = "/coverage" }

main-exit_code_example :
    (((main starting ":8080" ":8081").0 ≡ 0)
      × (((main starting ":8080" ":8081").1 ≡ all_requests starting ":8080" ":8081")
          × Accepted starting (main starting ":8080" ":8081").1))
    ⊎ (((main starting ":8080" ":8081").0 ≡ 1) × Refused starting (main starting ":8080" ":8081").1)
main-exit_code_example = main-exit_code starting ":8080" ":8081"

abbrev covering : Build
covering = record { cover = true; reply = λ calls c. ok tt }

abbrev cancelled_state : State
cancelled_state = record initial { cancelled = true; calls = flushed covering "/coverage" [] }

-- A tick, and then the end of the context.
cancelling : Steps covering "/coverage" initial cancelled_state
cancelling =
    let ticked = record initial { calls = flushed covering "/coverage" [] } in
    more initial ticked cancelled_state (tick initial refl)
      (more ticked cancelled_state cancelled_state (cancel ticked) (done cancelled_state))

initial-Consistent_example : Consistent cancelled_state
initial-Consistent_example = initial-Consistent covering "/coverage" cancelled_state cancelling

initial-Ends_example :
    (t : State) × Steps covering "/coverage" cancelled_state t
    × Ends covering "/coverage" cancelled_state t
initial-Ends_example = initial-Ends covering "/coverage" cancelled_state cancelling refl
