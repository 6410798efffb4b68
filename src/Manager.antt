-- ===== src/Manager.antt =====
-- main of cmd/manager/main.go and SetupWithManager of internal/controller/database_controller.go: the
-- steps that set the manager up.
pub mod Laws
pub mod Coverage
use database_user_operator.Base.{
  ℕ, Bool, true, false, String, List, [], ◌∷◌, ◌==◌, if◌then◌else◌, Result, ok, err,
}
use database_user_operator.Effects.{Action, pure, attempt, ◌>>=◌, ◌>>◌}

-- ctrl.Options, as far as main sets them.
pub record Options : Type 0 where
  pub metrics_address : String
  pub probe_address : String
  pub webhook_port : ℕ
  pub leader_election : Bool
  pub leader_election_id : String

-- What main asks of the libraries. The two delays of the rate limiter are in seconds.
pub data Request : Type 0 where
  new_manager : Options → Request
  set_up_controller : (base_delay max_delay : ℕ) → Request
  add_healthz_check : Request
  add_readyz_check : Request
  start_coverage_flusher : (directory : String) → Request
  add_coverage_runnable : (directory : String) → Request
  start_manager : Request

-- The replies of the libraries, which may depend on the requests before, and the variable GOCOVERDIR.
pub record Libraries : Type 0 where
  pub reply : List Request → Request → Result (Unit {0})
  pub coverage_directory : String

abbrev pub Setup : Type 0 → Type 0
Setup = Action (List Request)

-- What main passes to NewManager, with the addresses of its flags.
unfoldable pub options : (metrics_address probe_address : String) → Options
options metrics_address probe_address = record {
  metrics_address = metrics_address;
  probe_address = probe_address;
  webhook_port = 9443;
  leader_election = true;
  leader_election_id = "database-user-operator.opzkit.io";
}

module _ (l : Libraries) where
  unfoldable pub ask : Request → Setup Unit
  ask r requests = (l.reply requests r, r ∷ requests)

  -- SetupWithManager: the failures of an object are retried after 15 seconds, at most 60.
  unfoldable pub setup_with_manager : Setup Unit
  setup_with_manager = ask (set_up_controller 15 60)

  -- An error of the runnable is only logged.
  unfoldable pub collect_coverage : (directory : String) → Setup Unit
  collect_coverage directory = if directory == "" then pure tt else (do
    attempt (ask (start_coverage_flusher directory))
    attempt (ask (add_coverage_runnable directory))
    pure tt)

  unfoldable pub run : (metrics_address probe_address : String) → Setup Unit
  unfolding options
  run metrics_address probe_address = do
    ask (new_manager (options metrics_address probe_address))
    setup_with_manager
    ask add_healthz_check
    ask add_readyz_check
    collect_coverage l.coverage_directory
    ask start_manager

  -- The exit code of a result: os.Exit(1) behind each error.
  unfoldable pub exit_code : Result (Unit {0}) → ℕ
  exit_code (ok _) = 0
  exit_code (err e) = 1

  -- The exit code and the requests that were made, the newest first.
  unfoldable pub main : (metrics_address probe_address : String) → ℕ × List Request
  unfolding run exit_code
  main metrics_address probe_address =
      let (r, requests) = run metrics_address probe_address [] in (exit_code r, requests)
