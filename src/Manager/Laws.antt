-- ===== src/Manager/Laws.antt =====
-- How main of cmd/manager/main.go ends.
use database_user_operator.Base.{
  ◌≡◌, refl, Bool, true, false, List, [], ◌∷◌, ◌⊎◌, inl, inr, GoError, Result, ok, err, String,
  ◌==◌, if◌then◌else◌,
}
use database_user_operator.Effects.{pure, attempt, ◌>>◌}
use database_user_operator.Effects.Triples.{Post, Triple, Triple-bind, Triple-pure}
use database_user_operator.Manager.{
  Request, new_manager, set_up_controller, add_healthz_check, add_readyz_check,
  start_coverage_flusher, add_coverage_runnable, start_manager, Libraries, options, ask,
  setup_with_manager, collect_coverage, run, exit_code, main,
}

-- The requests that main may go on without.
abbrev is_optional : Request → Bool
is_optional (start_coverage_flusher _) = true
is_optional (add_coverage_runnable _) = true
is_optional _ = false

module _ (l : Libraries) where
  -- Every request that main needs was accepted.
  abbrev pub Accepted : List Request → Type 0
  Accepted [] = Unit
  Accepted (r ∷ requests) =
      ((is_optional r ≡ true) ⊎ (l.reply requests r ≡ ok tt)) × Accepted requests

  -- The last request was refused, and those before it were accepted.
  abbrev pub Refused : List Request → Type 0
  Refused [] = ⊥
  Refused (r ∷ requests) = ((e : GoError) × (l.reply requests r ≡ err e)) × Accepted requests

  -- These requests were made, and accepted.
  abbrev After : List Request → List Request → Type 0
  After made requests = (requests ≡ made) × Accepted requests

  asked :
      (made : List Request) (r : Request) (reply : Result (Unit {0})) (requests : List Request)
      → l.reply requests r ≡ reply
      → After made requests
      → Post (λ _. After (r ∷ made)) Refused (reply, r ∷ requests)
  asked made r (ok _) requests e (same, accepted) = (rw same refl, (inr e, accepted))
  asked made r (err f) requests e (same, accepted) = ((f, e), accepted)

  ask-Triple :
      (made : List Request) (r : Request)
      → Triple (After made) (ask l r) (λ _. After (r ∷ made)) Refused
  unfolding ask
  ask-Triple made r = record {
    run = λ requests h. asked made r (l.reply requests r) requests refl h;
  }

  try-Triple :
      (made : List Request) (r : Request)
      → is_optional r ≡ true
      → Triple (After made) (attempt (ask l r)) (λ _. After (r ∷ made)) Refused
  unfolding ask attempt
  try-Triple made r h = record { run = λ requests a. (rw a.0 refl, (inl h, a.1)) }

  -- The requests for coverage data.
  abbrev pub for_coverage : (directory : String) → List Request → List Request
  for_coverage directory made =
      if directory == ""
      then made
      else add_coverage_runnable directory ∷ start_coverage_flusher directory ∷ made

  coverage_if-Triple :
      (b : Bool) (directory : String) (made : List Request)
      → Triple
          (After made)
          (if b then pure tt else (do
            attempt (ask l (start_coverage_flusher directory))
            attempt (ask l (add_coverage_runnable directory))
            pure tt))
          (λ _. After (
            if b
            then made
            else add_coverage_runnable directory ∷ start_coverage_flusher directory ∷ made))
          Refused
  coverage_if-Triple true directory made = Triple-pure (λ _. After made) Refused tt (λ s h. h)
  coverage_if-Triple false directory made =
      let begun = start_coverage_flusher directory ∷ made in
      let both = add_coverage_runnable directory ∷ begun in
      Triple-bind (λ _. After begun) (λ _. After both) Refused _ _ (try-Triple made _ refl)
        (λ _.
          Triple-bind (λ _. After both) (λ _. After both) Refused _ _ (try-Triple begun _ refl)
            (λ _. Triple-pure (λ _. After both) Refused tt (λ s h. h)))

  -- The four requests that come first.
  abbrev pub set_up : (metrics_address probe_address : String) → List Request
  set_up metrics_address probe_address =
      add_readyz_check
      ∷ add_healthz_check
      ∷ set_up_controller 15 60
      ∷ new_manager (options metrics_address probe_address)
      ∷ []

  abbrev pub all_requests : (metrics_address probe_address : String) → List Request
  all_requests metrics_address probe_address =
      start_manager ∷ for_coverage l.coverage_directory (set_up metrics_address probe_address)

  run-Triple :
      (metrics_address probe_address : String)
      → Triple
          (After [])
          (run l metrics_address probe_address)
          (λ _. After (all_requests metrics_address probe_address))
          Refused
  unfolding run setup_with_manager collect_coverage
  run-Triple metrics_address probe_address =
      let value = λ (_ : Unit {0}). After (all_requests metrics_address probe_address) in
      let first = new_manager (options metrics_address probe_address) ∷ [] in
      let second = set_up_controller 15 60 ∷ first in
      let third = add_healthz_check ∷ second in
      let fourth = add_readyz_check ∷ third in
      Triple-bind (λ _. After first) value Refused _ _ (ask-Triple [] _)
        (λ _.
          Triple-bind (λ _. After second) value Refused _ _ (ask-Triple first _)
            (λ _.
              Triple-bind (λ _. After third) value Refused _ _ (ask-Triple second _)
                (λ _.
                  Triple-bind (λ _. After fourth) value Refused _ _ (ask-Triple third _)
                    (λ _.
                      Triple-bind (λ _. After (for_coverage l.coverage_directory fourth)) value
                        Refused _ _
                        (coverage_if-Triple (l.coverage_directory == "") l.coverage_directory
                          fourth)
                        (λ _. ask-Triple (for_coverage l.coverage_directory fourth) _)))))

  ended :
      (made : List Request) (r : Result (Unit {0})) (requests : List Request)
      → Post (λ _. After made) Refused (r, requests)
      → ((exit_code l r ≡ 0) × After made requests) ⊎ ((exit_code l r ≡ 1) × Refused requests)
  unfolding exit_code
  ended made (ok _) requests h = inl (refl, h)
  ended made (err e) requests h = inr (refl, h)

  -- Either main exits with 0, and it has made all requests in order, with a controller whose retries
  -- wait 15 seconds at first and 60 at most, and the start of the manager last, and all but those for coverage data were accepted; or it exits with 1 at once behind the first
  -- of these that was refused, and makes no request after it.
  pub main-exit_code :
      (metrics_address probe_address : String)
      → (((main l metrics_address probe_address).0 ≡ 0)
          × (((main l metrics_address probe_address).1 ≡ all_requests metrics_address probe_address)
              × Accepted (main l metrics_address probe_address).1))
        ⊎ (((main l metrics_address probe_address).0 ≡ 1)
            × Refused (main l metrics_address probe_address).1)
  unfolding main
  main-exit_code metrics_address probe_address =
      ended (all_requests metrics_address probe_address) (run l metrics_address probe_address []).0
        (run l metrics_address probe_address []).1
        ((run-Triple metrics_address probe_address).run [] (refl, tt))
