-- ===== src/Manager/Coverage.antt =====
-- The coverage data of integration tests: flushCoverage of cmd/manager/coverage.go and coverage_stub.go,
-- and the two goroutines of cmd/manager/main.go that call it, coverageRunnable.Start and
-- startCoverageFlusher, with their steps in any order. A flush is one step.
pub mod Laws
use database_user_operator.Base.{
  ◌≡◌, ℕ, suc, Bool, true, false, String, List, [], ◌∷◌, ltb, if◌then◌else◌, Result,
}
use database_user_operator.Effects.{Action, pure, ◌>>◌}

-- The calls to runtime/coverage.
pub data CoverageCall : Type 0 where
  write_meta_dir : (directory : String) → CoverageCall
  write_counters_dir : (directory : String) → CoverageCall

-- The build tag cover, and the replies of runtime/coverage.
pub record Build : Type 0 where
  pub cover : Bool
  pub reply : List CoverageCall → CoverageCall → Result (Unit {0})

-- What startCoverageFlusher is about to do: to wait for a tick or for the channel, or nothing more.
pub data Flusher : Type 0 where
  ticking flusher_returned : Flusher

-- What coverageRunnable.Start is about to do: to wait for the end of its context, to flush behind
-- close(c.stopChan), or nothing more.
pub data Runnable : Type 0 where
  awaiting stopping runnable_returned : Runnable

-- `cancelled` is the end of the context, `closes` the number of times that stopChan was closed: a
-- second time panics. The newest call comes first.
pub record State : Type 0 where
  pub flusher : Flusher
  pub runnable : Runnable
  pub cancelled : Bool
  pub closes : ℕ
  pub calls : List CoverageCall

module _ (b : Build) (directory : String) where
  unfoldable pub call : CoverageCall → Action (List CoverageCall) Unit
  call c calls = (b.reply calls c, c ∷ calls)

  unfoldable pub flush_coverage : Action (List CoverageCall) Unit
  flush_coverage =
      if b.cover
      then (do call (write_meta_dir directory); call (write_counters_dir directory))
      else pure tt

  -- An error of a flush is only logged.
  abbrev pub flushed : List CoverageCall → List CoverageCall
  flushed calls = (flush_coverage calls).1

  -- Where both a tick and the channel are ready, select takes either.
  pub data Step : State → State → Type 0 where
    tick : (s : State) → s.flusher ≡ ticking → Step s (record s { calls = flushed s.calls })
    stopped :
        (s : State)
        → s.flusher ≡ ticking
        → ltb 0 s.closes ≡ true
        → Step s (record s { flusher = flusher_returned })
    cancel : (s : State) → Step s (record s { cancelled = true })
    close_channel :
        (s : State)
        → s.runnable ≡ awaiting
        → s.cancelled ≡ true
        → Step s (record s { runnable = stopping; closes = suc s.closes })
    last_flush :
        (s : State)
        → s.runnable ≡ stopping
        → Step s (record s { runnable = runnable_returned; calls = flushed s.calls })

  pub data Steps : State → State → Type 0 where
    done : (s : State) → Steps s s
    more : (s t u : State) → Step s t → Steps t u → Steps s u

-- Both goroutines are started and the context is not done.
abbrev pub initial : State
initial = record {
  flusher = ticking;
  runnable = awaiting;
  cancelled = false;
  closes = 0;
  calls = [];
}
