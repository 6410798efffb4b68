-- ===== src/Manager/Coverage/Laws.antt =====
-- How the two goroutines for coverage data of cmd/manager/main.go end.
use mathlib.Core.Path.{subst}
use database_user_operator.Base.{◌≡◌, refl, ap, ℕ, suc, true, String, List, ltb, arith}
use database_user_operator.Manager.Coverage.{
  CoverageCall, Build, Flusher, ticking, flusher_returned, Runnable, awaiting, stopping,
  runnable_returned, State, flushed, Step, tick, stopped, cancel, close_channel, last_flush, Steps,
  done, more, initial,
}

-- How often the channel was closed, whether the context is done, and what is left of the flusher.
abbrev pub ConsistentWith : Runnable → State → Type 0
ConsistentWith awaiting s = (s.closes ≡ 0) × (s.flusher ≡ ticking)
ConsistentWith stopping s = (s.closes ≡ 1) × (s.cancelled ≡ true)
ConsistentWith runnable_returned s = (s.closes ≡ 1) × (s.cancelled ≡ true)

abbrev pub Consistent : State → Type 0
Consistent s = ConsistentWith s.runnable s

none_closed : (n : ℕ) → n ≡ 0 → ltb 0 n ≡ true → ⊥
none_closed n h c = ground arith

-- The flusher returns only behind a close.
stopped-Consistent :
    (r : Runnable) (s : State)
    → ltb 0 s.closes ≡ true
    → ConsistentWith r s
    → ConsistentWith r (record s { flusher = flusher_returned })
stopped-Consistent awaiting s c h = absurd (none_closed s.closes h.0 c)
stopped-Consistent stopping s c h = h
stopped-Consistent runnable_returned s c h = h

ticked-Consistent :
    (r : Runnable) (s : State) (calls : List CoverageCall)
    → ConsistentWith r s
    → ConsistentWith r (record s { calls = calls })
ticked-Consistent awaiting s calls h = h
ticked-Consistent stopping s calls h = h
ticked-Consistent runnable_returned s calls h = h

cancelled-Consistent :
    (r : Runnable) (s : State)
    → ConsistentWith r s
    → ConsistentWith r (record s { cancelled = true })
cancelled-Consistent awaiting s h = h
cancelled-Consistent stopping s h = (h.0, refl)
cancelled-Consistent runnable_returned s h = (h.0, refl)

module _ (b : Build) (directory : String) where
  step-Consistent : (s t : State) → Step b directory s t → Consistent s → Consistent t
  step-Consistent _ _ (tick s e) h = ticked-Consistent s.runnable s (flushed b directory s.calls) h
  step-Consistent _ _ (stopped s e c) h = stopped-Consistent s.runnable s c h
  step-Consistent _ _ (cancel s) h = cancelled-Consistent s.runnable s h
  step-Consistent _ _ (close_channel s e c) h = (ap suc (subst (λ r. ConsistentWith r s) e h).0, c)
  step-Consistent _ _ (last_flush s e) h = subst (λ r. ConsistentWith r s) e h

  reached-Consistent : (s t : State) → Steps b directory s t → Consistent s → Consistent t
  reached-Consistent _ _ (done s) h = h
  reached-Consistent _ _ (more s t u step steps) h =
      reached-Consistent t u steps (step-Consistent s t step h)

  -- In every order of the steps of the two goroutines, the channel is closed at most once, only
  -- behind the end of the context, and the flusher returns only behind that.
  pub initial-Consistent : (s : State) → Steps b directory initial s → Consistent s
  initial-Consistent s steps = reached-Consistent initial s steps (refl, refl)

  -- The calls that are still to be made once the context is done.
  abbrev pub finish : Runnable → List CoverageCall → List CoverageCall
  finish runnable_returned calls = calls
  finish _ calls = flushed b directory calls

  abbrev pub Ends : State → State → Type 0
  Ends s t =
      (t.flusher ≡ flusher_returned)
      × (t.runnable ≡ runnable_returned)
      × (t.closes ≡ 1)
      × (t.calls ≡ finish s.runnable s.calls)

  stop_flusher :
      (f : Flusher) (s : State)
      → s.flusher ≡ f
      → s.closes ≡ 1
      → s.runnable ≡ runnable_returned
      → (t : State) × Steps b directory s t × Ends (record s { runnable = runnable_returned }) t
  stop_flusher ticking s e c r =
      let t = record s { flusher = flusher_returned } in
      (t, more s t t (stopped s e (rw c refl)) (done t), (refl, r, c, refl))
  stop_flusher flusher_returned s e c r = (s, done s, (e, r, c, refl))

  finish_stopping :
      (s : State)
      → s.runnable ≡ stopping
      → s.closes ≡ 1
      → (t : State) × Steps b directory s t × Ends (record s { runnable = stopping }) t
  finish_stopping s e c =
      let last = record s { runnable = runnable_returned; calls = flushed b directory s.calls } in
      let (t, steps, ends) = stop_flusher s.flusher last refl c refl in
      (t, more s last t (last_flush s e) steps, ends)

  finish_runnable :
      (r : Runnable) (s : State)
      → s.runnable ≡ r
      → s.cancelled ≡ true
      → ConsistentWith r s
      → (t : State) × Steps b directory s t × Ends (record s { runnable = r }) t
  finish_runnable awaiting s e c h =
      let closed = record s { runnable = stopping; closes = suc s.closes } in
      let (t, steps, ends) = finish_stopping closed refl (ap suc h.0) in
      (t, more s closed t (close_channel s e c) steps, ends)
  finish_runnable stopping s e c h = finish_stopping s e h.0
  finish_runnable runnable_returned s e c h = stop_flusher s.flusher s refl h.0 e

  -- Once the context is done, in whatever order the steps were so far, both goroutines can return,
  -- with the channel closed once, behind one more flush if the runnable has not made its own.
  pub initial-Ends :
      (s : State)
      → Steps b directory initial s
      → s.cancelled ≡ true
      → (t : State) × Steps b directory s t × Ends s t
  initial-Ends s steps c = finish_runnable s.runnable s refl c (initial-Consistent s steps)
