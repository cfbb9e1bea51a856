-- ===== src/Utils/FakeDns/Threads.antt =====
-- controllers/internal/utils/fakedns.go: the goroutines of a test with the fake DNS server. They
-- share the server and the field `err`, and run in any order, one access of `err` at a time. Whether
-- a query is answered, and how the server ends, is open.
pub mod Safety
use k8gb.Prelude.{ℕ, zero, suc, ◌≡◌, Bool, true, false, Option, none, some, []}
use k8gb.Effect.{Error, errorf}

-- A probe: the rounds that are left, or that it has stored its error, or that it has closed its
-- channel, having met what it probes for or not.
pub data Probe : Type 0 where
  probing : ℕ → Probe
  failed : Probe
  closed : Bool → Probe

-- The goroutine of `listen`, which waits for that of `serve`: the result of the server is stored
-- after the server has ended.
pub data Listener : Type 0 where
  serving : Listener
  ended : Option Error → Listener
  finished : Listener

-- The test's own goroutine: it waits for the first probe in `Start`, runs the test's function,
-- stops the server, stores the result of that, waits for the second probe, and returns.
pub data Tester : Type 0 where
  waiting testing stopping awaiting : Tester
  storing : Option Error → Tester
  returned : Option Error → Tester

-- `liveness` is none before the second probe was started, and `shut` is whether the server was asked
-- to stop.
pub record State : Type 0 where
  pub err : Option Error
  pub shut : Bool
  pub readiness : Probe
  pub liveness : Option Probe
  pub listener : Listener
  pub tester : Tester

abbrev pub readiness_error : Error
readiness_error = errorf "readiness probe %s (%s)" []

abbrev pub liveness_error : Error
liveness_error = errorf "liveness probe %s (%s)" []

-- The probe that waits until the server answers.
pub data ReadinessStep (s : State) : State → Type 0 where
  answered :
      (n : ℕ)
      → s.readiness ≡ probing (suc n)
      → ReadinessStep s (record s { readiness = closed true })
  missed :
      (n : ℕ) → s.readiness ≡ probing (suc n) → ReadinessStep s (record s { readiness = probing n })
  gave_up :
      s.readiness ≡ probing zero
      → ReadinessStep s (record s { readiness = failed; err = some readiness_error })
  close : s.readiness ≡ failed → ReadinessStep s (record s { readiness = closed false })

-- The probe that waits until the server does not answer any more.
pub data LivenessStep (s : State) : State → Type 0 where
  gone :
      (n : ℕ)
      → s.liveness ≡ some (probing (suc n))
      → LivenessStep s (record s { liveness = some (closed true) })
  answers :
      (n : ℕ)
      → s.liveness ≡ some (probing (suc n))
      → LivenessStep s (record s { liveness = some (probing n) })
  gave_up :
      s.liveness ≡ some (probing zero)
      → LivenessStep s (record s { liveness = some failed; err = some liveness_error })
  close : s.liveness ≡ some failed → LivenessStep s (record s { liveness = some (closed false) })

-- `ListenAndServe` returns an error at any time, and without one only after `Shutdown`.
pub data ListenerStep (s : State) : State → Type 0 where
  failed :
      (e : Error) → s.listener ≡ serving → ListenerStep s (record s { listener = ended (some e) })
  stopped :
      s.listener ≡ serving → s.shut ≡ true → ListenerStep s (record s { listener = ended none })
  store :
      (e : Option Error)
      → s.listener ≡ ended e
      → ListenerStep s (record s { listener = finished; err = e })

-- `Start` and `RunTestFunc`.
pub data TesterStep (s : State) : State → Type 0 where
  begin :
      (b : Bool)
      → s.tester ≡ waiting
      → s.readiness ≡ closed b
      → s.err ≡ none
      → TesterStep s (record s { tester = testing })
  refuse :
      (b : Bool) (e : Error)
      → s.tester ≡ waiting
      → s.readiness ≡ closed b
      → s.err ≡ some e
      → TesterStep s (record s { tester = returned (some e) })
  tested :
      s.tester ≡ testing
      → TesterStep s (record s { tester = stopping; liveness = some (probing 5) })
  shut_down :
      (e : Option Error)
      → s.tester ≡ stopping
      → TesterStep s (record s { tester = storing e; shut = true })
  store :
      (e : Option Error)
      → s.tester ≡ storing e
      → TesterStep s (record s { tester = awaiting; err = e })
  finish :
      (b : Bool) (e : Option Error)
      → s.tester ≡ awaiting
      → s.liveness ≡ some (closed b)
      → s.err ≡ e
      → TesterStep s (record s { tester = returned e })

pub data Step (s t : State) : Type 0 where
  by_readiness : ReadinessStep s t → Step s t
  by_liveness : LivenessStep s t → Step s t
  by_listener : ListenerStep s t → Step s t
  by_tester : TesterStep s t → Step s t

pub data Reach (s : State) : State → Type 0 where
  here : Reach s s
  next : {t u : State} → Reach s t → Step t u → Reach s u

-- `Start`, after its goroutines were started.
abbrev pub started : State
started = record {
  err = none;
  shut = false;
  readiness = probing 5;
  liveness = none;
  listener = serving;
  tester = waiting;
}
