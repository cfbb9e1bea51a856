-- ===== src/Utils/FakeDns/Threads/Safety.antt =====
-- Lemmas on the goroutines of a test with the fake DNS server
-- (controllers/internal/utils/fakedns.go).
use k8gb.Prelude.{◌≡◌, refl, ◌≢◌, Bool, true, false, none, some, arith}
use k8gb.Utils.FakeDns.Threads.{
  Listener, ListenerStep, LivenessStep, Probe, Reach, ReadinessStep, State, Step, Tester,
  TesterStep, started,
}

-- Whether the server has not been asked to stop yet, by where the test is.
abbrev before_stop : Tester → Bool
before_stop Tester.waiting = true
before_stop Tester.testing = true
before_stop Tester.stopping = true
before_stop _ = false

-- Whether the test's function was begun, if what is returned is known.
abbrev pub begun : Tester → Bool
begun Tester.waiting = false
begun (Tester.returned (some e)) = false
begun _ = true

abbrev gave_up : Probe → Bool
gave_up Probe.failed = true
gave_up (Probe.closed false) = true
gave_up _ = false

record IsSafe (s : State) : Type 0 where
  pub running : before_stop s.tester ≡ true → s.shut ≡ false
  pub serving : s.shut ≡ false → s.listener ≢ Listener.ended none
  pub noted : s.shut ≡ false → gave_up s.readiness ≡ true → s.err ≢ none
  pub answered : begun s.tester ≡ true → s.readiness ≡ Probe.closed true

ReadinessStep-IsSafe : {s t : State} → ReadinessStep s t → IsSafe s → IsSafe t
ReadinessStep-IsSafe (ReadinessStep.answered n h) i = ground arith
ReadinessStep-IsSafe (ReadinessStep.missed n h) i = ground arith
ReadinessStep-IsSafe (ReadinessStep.gave_up h) i = ground arith
ReadinessStep-IsSafe (ReadinessStep.close h) i = ground arith

LivenessStep-IsSafe : {s t : State} → LivenessStep s t → IsSafe s → IsSafe t
LivenessStep-IsSafe (LivenessStep.gone n h) i = ground arith
LivenessStep-IsSafe (LivenessStep.answers n h) i = ground arith
LivenessStep-IsSafe (LivenessStep.gave_up h) i = ground arith
LivenessStep-IsSafe (LivenessStep.close h) i = ground arith

ListenerStep-IsSafe : {s t : State} → ListenerStep s t → IsSafe s → IsSafe t
ListenerStep-IsSafe (ListenerStep.failed e h) i = ground arith
ListenerStep-IsSafe (ListenerStep.stopped h k) i = ground arith
ListenerStep-IsSafe (ListenerStep.store none h) i = ground arith
ListenerStep-IsSafe (ListenerStep.store (some e) h) i = ground arith

TesterStep-IsSafe : {s t : State} → TesterStep s t → IsSafe s → IsSafe t
TesterStep-IsSafe (TesterStep.begin true h k l) i = ground arith
TesterStep-IsSafe (TesterStep.begin false h k l) i = ground arith
TesterStep-IsSafe (TesterStep.refuse b e h k l) i = ground arith
TesterStep-IsSafe (TesterStep.tested h) i = ground arith
TesterStep-IsSafe (TesterStep.shut_down e h) i = ground arith
TesterStep-IsSafe (TesterStep.store e h) i = ground arith
TesterStep-IsSafe (TesterStep.finish b none h k l) i = ground arith
TesterStep-IsSafe (TesterStep.finish b (some e) h k l) i = ground arith

Step-IsSafe : {s t : State} → Step s t → IsSafe s → IsSafe t
Step-IsSafe (Step.by_readiness m) i = ReadinessStep-IsSafe m i
Step-IsSafe (Step.by_liveness m) i = LivenessStep-IsSafe m i
Step-IsSafe (Step.by_listener m) i = ListenerStep-IsSafe m i
Step-IsSafe (Step.by_tester m) i = TesterStep-IsSafe m i

Reach-IsSafe : {s t : State} → IsSafe s → Reach s t → IsSafe t
Reach-IsSafe i Reach.here = i
Reach-IsSafe i (Reach.next r m) = Step-IsSafe m (Reach-IsSafe i r)

started-IsSafe : IsSafe started
started-IsSafe = ground arith

-- In whatever order the goroutines run, the test's function is begun only after the server has
-- answered the first probe. So a test that is reported without an error has run against a server
-- that answered.
pub Reach-answered :
    (s : State)
    → Reach started s
    → (begun s.tester ≡ true → s.readiness ≡ Probe.closed true)
      × (s.tester ≡ Tester.returned none → s.readiness ≡ Probe.closed true)
Reach-answered s r =
    let i = Reach-IsSafe started-IsSafe r in (i.answered, λ h. i.answered (rw h refl))
