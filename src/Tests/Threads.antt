-- ===== src/Tests/Threads.antt =====
-- Two orders of the goroutines of a test with the fake DNS server.
use k8gb.Prelude.{◌≡◌, refl, true, false, some, none}
use k8gb.Utils.FakeDns.Threads.{
  Listener, ListenerStep, LivenessStep, Probe, Reach, ReadinessStep, State, Step, Tester,
  TesterStep, started,
}
use k8gb.Utils.FakeDns.Threads.Safety.{Reach-answered, begun}

abbrev stopping : State
stopping = record started {
  readiness = Probe.closed true;
  liveness = some (Probe.probing 5);
  tester = Tester.storing none;
  shut = true;
}

to_stopping : Reach started stopping
to_stopping =
    Reach.next
      (Reach.next
        (Reach.next (Reach.next Reach.here (Step.by_readiness (ReadinessStep.answered 4 refl)))
          (Step.by_tester (TesterStep.begin true refl refl refl)))
        (Step.by_tester (TesterStep.tested refl)))
      (Step.by_tester (TesterStep.shut_down none refl))

-- The server still answers when the second probe gives up, and then the listener stores that it has
-- ended without an error.
abbrev lost : State
lost = record stopping {
  liveness = some (Probe.closed false);
  listener = Listener.finished;
  tester = Tester.returned none;
}

-- A test is reported without an error, though the second probe has failed.
to_lost : Reach started lost
to_lost =
    Reach.next
      (Reach.next
        (Reach.next
          (Reach.next
            (Reach.next
              (Reach.next
                (Reach.next
                  (Reach.next
                    (Reach.next
                      (Reach.next
                        (Reach.next to_stopping (Step.by_tester (TesterStep.store none refl)))
                        (Step.by_liveness (LivenessStep.answers 4 refl)))
                      (Step.by_liveness (LivenessStep.answers 3 refl)))
                    (Step.by_liveness (LivenessStep.answers 2 refl)))
                  (Step.by_liveness (LivenessStep.answers 1 refl)))
                (Step.by_liveness (LivenessStep.answers 0 refl)))
              (Step.by_liveness (LivenessStep.gave_up refl)))
            (Step.by_liveness (LivenessStep.close refl)))
          (Step.by_listener (ListenerStep.stopped refl refl)))
        (Step.by_listener (ListenerStep.store none refl)))
      (Step.by_tester (TesterStep.finish false none refl refl refl))

Reach-answered_example :
    (begun lost.tester ≡ true → lost.readiness ≡ Probe.closed true)
    × (lost.tester ≡ Tester.returned none → lost.readiness ≡ Probe.closed true)
Reach-answered_example = Reach-answered lost to_lost
