-- ===== src/Heartbeat/Tests.antt =====
-- Instances of the theorems.
use node_messager.Base.{◌+◌, ◌<◌, ◌≡◌, refl, [], ◌∷◌, arith, leb, ltb, if◌then◌else◌}
use node_messager.Base.Dict.{lookup, insert}
use node_messager.NodeState
use node_messager.Fixtures.{s1, cluster, started}
use node_messager.Heartbeat.{
  answered, timed_out, cancelled, max_missed, missed_of, declare_dead, Monitor, Action,
}
use node_messager.Heartbeat
use node_messager.Heartbeat.Liveness.{
  IsAgreed, run, timeouts, unanswered, run-new-is_alive, dies_once,
}

run-new-is_alive_example :
    NodeState.is_alive
      (run
        ((2, timed_out) ∷ (3, answered) ∷ (2, timed_out) ∷ (2, timed_out) ∷ [])
        Heartbeat.new
        (started s1)).0.1
      2
    ≡ ltb (unanswered 2 ((2, timed_out) ∷ (3, answered) ∷ (2, timed_out) ∷ (2, timed_out) ∷ []) 0) 3
run-new-is_alive_example =
    run-new-is_alive s1 cluster 1
      ((2, timed_out) ∷ (3, answered) ∷ (2, timed_out) ∷ (2, timed_out) ∷ []) 2
      (refl, (refl, (refl, (refl, tt)))) refl

fresh-IsAgreed : IsAgreed Heartbeat.new (started s1) 2
unfolding Heartbeat.new NodeState.new missed_of NodeState.is_alive lookup insert
fresh-IsAgreed = refl

none_missed : missed_of 2 Heartbeat.new < max_missed
unfolding Heartbeat.new missed_of lookup
none_missed = omega arith

dies_once_example : (run (timeouts 2 5) Heartbeat.new (started s1)).1 ≡ (
    if leb max_missed (missed_of 2 Heartbeat.new + 5)
    then (declare_dead Heartbeat.new.has_callback 2 (started s1)).1
    else [])
dies_once_example = dies_once 2 5 Heartbeat.new (started s1) fresh-IsAgreed none_missed
