-- ===== src/Mutex/Tests.antt =====
-- Instances of the theorems, and runs.
use mathlib.Core.List.{head?}
use node_messager.Base.{
  ℕ, nat_eq, if◌then◌else◌, ◌==◌, none, String, ◌≡◌, refl, ◌≢◌, false, some, List, [], ◌∷◌,
  string_eq, ne_of_==,
}
use node_messager.Base.Dict.{lookup, insert}
use node_messager.Dto.{Node, Message, lock_request, LockPayload}
use node_messager.NodeState.{State}
use node_messager.Fixtures.{s1, s2, started, plain, message}
use node_messager.NodeState
use node_messager.Mutex.{
  Engine, timed_out, lock_payload, new, end_local, release_local, handle_lock_request,
  handle_lock_release, acquire_local, register_local, hand_over,
}
use node_messager.Mutex.Events.{
  Event, local_request, local_registered, local_ended, local_release, got_request, got_release,
  step, run,
}
use node_messager.Mutex.Moves.{waiting, IsQueued}
use node_messager.Mutex.Queue.{run-waiting}
use node_messager.Mutex.{timed_out, granted}
use node_messager.Mutex.Acquire.{Attempt, timeout, acquire_once, acquire_all}
use node_messager.Base.Retry.{err, retry}
use node_messager.Mutex.Permits.{outstanding}
use node_messager.Mutex.Passing.{timed_out_takes_lock}

abbrev master : State
master = started s1

abbrev asks : Node → String → Message LockPayload
asks from id = message lock_request from (lock_payload id)

-- Node 2 holds the lock by request "b", node 1 waits with "a".
abbrev held : Engine
held = record {
  holder = "b";
  queue = record { request_id = "a"; from_node = "sucursal1" } ∷ [];
  grants = ("a", tt) ∷ [];
  chans = ("a", false) ∷ [];
}

a_named : ◌≢◌ {A = String} "a" ""
a_named = ne_of_== "a" "" refl

b_named : ◌≢◌ {A = String} "b" ""
b_named = ne_of_== "b" "" refl

held-IsQueued : IsQueued held
held-IsQueued = record { idle = λ e. absurd (b_named e); named = (a_named, tt) }

abbrev history : List (Event LockPayload)
history =
    got_request master (asks s2 "b")
    ∷ local_request master "a"
    ∷ local_registered "a"
    ∷ got_release master (asks s2 "b")
    ∷ []

run-waiting_example : waiting (run plain history new).0 ≡ "a" ∷ []
run-waiting_example = run-waiting plain history (b_named, (a_named, (tt, (tt, tt))))

-- "b" has given the lock back, and "a" has it.
a_is_out : outstanding plain history [] new ≡ "a" ∷ []
unfolding outstanding step new acquire_local register_local handle_lock_request handle_lock_release
    release_local hand_over lookup NodeState.node_by_name NodeState.new insert
a_is_out = refl

timed_out_takes_lock_example :
    head? (
      waiting
        (run plain
          (local_ended "a" timed_out
            ∷ local_release master "b"
            ∷ got_request master (asks s2 "b")
            ∷ [])
          held).0)
    ≡ some "a"
timed_out_takes_lock_example =
    timed_out_takes_lock plain master "b" "a" [] (got_request master (asks s2 "b") ∷ []) held
      held-IsQueued refl (b_named, tt) (tt, tt)

-- The same by evaluation.
stuck_run :
    (run plain
      (local_ended "a" timed_out ∷ local_release master "b" ∷ got_request master (asks s2 "b") ∷ [])
      held).0.holder
    ≡ "a"
unfolding run step end_local release_local handle_lock_request lookup
stuck_run = refl

-- A first attempt that times out, then others, while "b" gives the lock back.
abbrev attempts : ℕ → Attempt LockPayload
attempts n = record {
  id = if n == 1 then "a" else "c";
  state = master;
  ahead = [];
  before = [];
  meanwhile = if n == 1 then [] else local_release master "b" ∷ [];
  unsent = none;
  outcome = if n == 1 then timed_out else granted;
}

-- What the second one waits for goes to the first, which is over.
acquired : (acquire_all plain attempts (λ n. false) held).1 ≡ err timeout
unfolding acquire_all acquire_once retry NodeState.is_master run step acquire_local register_local
    end_local release_local lookup insert NodeState.new
acquired = refl
