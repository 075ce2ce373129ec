-- ===== src/Cluster/Tests.antt =====
-- Instances of the theorems, and runs.
use node_messager.Base.{
  ◌≤◌, String, ◌≡◌, refl, ◌≢◌, false, List, [], ◌∷◌, ◌==◌, nat_eq, string_eq, ne_of_==, length, All,
}
use node_messager.Base.Dict.{lookup, insert, delete}
use node_messager.NodeState.{State}
use node_messager.NodeState
use node_messager.Fixtures.{view, s1, plain}
use node_messager.Mutex
use node_messager.Mutex.{granted}
use node_messager.Mutex.Events.{step}
use node_messager.Cluster.{
  Move, ask, register, finish, give_back, deliver, lose, start, act, pick, advance, run,
}
use node_messager.Cluster.Steps.{Agrees}
use node_messager.Cluster.Moves.{inside-le-one}

view-Agrees : Agrees view 1
unfolding NodeState.new NodeState.get_master_node
view-Agrees = record { itself = λ n. refl; same_master = λ n. refl; found = λ n. (s1, refl, refl) }

-- Node 2 gets the lock by "b"; the master waits with "a", and node 3 with "c".
abbrev moves : List Move
moves =
    ask 2 "b"
    ∷ register 2 "b"
    ∷ deliver 0 "m1" "t"
    ∷ deliver 0 "m2" "t"
    ∷ finish 2 "b" granted
    ∷ ask 1 "a"
    ∷ register 1 "a"
    ∷ ask 3 "c"
    ∷ register 3 "c"
    ∷ deliver 0 "m3" "t"
    ∷ lose 0
    ∷ give_back 0
    ∷ deliver 0 "m4" "t"
    ∷ finish 1 "a" granted
    ∷ []

is_named : (id : String) → (id == "") ≡ false → id ≢ ""
is_named id = ne_of_== id ""

inside-le-one_example :
    (length (run plain view moves start).inside ≤ 1)
    × All
        (λ x. x.1 ≡ ((run plain view moves start).engines 1).holder)
        (run plain view moves start).inside
inside-le-one_example =
    inside-le-one plain view 1 view-Agrees (λ p. refl) moves
      (
        is_named "b" refl,
        (
          tt,
          (
            tt,
            (
              tt,
              (
                tt,
                (
                  is_named "a" refl,
                  (tt, (is_named "c" refl, (tt, (tt, (tt, (tt, (tt, (tt, tt)))))))),
                ),
              ),
            ),
          ),
        ),
      )

-- The master has the lock.
a_is_inside : (run plain view moves start).inside ≡ (1, "a") ∷ []
unfolding run advance start act pick step lookup insert delete NodeState.new
    NodeState.get_master_node NodeState.is_master NodeState.node_by_name Mutex.new
    Mutex.acquire_local Mutex.acquire_remote Mutex.request_from Mutex.register_local Mutex.end_local
    Mutex.end_remote Mutex.release_local Mutex.hand_over Mutex.wake Mutex.handle_lock_request
    Mutex.handle_lock_grant Mutex.handle_lock_release Mutex.on_request Mutex.on_grant
    Mutex.release_remote
a_is_inside = refl

-- Then node 3 has it, whose request was denied.
c_follows :
    (run plain view
      (give_back 0 ∷ deliver 0 "m5" "t" ∷ finish 3 "c" granted ∷ [])
      (run plain view moves start)).inside
    ≡ (3, "c") ∷ []
unfolding run advance start act pick step lookup insert delete NodeState.new
    NodeState.get_master_node NodeState.is_master NodeState.node_by_name Mutex.new
    Mutex.acquire_local Mutex.acquire_remote Mutex.request_from Mutex.register_local Mutex.end_local
    Mutex.end_remote Mutex.release_local Mutex.hand_over Mutex.wake Mutex.handle_lock_request
    Mutex.handle_lock_grant Mutex.handle_lock_release Mutex.on_request Mutex.on_grant
    Mutex.release_remote
c_follows = refl
