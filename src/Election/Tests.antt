-- ===== src/Election/Tests.antt =====
-- Instances of the theorems.
use node_messager.Base.{ℕ, ◌≡◌, refl, subst, ◌≢◌, inl, inr, Bool, true, some, [], ◌∷◌, arith, In}
use node_messager.Base.Dict.{lookup, insert}
use node_messager.Dto.{Node, coordinator}
use node_messager.NodeState.{State, is_alive, mark_dead, peers, get_master_node, is_master}
use node_messager.NodeState
use node_messager.Fixtures.{
  pair-HasDistinctIds, sucursal, s1, s2, s3, cluster, started, plain, message,
}
use node_messager.Election.{
  announce, wait, lower_nodes, new, start_election, declare_victory, handle_coordinator,
}
use node_messager.Election.Winner.{Agree, IsLowest, Elects, lower_nodes_iff, Elects-IsLowest}
use node_messager.Election.Announce.{Retires, victory_spreads, steps_down}

-- What node `c` knows after node 1 has died.
abbrev view : ℕ → State
view c = mark_dead 1 (started (sucursal c "sucursal"))

abbrev is_up : ℕ → Bool
is_up = is_alive (view 3)

view-Agree : Agree cluster is_up view
unfolding NodeState.new mark_dead is_alive
view-Agree = record { selves = λ c. refl; same_all = λ c. refl; same_alive = λ c id. refl }

three_is_up : is_up 3 ≡ true
unfolding is_alive mark_dead NodeState.new lookup insert
three_is_up = refl

Elects-IsLowest_example : (m : ℕ) × IsLowest cluster is_up m × Elects view m 3
Elects-IsLowest_example =
    Elects-IsLowest cluster is_up view view-Agree s3 (inr (inr (inl refl))) three_is_up

abbrev pair : Node → State
pair self = NodeState.new self (s1 ∷ s2 ∷ []) 2

victory_spreads_example :
    (is_master (declare_victory (pair s1) new).state ≡ true)
    × ((declare_victory (pair s1) new).effects
        ≡ announce (peers (pair s1)) (record { master_id = 1 }) ∷ [])
    × ((n : Node) → In n (s1 ∷ s2 ∷ []) → n.id ≢ 1 → In n (peers (pair s1)))
    × (get_master_node
          (handle_coordinator plain (message coordinator s1 (record { master_id = 1 })) (pair s2))
        ≡ some s1)
unfolding NodeState.new
victory_spreads_example =
    victory_spreads plain (pair s1) (pair s2) new
      (message coordinator s1 (record { master_id = 1 })) (λ p. refl) pair-HasDistinctIds (inl refl)
      refl refl

two_is_lower : In s2 (lower_nodes (view 3))
unfolding is_alive mark_dead NodeState.new lookup insert
two_is_lower = (lower_nodes_iff (view 3) s2).1 (inr (inl refl), refl, omega arith)

steps_down_example :
    ((start_election (view 3) new).then_do ≡ wait)
    × Retires new.next_timer (start_election (view 3) new).engine
unfolding new
steps_down_example = steps_down (view 3) new refl (λ e. subst (In s2) e two_is_lower)
