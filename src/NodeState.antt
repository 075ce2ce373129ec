-- ===== src/NodeState.antt =====
-- internal/nodestate/state.go: what a node knows of the cluster. The lock `mu` makes each method
-- one step; a method that changes the state returns the new one.
pub mod Alive
pub mod Lookup
use node_messager.Base.{
  ℕ, suc, String, Bool, true, false, not, ◌&&◌, Option, none, some, List, [], ◌∷◌, ◌==◌, nat_eq,
  string_eq, if◌then◌else◌, select, find_first,
}
use node_messager.Base.Dict.{Dict, lookup, insert}
use node_messager.Dto.{Node}

pub record State : Type 0 where
  pub self : Node
  pub all : List Node
  pub master_id : ℕ
  pub alive : Dict ℕ Bool

-- The loop of `New`.
unfoldable pub mark_all : List Node → Dict ℕ Bool → Dict ℕ Bool
mark_all [] alive = alive
mark_all (n ∷ ns) alive = mark_all ns (insert n.id true alive)

unfoldable pub new : Node → List Node → ℕ → State
unfolding mark_all
new self all master_id = record {
  self = self;
  all = all;
  master_id = master_id;
  alive = mark_all all [];
}

-- A read of the map: a missing key reads as false.
abbrev pub flag : Option Bool → Bool
flag none = false
flag (some b) = b

unfoldable pub is_alive : State → ℕ → Bool
is_alive s id = flag (lookup id s.alive)

unfoldable pub peers : State → List Node
peers s = select (λ n. not (n.id == s.self.id)) s.all

unfoldable pub alive_peers : State → List Node
unfolding is_alive
alive_peers s = select (λ n. not (n.id == s.self.id) && is_alive s n.id) s.all

-- The loop of `AliveCount`.
pub count_true : Dict ℕ Bool → ℕ
count_true [] = 0
count_true ((_, true) ∷ m) = suc (count_true m)
count_true ((_, false) ∷ m) = count_true m

unfoldable pub alive_count : State → ℕ
unfolding count_true
alive_count s = count_true s.alive

unfoldable pub mark_alive : ℕ → State → State
mark_alive id s = record s { alive = insert id true s.alive }

unfoldable pub mark_dead : ℕ → State → State
mark_dead id s = record s { alive = insert id false s.alive }

unfoldable pub set_master_id : ℕ → State → State
set_master_id id s = record s { master_id = id }

unfoldable pub is_master : State → Bool
is_master s = s.self.id == s.master_id

unfoldable pub node_by_id : ℕ → State → Option Node
node_by_id id s = find_first (λ n. n.id == id) s.all

unfoldable pub node_by_name : String → State → Option Node
node_by_name name s = find_first (λ n. n.name == name) s.all

unfoldable pub get_master_node : State → Option Node
get_master_node s = find_first (λ n. n.id == s.master_id) s.all
