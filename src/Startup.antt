-- ===== src/Startup.antt =====
-- cmd/main.go: what `main` puts together before the menu starts.
pub mod Stores
pub mod Sound
mod Tests
use node_messager.Base.{
  ℕ, String, Bool, true, false, Option, none, some, List, [], ◌∷◌, ◌==◌, nat_eq, ltb, if◌then◌else◌,
}
use node_messager.Base.Dict.{Dict, lookup, insert}
use node_messager.Dto.{Node, Codec}
use node_messager.NodeState
use node_messager.Mutex
use node_messager.Consensus
use node_messager.Election
use node_messager.Heartbeat
use node_messager.MsgStore.{Entry, Store, Io, new_with_file}
use node_messager.MsgStore
use node_messager.Db.{Db, Answer}
use node_messager.Db.Seed.{SeedData, seed}
use node_messager.Db.Seed
use node_messager.Service.Ids.{set_min_id_counter}
use node_messager.Config.{Config}
use node_messager.Dispatcher.{Running}

-- One node in VM mode, all of them in dev mode.
abbrev pub serve_nodes : Config → List Node
serve_nodes c = elim c.host_node [ none ↦ c.nodes | some h ↦ h ∷ [] ]

abbrev pub is_local : Option Node → Node → Bool
is_local none n = true
is_local (some h) n = n.id == h.id

-- The file of a node's messages, as it is found, and whether it can be opened for writing.
pub record Disk : Type 0 where
  pub found : Option (List ℕ)
  pub opening : Bool

module _ {C : Type 0} (json : Codec (List ℕ) (Entry C)) (lines_of : List ℕ → List (List ℕ))
    (disk : Node → Disk) where
  abbrev pub on_disk : Node → Option (Store C)
  on_disk n = new_with_file json lines_of 50 (disk n).found (disk n).opening

  abbrev pub put_store : Node → Option (Store C) → Dict ℕ (Store C) → Option (Dict ℕ (Store C))
  put_store n none stores = none
  put_store n (some s) stores = some (insert n.id s stores)

  -- A store that cannot be opened ends the program: none.
  unfoldable pub add_stores : Option Node → List Node → Dict ℕ (Store C) → Option (Dict ℕ (Store C))
  add_stores host [] stores = some stores
  add_stores host (n ∷ ns) stores =
      elim (put_store n (if is_local host n then on_disk n else some (MsgStore.new json 50))
        stores) [ none ↦ none | some more ↦ add_stores host ns more ]

  abbrev pub add_host : Option Node → Dict ℕ (Store C) → Option (Dict ℕ (Store C))
  add_host none stores = some stores
  add_host (some h) stores = elim (lookup h.id stores) [
    | some s ↦ some stores
    | none ↦ put_store h (on_disk h) stores
  ]

  unfoldable pub all_stores : Config → Option (Dict ℕ (Store C))
  unfolding add_stores
  all_stores c = elim (add_stores c.host_node c.nodes []) [
    | none ↦ none
    | some stores ↦ add_host c.host_node stores
  ]

-- `LoadSeedData` on the text of the file, if it can be read; none is an error.
abbrev pub load_seed_data : {Raw : Type 0} → Codec Raw SeedData → Option Raw → Option SeedData
load_seed_data json none = none
load_seed_data json (some text) = json.unmarshal text

-- What `LoadSeedData` gives, and the driver's answers to the seeding.
pub record Seeding : Type 0 where
  pub file : Option SeedData
  pub counted : Answer
  pub io : Seed.Io

abbrev pub counted_from : ℕ → ℕ → ℕ
counted_from top counter = if ltb 0 top then set_min_id_counter top counter else counter

-- A seeding that fails ends the program.
abbrev pub seeded : (Db × ℕ) × Answer → ℕ → Option (Db × ℕ)
seeded (r, some x) counter = none
seeded ((d, top), none) counter = some (d, counted_from top counter)

abbrev pub with_seed : Node → Option SeedData → Seeding → Db → ℕ → Option (Db × ℕ)
with_seed n none s d counter = some (d, counter)
with_seed n (some rows) s d counter = seeded (seed n.id rows s.counted s.io d) counter

abbrev pub running : {Raw : Type 0} → Node → Config → Db → Running Raw
running n c d = record {
  state = NodeState.new n c.nodes c.master_id;
  lock = Mutex.new;
  rounds = Consensus.new;
  contest = Election.new;
  monitor = record Heartbeat.new { has_callback = true };
  waits = [];
  tables = d;
}

-- One turn of the loop over the nodes that are served: the node on the database that was opened,
-- and the counter of ids, which the process shares.
unfoldable pub start_node :
    {Raw : Type 0} → Node → Config → Seeding → Db → ℕ → Option (Running Raw × ℕ)
unfolding seed set_min_id_counter NodeState.new Mutex.new Consensus.new Election.new Heartbeat.new
start_node n c s d counter = elim (with_seed n s.file s d counter) [
  | none ↦ none
  | some (tables, next) ↦ some (running n c tables, next)
]

-- Whose service the menu uses.
unfoldable pub menu_node : Config → Option ℕ
menu_node c = elim c.host_node [
  | some h ↦ some h.id
  | none ↦ elim c.nodes [ [] ↦ none | n ∷ ns ↦ some n.id ]
]

-- Whether the node announces itself as the master two seconds after its start.
abbrev pub claims_at_start : Node → Config → Bool
claims_at_start n c = n.id == c.master_id
