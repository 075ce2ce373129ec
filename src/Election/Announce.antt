-- ===== src/Election/Announce.antt =====
-- How a result spreads, and how a node steps down.
use node_messager.Base.{
  ℕ, ◌≡◌, refl, sym, subst, ◌≢◌, true, false, not, some, List, [], ◌∷◌, arith, ◌==◌, nat_eq,
  ==_of_ne, In, In-select, In-of_select,
}
use node_messager.Dto.{Node, Message, Codec, IsFaithful, CoordinatorPayload}
use node_messager.NodeState.{State, peers, set_master_id, get_master_node, node_by_id, is_master}
use node_messager.NodeState.Lookup.{HasDistinctIds, node_by_id-In}
use node_messager.Election.{
  Engine, announce, wait, lower_nodes, stop, declare_victory, contest, start_election, arm, fire,
  handle_election_ok, handle_coordinator,
}

-- After a victory the winner is its own master and every other configured node is among the targets
-- of its announcement; a node with the same configuration that handles the announcement takes the
-- winner for its master, provided that ids are distinct and the codec is faithful.
pub victory_spreads :
    {Raw : Type 0} (json : Codec Raw CoordinatorPayload) (st st' : State) (e : Engine)
    (m : Message Raw)
    → IsFaithful json
    → HasDistinctIds st.all
    → In st.self st.all
    → st'.all ≡ st.all
    → m.content ≡ json.marshal (record { master_id = st.self.id })
    → (is_master (declare_victory st e).state ≡ true)
      × ((declare_victory st e).effects
          ≡ announce (peers st) (record { master_id = st.self.id }) ∷ [])
      × ((n : Node) → In n st.all → n.id ≢ st.self.id → In n (peers st))
      × (get_master_node (handle_coordinator json m st') ≡ some st.self)
unfolding declare_victory handle_coordinator get_master_node set_master_id is_master peers
    node_by_id
victory_spreads json st st' e m faithful distinct i same c = (
  ground arith,
  refl,
  λ n j d. In-select _ st.all j (rw (==_of_ne n.id st.self.id d)),
  rw (c, faithful, handle_coordinator) (rw same (node_by_id-In st st.self distinct i)),
)

contested :
    (st : State) (e : Engine) (ns : List Node)
    → e.running ≡ false
    → lower_nodes st ≡ ns
    → ns ≢ []
    → ((start_election st e).engine ≡ record e { running = true })
      × ((start_election st e).then_do ≡ wait)
unfolding start_election contest
contested st e [] r q l = absurd (l refl)
contested st e (n ∷ ns) r q l = rw (r, q) (refl, refl)

not-In-stop : (t : ℕ) (armed : List ℕ) → ¬ In t (stop (some t) armed)
not-In-stop t armed i = let r = In-of_select (λ u. not (u == t)) armed i in ground (arith, r.1)

-- What an OK does to an engine `x` whose timer `t` runs.
abbrev pub Retires : ℕ → Engine → Type 0
Retires t x =
    let after = handle_election_ok (arm x) in
    ((fire t (arm x)).1 ≡ true)
    × (after.running ≡ false)
    × (¬ In t after.armed)
    × ((fire t after).1 ≡ false)

running-Retires : (e : Engine) → Retires e.next_timer (record e { running = true })
unfolding arm handle_election_ok fire
running-Retires e = (refl, refl, not-In-stop e.next_timer (e.next_timer ∷ e.armed), refl)

-- A node that starts an election while none is running, and has lower nodes, waits; once it has
-- armed its timer it declares a victory when the timer
-- fires; but if it hears OK before, it steps down: no election is running, the timer is disarmed,
-- and even if it has fired already its callback does not go on to a victory.
pub steps_down :
    (st : State) (e : Engine)
    → e.running ≡ false
    → lower_nodes st ≢ []
    → ((start_election st e).then_do ≡ wait) × Retires e.next_timer (start_election st e).engine
steps_down st e r l =
    let c = contested st e (lower_nodes st) r refl l in
    (c.1, subst (Retires e.next_timer) (sym c.0) (running-Retires e))
