-- ===== src/Election/Winner.antt =====
-- Who wins an election.
use native.Mathlib.Decide.{dec_lt}
use node_messager.Base.{
  ℕ, zero, suc, ◌≤◌, ◌<◌, ◌≡◌, refl, sym, ap, ◌∙◌, ◌↔◌, inl, inr, Bool, true, false, List, [], ◌∷◌,
  map, arith, nat_eq, string_eq, In, In-select, In-of_select,
}
use node_messager.Dto.{Node}
use node_messager.NodeState.{State, is_alive, alive_peers, peers, set_master_id}
use node_messager.NodeState.Alive.{alive_peers_iff}
use node_messager.Election.{
  Engine, announce, wait, rest, Result, new, lower_nodes, declare_victory, challenge, contest,
  start_election, on_election,
}

-- A lower node is exactly a configured node that is marked alive and has a smaller id.
pub lower_nodes_iff :
    (st : State) (n : Node)
    → In n (lower_nodes st) ↔ (In n st.all × (is_alive st n.id ≡ true) × (n.id < st.self.id))
unfolding lower_nodes
lower_nodes_iff st n = (
  λ i.
      let r = In-of_select _ (alive_peers st) i in
      let a = (alive_peers_iff st n).0 r.0 in (a.0, a.2, ground (arith, r.1)),
  λ h.
      In-select _ (alive_peers st) ((alive_peers_iff st n).1 (h.0, (λ e. omega arith), h.1))
        (ground (arith, h.2)),
)

In-map : {A B : Type 0} (f : A → B) (xs : List A) (a : A) → In a xs → In (f a) (map f xs)
In-map f [] a i = absurd i
In-map f (x ∷ xs) a (inl e) = inl (ap f e)
In-map f (x ∷ xs) a (inr i) = inr (In-map f xs a i)

-- A node that has no lower node alive wins on the spot: it becomes its own master, tells every
-- peer, and its election is over.
abbrev pub Won : State → Result → Type 0
Won st r =
    (r.state ≡ set_master_id st.self.id st)
    × (r.engine.running ≡ false)
    × (r.effects ≡ announce (peers st) (record { master_id = st.self.id }) ∷ [])
    × (r.then_do ≡ rest)

-- Otherwise it challenges each lower node and waits, with its master unchanged.
abbrev pub Contests : State → Result → Type 0
Contests st r =
    (r.state ≡ st)
    × (r.engine.running ≡ true)
    × (r.effects ≡ map (challenge st.self) (lower_nodes st))
    × (r.then_do ≡ wait)

start_election-Won :
    (st : State) (e : Engine)
    → e.running ≡ false
    → lower_nodes st ≡ []
    → Won st (start_election st e)
unfolding start_election contest declare_victory
start_election-Won st e r l = rw (r, l) (refl, refl, refl, refl)

start_election-Contests :
    (st : State) (e : Engine) (n : Node) (ns : List Node)
    → e.running ≡ false
    → lower_nodes st ≡ n ∷ ns
    → Contests st (start_election st e)
unfolding start_election contest
start_election-Contests st e n ns r l = rw (r, l) (refl, refl, refl, refl)

-- An election that `c` starts is won by `m`: at once, or by way of a lower node that `c` challenges
-- and that, on the challenge, starts an election of its own.
pub data Elects (views : ℕ → State) (m : ℕ) : ℕ → Type 0 where
  wins : (c : ℕ) → c ≡ m → Won (views c) (start_election (views c) new) → Elects views m c
  passes :
      (c : ℕ) (n : Node)
      → In (challenge (views c).self n) (start_election (views c) new).effects
      → (on_election (views n.id) (views c).self.name (record { candidate_id = c })).1 ≡ true
      → Elects views m n.id
      → Elects views m c

-- The nodes agree on the configuration and on who is alive.
pub record Agree (all : List Node) (alive : ℕ → Bool) (views : ℕ → State) : Type 0 where
  pub selves : (c : ℕ) → (views c).self.id ≡ c
  pub same_all : (c : ℕ) → (views c).all ≡ all
  pub same_alive : (c id : ℕ) → is_alive (views c) id ≡ alive id

-- The node with the smallest id among those that are alive.
pub record IsLowest (all : List Node) (alive : ℕ → Bool) (m : ℕ) : Type 0 where
  pub node : Node
  pub listed : In node all
  pub named : node.id ≡ m
  pub is_up : alive m ≡ true
  pub lowest : (n : Node) → In n all → alive n.id ≡ true → m ≤ n.id

module _ (all : List Node) (alive : ℕ → Bool) (views : ℕ → State)
    (agree : Agree all alive views) where
  lower_iff :
      (c : ℕ) (n : Node)
      → In n (lower_nodes (views c)) ↔ (In n all × (alive n.id ≡ true) × (n.id < c))
  lower_iff c n = (
    λ i.
        let h = (lower_nodes_iff (views c) n).0 i in
        (
          rw (agree.same_all c) at h.0,
          sym (agree.same_alive c n.id) ∙ h.1,
          omega (arith, agree.selves c),
        ),
    λ h.
        (lower_nodes_iff (views c) n).1
          (rw (agree.same_all c) h.0, agree.same_alive c n.id ∙ h.1, omega (arith, agree.selves c)),
  )

  Elects-on :
      (c : ℕ) (self : Node) (ns : List Node)
      → In self all
      → self.id ≡ c
      → alive c ≡ true
      → lower_nodes (views c) ≡ ns
      → ((n : Node)
          → In n all
          → n.id < c
          → alive n.id ≡ true
          → (m : ℕ) × IsLowest all alive m × Elects views m n.id)
      → (m : ℕ) × IsLowest all alive m × Elects views m c
  unfolding on_election new
  Elects-on c self [] i q up l rec = (
    c,
    record {
      node = self;
      listed = i;
      named = q;
      is_up = up;
      lowest = λ n j a. elim (dec_lt n.id c) [
        | yes below ↦ absurd (rw l at ((lower_iff c n).1 (j, a, below)))
        | no above ↦ omega arith
      ];
    },
    wins c refl (start_election-Won (views c) new refl l),
  )
  Elects-on c self (n ∷ ns) i q up l rec =
      let h = (lower_iff c n).0 (rw l (inl refl)) in
      let (m, low, chain) = rec n h.0 h.2 h.1 in
      let k = start_election-Contests (views c) new n ns refl l in
      (
        m,
        low,
        passes c n (rw k.2 (In-map _ (lower_nodes (views c)) n (rw l (inl refl))))
            (ground (arith, agree.selves n.id, h.2)) chain,
      )

  Elects-from :
      (k c : ℕ) (self : Node)
      → c < k
      → In self all
      → self.id ≡ c
      → alive c ≡ true
      → (m : ℕ) × IsLowest all alive m × Elects views m c
  Elects-from zero c self h i q up = absurd (omega arith)
  Elects-from (suc k) c self h i q up =
      Elects-on c self (lower_nodes (views c)) i q up refl
        (λ n j below a. Elects-from k n.id n (omega arith) j refl a)

  -- Where the nodes agree on the configuration and on who is alive, an election that any of the living nodes starts reaches
  -- the living node with the lowest id, which wins: each node on the way challenges a lower one,
  -- which takes the election over. The engines on the way run no other election.
  pub Elects-IsLowest :
      (self : Node)
      → In self all
      → alive self.id ≡ true
      → (m : ℕ) × IsLowest all alive m × Elects views m self.id
  Elects-IsLowest self i up = Elects-from (suc self.id) self.id self (omega arith) i refl up
