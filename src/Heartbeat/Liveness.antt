-- ===== src/Heartbeat/Liveness.antt =====
-- When a peer counts as alive, and when its death is acted upon.
use node_messager.Base.{
  ℕ, zero, suc, ◌+◌, ◌≤◌, ◌<◌, ◌≡◌, refl, sym, ap, ◌∙◌, Bool, true, false, List, [], ◌∷◌, ◌++◌,
  arith, ltb, leb, ◌==◌, nat_eq, ==_refl, eq_of_==, ==_of_eq, if◌then◌else◌, All, append-nil,
}
use native.Mathlib.Decide.{dec_lt}
use node_messager.Base.Dict.{lookup, insert, lookup-insert}
use node_messager.NodeState.{State, flag, is_alive, mark_alive, mark_dead}
use node_messager.NodeState.Alive.{known, is_alive-mark, is_alive-new}
use node_messager.NodeState
use node_messager.Dto.{Node}
use node_messager.Heartbeat.{
  Monitor, max_missed, Action, Outcome, answered, timed_out, cancelled, missed_of, new, settle,
  declare_dead, end_ping,
}

-- Of a peer the state and the monitor say the same: it is alive as long as fewer than three pings
-- in a row went unanswered.
abbrev pub IsAgreed : Monitor → State → ℕ → Type 0
IsAgreed m st id = is_alive st id ≡ ltb (missed_of id m) max_missed

declare_dead-is_alive :
    (cb : Bool) (id j : ℕ) (st : State)
    → is_alive (declare_dead cb id st).0 j ≡ (if id == j then false else is_alive st j)
unfolding declare_dead
declare_dead-is_alive cb id j st =
    ground (arith, (is_alive-mark st id j).1, eq_of_== id j, ==_of_eq id j)

missed_of-insert :
    (id j n : ℕ) (m : Monitor)
    → missed_of j (record m { missed = insert id n m.missed })
      ≡ (if id == j then n else missed_of j m)
unfolding missed_of
missed_of-insert id j n m = ground (arith, lookup-insert id j n m.missed)

-- However a ping ends, the agreement is kept, of the pinged peer and of every other node.
pub settle-IsAgreed :
    (id j : ℕ) (o : Outcome) (m : Monitor) (st : State)
    → IsAgreed m st id
    → IsAgreed m st j
    → IsAgreed (settle id o m st).0.0 (settle id o m st).0.1 j
unfolding settle
settle-IsAgreed id j answered m st h k =
    ground (arith, (is_alive-mark st id j).0, missed_of-insert id j 0 m)
settle-IsAgreed id j timed_out m st h k = ground (
  arith,
  eq_of_== id j,
  missed_of-insert id j (suc (missed_of id m)) m,
  declare_dead-is_alive m.has_callback id j st,
)
settle-IsAgreed id j cancelled m st h k = k

-- `pingOne` for each of these peers in turn, with the actions that follow.
pub run : List (ℕ × Outcome) → Monitor → State → (Monitor × State) × List Action
run [] m st = ((m, st), [])
run ((id, o) ∷ ps) m st =
    let r = settle id o m st in let s = run ps (end_ping id r.0.0) r.0.1 in (s.0, r.1 ++ s.1)

end_ping-missed_of : (id j : ℕ) (m : Monitor) → missed_of j (end_ping id m) ≡ missed_of j m
unfolding end_ping missed_of
end_ping-missed_of id j m = refl

run-IsAgreed :
    (all : List Node) (ps : List (ℕ × Outcome)) (m : Monitor) (st : State)
    → ((j : ℕ) → known j all ≡ true → IsAgreed m st j)
    → All (λ p. known p.0 all ≡ true) ps
    → (j : ℕ) → known j all ≡ true
    → IsAgreed (run ps m st).0.0 (run ps m st).0.1 j
unfolding run
run-IsAgreed all [] m st h a j k = h j k
run-IsAgreed all ((id, o) ∷ ps) m st h a j k =
    let r = settle id o m st in
    run-IsAgreed all ps (end_ping id r.0.0) r.0.1
      (λ i ki.
        settle-IsAgreed id i o m st (h id a.0) (h i ki)
        ∙ ap (λ n. ltb n max_missed) (sym (end_ping-missed_of id i r.0.0)))
      a.1 j k

-- How many pings of `j` in a row went unanswered behind these, if `n` did before them.
pub unanswered : ℕ → List (ℕ × Outcome) → ℕ → ℕ
unanswered j [] n = n
unanswered j ((id, answered) ∷ ps) n = unanswered j ps (if id == j then 0 else n)
unanswered j ((id, timed_out) ∷ ps) n = unanswered j ps (if id == j then suc n else n)
unanswered j ((id, cancelled) ∷ ps) n = unanswered j ps n

settle-missed_of :
    (id j : ℕ) (o : Outcome) (m : Monitor) (st : State) (ps : List (ℕ × Outcome))
    → unanswered j ps (missed_of j (settle id o m st).0.0)
      ≡ unanswered j ((id, o) ∷ ps) (missed_of j m)
unfolding settle unanswered
settle-missed_of id j answered m st ps = ap (unanswered j ps) (missed_of-insert id j 0 m)
settle-missed_of id j timed_out m st ps =
    ap (unanswered j ps)
      (ground (arith, missed_of-insert id j (suc (missed_of id m)) m, eq_of_== id j))
settle-missed_of id j cancelled m st ps = refl

run-missed_of :
    (ps : List (ℕ × Outcome)) (m : Monitor) (st : State) (j : ℕ)
    → missed_of j (run ps m st).0.0 ≡ unanswered j ps (missed_of j m)
unfolding run unanswered
run-missed_of [] m st j = refl
run-missed_of ((id, o) ∷ ps) m st j =
    let r = settle id o m st in
    run-missed_of ps (end_ping id r.0.0) r.0.1 j
    ∙ ap (unanswered j ps) (end_ping-missed_of id j r.0.0)
    ∙ settle-missed_of id j o m st ps

abbrev pub timeouts : ℕ → ℕ → List (ℕ × Outcome)
timeouts id zero = []
timeouts id (suc k) = (id, timed_out) ∷ timeouts id k

-- From the start, however the pings of configured peers end and in whatever order, a configured
-- node is marked alive exactly if fewer than three pings to it went unanswered since it last
-- answered one, or since the start.
pub run-new-is_alive :
    (self : Node) (all : List Node) (master_id : ℕ) (ps : List (ℕ × Outcome)) (j : ℕ)
    → All (λ p. known p.0 all ≡ true) ps
    → known j all ≡ true
    → is_alive (run ps new (NodeState.new self all master_id)).0.1 j ≡ ltb (unanswered j ps 0) 3
unfolding new missed_of lookup
run-new-is_alive self all master_id ps j a k =
    let st = NodeState.new self all master_id in
    run-IsAgreed all ps new st (λ i ki. is_alive-new self all master_id i ∙ ki) a j k
    ∙ ap (λ n. ltb n 3) (run-missed_of ps new st j)

-- One more timeout: what it does to the count, the state and the actions.
timeout_lem :
    (id : ℕ) (m : Monitor) (st : State)
    → IsAgreed m st id
    → let r = settle id timed_out m st in
      (missed_of id r.0.0 ≡ suc (missed_of id m))
      × (r.0.0.has_callback ≡ m.has_callback)
      × (suc (missed_of id m) < max_missed → (r.0.1 ≡ st) × (r.1 ≡ []))
      × (suc (missed_of id m) ≡ max_missed → r.1 ≡ (declare_dead m.has_callback id st).1)
      × (max_missed ≤ missed_of id m → r.1 ≡ [])
unfolding settle declare_dead
timeout_lem id m st h = (
  ground (arith, missed_of-insert id id (suc (missed_of id m)) m, ==_refl id),
  ground arith,
  λ q. ground arith,
  λ q. ground arith,
  λ q. ground arith,
)

-- Behind one timeout.
after_timeout : ℕ → Monitor → State → Monitor × State
after_timeout id m st = let r = settle id timed_out m st in (end_ping id r.0.0, r.0.1)

run-timeouts :
    (id k : ℕ) (m : Monitor) (st : State)
    → (run (timeouts id (suc k)) m st).1
      ≡ (settle id timed_out m st).1
        ++ (run (timeouts id k) (after_timeout id m st).0 (after_timeout id m st).1).1
unfolding run after_timeout
run-timeouts id k m st = refl

after_timeout-IsAgreed :
    (id : ℕ) (m : Monitor) (st : State)
    → IsAgreed m st id
    → IsAgreed (after_timeout id m st).0 (after_timeout id m st).1 id
unfolding after_timeout
after_timeout-IsAgreed id m st h =
    settle-IsAgreed id id timed_out m st h h
    ∙ ap (λ n. ltb n max_missed) (sym (end_ping-missed_of id id (settle id timed_out m st).0.0))

after_timeout-missed_of :
    (id : ℕ) (m : Monitor) (st : State)
    → IsAgreed m st id
    → missed_of id (after_timeout id m st).0 ≡ suc (missed_of id m)
unfolding after_timeout
after_timeout-missed_of id m st h =
    end_ping-missed_of id id (settle id timed_out m st).0.0 ∙ (timeout_lem id m st h).0

quiet :
    (id k : ℕ) (m : Monitor) (st : State)
    → IsAgreed m st id
    → max_missed ≤ missed_of id m
    → (run (timeouts id k) m st).1 ≡ []
unfolding run
quiet id zero m st h q = refl
quiet id (suc k) m st h q =
    rw (run-timeouts id k m st, (timeout_lem id m st h).4 q)
      (quiet id k _ _ (after_timeout-IsAgreed id m st h)
        (omega (arith, after_timeout-missed_of id m st h)))

same_death :
    (id k : ℕ) (m : Monitor) (st : State)
    → IsAgreed m st id
    → (settle id timed_out m st).0.1 ≡ st
    → (if leb max_missed (missed_of id (after_timeout id m st).0 + k)
        then (declare_dead (after_timeout id m st).0.has_callback id (after_timeout id m st).1).1
        else [])
      ≡ (if leb max_missed (missed_of id m + suc k)
          then (declare_dead m.has_callback id st).1
          else [])
unfolding after_timeout end_ping
same_death id k m st h t =
    rw (after_timeout-missed_of id m st h, t, (timeout_lem id m st h).1) (ground arith)

-- While a peer answers no ping, the node acts on its death once, at the third unanswered ping in a
-- row, and on no other: `k` more timeouts of a peer that has missed fewer than three, and is marked
-- alive, bring on the actions of `declare_dead` if they make three, and nothing otherwise.
pub dies_once :
    (id k : ℕ) (m : Monitor) (st : State)
    → IsAgreed m st id
    → missed_of id m < max_missed
    → (run (timeouts id k) m st).1
      ≡ (if leb max_missed (missed_of id m + k) then (declare_dead m.has_callback id st).1 else [])
unfolding run
dies_once id zero m st h q = ground arith
dies_once id (suc k) m st h q = elim (dec_lt (suc (missed_of id m)) max_missed) [
  | yes more ↦
      let t = (timeout_lem id m st h).2 more in
      let ih =
        dies_once id k (after_timeout id m st).0 (after_timeout id m st).1
          (after_timeout-IsAgreed id m st h) (omega (arith, after_timeout-missed_of id m st h)) in
      rw (run-timeouts id k m st, t.1, ih) (same_death id k m st h t.0)
  | no last ↦
      let t = (timeout_lem id m st h).3 (omega arith) in
      let z =
        quiet id k _ _ (after_timeout-IsAgreed id m st h)
          (omega (arith, after_timeout-missed_of id m st h)) in
      rw (run-timeouts id k m st, t, z)
        (ground (arith, append-nil (declare_dead m.has_callback id st).1))
]
