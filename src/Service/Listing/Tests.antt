-- ===== src/Service/Listing/Tests.antt =====
-- Instances of the theorem: node 1 lists the tickets, of which node 2 has one.
use node_messager.Base.{
  ℕ, ◌≡◌, refl, ◌≢◌, none, some, [], ◌∷◌, ◌++◌, map, select, ◌==◌, nat_eq, list_eq, if◌then◌else◌,
  inl, All, arith,
}
use node_messager.Base.Dict.{lookup, insert, delete}
use node_messager.Db.{Db, Answer, empty}
use node_messager.NodeState
use node_messager.NodeState.{State, alive_peers}
use node_messager.Fixtures.{s1, s2, pair-HasDistinctIds}
use node_messager.Fixtures.Wires.{
  query_json, response_json, rows_json, rows_json-AreFaithful, at_node, tables,
}
use node_messager.Service.Query.{Wait, timed_out, context_done}
use node_messager.Service.Rows.{Text, tickets_table, name, rows_of}
use node_messager.Service.Listing.{row_list, Course, comes_late, list_everywhere}
use node_messager.Service.Listing.Gathered.{flatten, Meets, list_everywhere_lem}

abbrev view : ℕ → State
view k = at_node (if k == 1 then s1 else s2)

abbrev fleet : ℕ → Db
fleet k = if k == 1 then empty else tables

abbrev well : ℕ → Answer
well k = none

abbrev course : Course
course = record {
  early = λ p. p.id == 2;
  late = λ p. p.id == 3;
  failures = 0;
  interrupt = timed_out;
  uuid = "m";
  now = "t";
}

abbrev query_id : Text
query_id = b'q' ∷ b'1' ∷ []

peers_meet : All (Meets view 1) (alive_peers (view 1))
unfolding NodeState.new alive_peers NodeState.is_alive NodeState.mark_all lookup insert delete
peers_meet = ((pair-HasDistinctIds, inl refl), tt)

waits_on : ◌≢◌ {A = Wait} timed_out context_done
waits_on e = cc

list_everywhere_lem_example :
    ((list_everywhere query_json response_json rows_json view well fleet course 1 query_id
        (name tickets_table)
        []).0
      ≡ some (
          flatten (
            map
              (λ p. row_list (rows_of tickets_table (fleet p.id)))
              (select course.early (alive_peers (view 1))
                ++ select (comes_late course) (alive_peers (view 1))))))
    × (lookup query_id
          (list_everywhere query_json response_json rows_json view well fleet course 1 query_id
            (name tickets_table)
            []).1
        ≡ none)
list_everywhere_lem_example =
    list_everywhere_lem query_json response_json rows_json view well fleet (λ p. refl) (λ p. refl)
      rows_json-AreFaithful course 1 query_id tickets_table []
      ((λ e. omega arith), ((λ e. omega arith), tt)) (λ k. refl) peers_meet waits_on

-- The answer is the ticket.
one_ticket :
    flatten (
      map
        (λ p. row_list (rows_of tickets_table (fleet p.id)))
        (select course.early (alive_peers (view 1))))
    ≡ row_list (rows_of tickets_table tables)
unfolding NodeState.new alive_peers NodeState.is_alive NodeState.mark_all lookup insert delete
one_ticket = refl
