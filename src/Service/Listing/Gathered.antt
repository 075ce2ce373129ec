-- ===== src/Service/Listing/Gathered.antt =====
-- What `ListAll` returns.
use node_messager.Base.{
  ℕ, ◌≡◌, refl, sym, ap, ◌∙◌, ◌≢◌, Option, none, some, List, [], ◌∷◌, ◌++◌, map, append-nil,
  append_assoc, ==_refl, Bool-cases, inl, inr, nat_eq, list_eq, select, length, All, All-select, In,
}
use node_messager.Base.Dict.{lookup, insert, lookup-insert_self, lookup-delete}
use node_messager.Dto.{
  Node, query, query_response, Codec, IsFaithful, QueryPayload, QueryResponsePayload,
}
use node_messager.NodeState.{State, alive_peers}
use node_messager.NodeState.Lookup.{HasDistinctIds}
use node_messager.Db.{Db, Answer}
use node_messager.Service.Query.{
  Collector, open_collector, add_results, lower_expected, collect-results, Wait, ready, timed_out,
  context_done, merge, list_all,
}
use node_messager.Service.Rows.{
  Text, Table, name, read_table-name, local_rows-rows_of, rows_of, RowCodecs, AreFaithful,
  unmarshal_rows, unmarshal_rows-rows_of,
}
use node_messager.Service.Answering.{
  Waits, query_for, open_query, close_query, response, handle_query-handle_query_response,
}
use node_messager.Service.Listing.{
  mapped, Row, row_list, Course, comes_late, message_of, hear, lowered, decode_rows, ended, gather,
  list_everywhere,
}

abbrev pub flatten : List (List Row) → List Row
flatten [] = []
flatten (r ∷ rs) = r ++ flatten rs

flatten-append : (xs ys : List (List Row)) → flatten (xs ++ ys) ≡ flatten xs ++ flatten ys
flatten-append [] ys = refl
flatten-append (x ∷ xs) ys = rw (flatten-append xs ys, append_assoc) refl

map_append : {A B : Type 0} (f : A → B) (xs ys : List A) → map f (xs ++ ys) ≡ map f xs ++ map f ys
map_append f [] ys = refl
map_append f (x ∷ xs) ys = ap (λ r. f x ∷ r) (map_append f xs ys)

module _ (view : ℕ → State) where
  -- A peer that has the asker in its configuration, whose nodes have distinct ids.
  abbrev pub Meets : ℕ → Node → Type 0
  Meets n p = HasDistinctIds (view p.id).all × In (view n).self (view p.id).all

module _ {Raw : Type 0} (query_json : Codec Raw QueryPayload)
    (response_json : Codec Raw (QueryResponsePayload Raw)) (rows_json : RowCodecs Raw)
    (view : ℕ → State) (io : ℕ → Answer) (tables : ℕ → Db) (fq : IsFaithful query_json)
    (fr : IsFaithful response_json) (fs : AreFaithful rows_json) where
  abbrev answer : Text → Table → Node → QueryResponsePayload Raw
  answer query_id t p =
      response query_json response_json rows_json (view p.id) query_id t (tables p.id)

  hear-results :
      (c : Course) (n : ℕ) (query_id : Text) (t : Table) (ps : List Node) (w : Waits Raw)
      (col : Collector (QueryResponsePayload Raw))
      → All (λ b. b ≢ b'|') query_id
      → ((k : ℕ) → io k ≡ none)
      → All (Meets view n) ps
      → lookup query_id w ≡ some col
      → lookup query_id (
          hear query_json response_json rows_json view io tables c n
            (query_for (view n) query_id (name t))
            ps
            w)
        ≡ some (add_results (map (answer query_id t) ps) col)
  unfolding hear add_results
  hear-results c n query_id t [] w col h d m l = l
  hear-results c n query_id t (p ∷ ps) w col h d m l =
      let q = query_for (view n) query_id (name t) in
      let sent =
        message_of query_json response_json rows_json view io tables c (view n) p query
          (query_json.marshal q) in
      let back =
        message_of query_json response_json rows_json view io tables c (view p.id) (view n).self
          query_response (response_json.marshal (answer query_id t p)) in
      let x =
        handle_query-handle_query_response query_json response_json rows_json (view n) (view p.id)
          query_id t (tables p.id) w col sent back fq fr fs m.0.0 m.0.1 h l refl refl in
      rw (d p.id, x.0) (hear-results c n query_id t ps _ _ h d m.1 x.1)

  answer_decodes :
      (query_id : Text) (t : Table) (p : Node)
      → decode_rows query_json response_json rows_json view io tables (name t) (answer query_id t p)
        ≡ some (row_list (rows_of t (tables p.id)))
  answer_decodes query_id t p =
      ap (λ o. mapped row_list (unmarshal_rows rows_json o (answer query_id t p).rows))
        (read_table-name t)
      ∙ ap (mapped row_list) (unmarshal_rows-rows_of rows_json t (tables p.id) fs)

  merge-flatten :
      (query_id : Text) (t : Table) (own : List Row) (ps : List Node)
      → merge
          (decode_rows query_json response_json rows_json view io tables (name t))
          own
          (map (answer query_id t) ps)
        ≡ own ++ flatten (map (λ p. row_list (rows_of t (tables p.id))) ps)
  unfolding merge
  merge-flatten query_id t own [] = simp append-nil
  merge-flatten query_id t own (p ∷ ps) =
      rw (answer_decodes query_id t p, merge)
        (merge-flatten query_id t (own ++ row_list (rows_of t (tables p.id))) ps
          ∙ rw append_assoc refl)

  -- After an answer or a timeout, the rows are the node's own and those of the answers.
  list_all-merge :
      (f : QueryResponsePayload Raw → Option (List Row)) (own : List Row) (peers : ℕ) (w : Wait)
      (col : Collector (QueryResponsePayload Raw))
      → w ≢ context_done
      → list_all f (some own) peers w col ≡ some (merge f own col.results)
  unfolding list_all
  list_all-merge f own peers ready col h = refl
  list_all-merge f own peers timed_out col h = refl
  list_all-merge f own peers context_done col h = absurd (h refl)

  ended_well :
      (c : Course) (col : Collector (QueryResponsePayload Raw))
      → c.interrupt ≢ context_done
      → ended query_json response_json rows_json view io tables c col ≢ context_done
  ended_well c col h e = elim (Bool-cases col.closed) [
    | inl t ↦ cc (rw t at e)
    | inr f ↦ h (rw f at e)
  ]

  gathered :
      (c : Course) (n : ℕ) (query_id : Text) (t : Table) (early late : List Node)
      (col : Collector (QueryResponsePayload Raw))
      → ((k : ℕ) → io k ≡ none)
      → c.interrupt ≢ context_done
      → col.results ≡ map (answer query_id t) (early ++ late)
      → gather query_json response_json rows_json view io tables c n (name t) (some col)
        ≡ some (
            row_list (rows_of t (tables n))
            ++ flatten (map (λ p. row_list (rows_of t (tables p.id))) (early ++ late)))
  gathered c n query_id t early late col d i q =
      rw (d n, read_table-name t, local_rows-rows_of t (tables n))
        (list_all-merge _ (row_list (rows_of t (tables n))) _
            (ended query_json response_json rows_json view io tables c col) col (ended_well c col i)
          ∙ rw q (
              ap some (merge-flatten query_id t (row_list (rows_of t (tables n))) (early ++ late))))

  -- `ListAll` of one of the four tables gives the rows of that table at the node itself, then those
  -- of each peer whose answer comes in time, in the order of the answers, and the query does not
  -- wait any more; this holds when all expected answers have come and after a timeout, as long as
  -- the context is not cancelled. The databases give no error, the query's id has no '|', each alive
  -- peer has the node in its configuration, whose nodes have distinct ids, and JSON decodes what it
  -- encodes.
  pub list_everywhere_lem :
      (c : Course) (n : ℕ) (query_id : Text) (t : Table) (w : Waits Raw)
      → All (λ b. b ≢ b'|') query_id
      → ((k : ℕ) → io k ≡ none)
      → All (Meets view n) (alive_peers (view n))
      → c.interrupt ≢ context_done
      → ((list_everywhere query_json response_json rows_json view io tables c n query_id
            (name t)
            w).0
          ≡ some (
              row_list (rows_of t (tables n))
              ++ flatten (
                  map
                    (λ p. row_list (rows_of t (tables p.id)))
                    (select c.early (alive_peers (view n))
                      ++ select (comes_late c) (alive_peers (view n))))))
        × (lookup query_id
              (list_everywhere query_json response_json rows_json view io tables c n query_id
                (name t)
                w).1
            ≡ none)
  unfolding list_everywhere open_query close_query
  list_everywhere_lem c n query_id t w h d m i =
      let ps = alive_peers (view n) in
      let early = select c.early ps in
      let late = select (comes_late c) ps in
      let rs = map (answer query_id t) early in
      let rs' = map (answer query_id t) late in
      let c0 = open_collector (length ps) in
      let w0 = insert query_id c0 w in
      let l1 =
        hear-results c n query_id t early w0 c0 h d (All-select (Meets view n) c.early ps m)
          (lookup-insert_self query_id c0 w) in
      let c2 = lower_expected c.failures (add_results rs c0) in
      let q = query_for (view n) query_id (name t) in
      let w1 = hear query_json response_json rows_json view io tables c n q early w0 in
      let l3 =
        hear-results c n query_id t late (insert query_id c2 w1) c2 h d
          (All-select (Meets view n) (comes_late c) ps m) (lookup-insert_self query_id c2 w1) in
      (
        ap
              (λ w2. gather query_json response_json rows_json view io tables c n (name t) (
                lookup query_id
                  (hear query_json response_json rows_json view io tables c n q late w2)))
              (ap
                (λ o.
                  lowered query_json response_json rows_json view io tables query_id c.failures o
                    w1)
                l1)
            ∙ ap (gather query_json response_json rows_json view io tables c n (name t)) l3
            ∙ gathered c n query_id t early late (add_results rs' c2) d i (
                collect-results (length ps) c.failures rs rs'
                ∙ sym (map_append (answer query_id t) early late)),
        rw (lookup-delete, ==_refl query_id) refl,
      )
