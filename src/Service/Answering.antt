-- ===== src/Service/Answering.antt =====
-- `HandleQuery`, `HandleQueryResponse` and the query that `ListAll` sends: a query's way to a peer
-- and its answer's way back.
use node_messager.Base.{
  ℕ, ◌≡◌, refl, sym, ap, ◌∙◌, ==_refl, ==_of_ne, ◌≢◌, Option, none, some, List, [], ◌∷◌, list_eq,
  nat_eq, All, length, In,
}
use node_messager.Base.Dict.{Dict, lookup, insert, delete, lookup-insert}
use node_messager.Base.Retry.{Result, ok, err}
use node_messager.Dto.{
  Node, Message, query_response, Codec, IsFaithful, Outgoing, QueryPayload, QueryResponsePayload,
}
use node_messager.NodeState.{State, node_by_id, alive_peers}
use node_messager.NodeState.Lookup.{HasDistinctIds, node_by_id-In}
use node_messager.Db.{Db, Answer}
use node_messager.Service.Query.{
  Collector, open_collector, add_result, split_query_id, tagged, split_query_id-tagged,
}
use node_messager.Service.Rows.{
  Text, Rows, Table, name, read_table, read_table-name, RowsError, local_rows, local_rows-rows_of,
  rows_of, RowCodecs, AreFaithful, marshal_rows, unmarshal_rows, unmarshal_rows-rows_of,
}

-- `queryWait`: the collectors of the queries that wait, by their ids.
abbrev pub Waits : Type 0 → Type 0
Waits Raw = Dict Text (Collector (QueryResponsePayload Raw))

abbrev pub query_for : State → Text → Text → QueryPayload
query_for st query_id table = record {
  table = tagged query_id table;
  requester_id = st.self.id;
  requester_host = st.self.host;
  requester_port = st.self.port;
}

module _ {Raw : Type 0} where
  -- `ListAll` up to its broadcast, and its deferred deletion.
  unfoldable pub open_query : State → Text → Waits Raw → Waits Raw
  open_query st query_id w = insert query_id (open_collector (length (alive_peers st))) w

  unfoldable pub close_query : Text → Waits Raw → Waits Raw
  close_query query_id w = delete query_id w

  module _ (query_json : Codec Raw QueryPayload)
      (response_json : Codec Raw (QueryResponsePayload Raw)) (rows_json : RowCodecs Raw) where
    -- `HandleQuery` once the rows and the requester are found, or not.
    abbrev pub respond :
        State
        → Text
        → Text
        → Result RowsError Rows
        → Option Node
        → List (Outgoing (QueryResponsePayload Raw))
    respond st query_id table (err x) to = []
    respond st query_id table (ok rows) none = []
    respond st query_id table (ok rows) (some requester) =
        record {
          to = requester;
          type = query_response;
          payload = record {
            table = tagged query_id table;
            rows = marshal_rows rows_json rows;
            node_id = st.self.id;
          };
        }
        ∷ []

    -- `HandleQuery` behind the decoding; `io` is the driver's answer to the SELECT.
    abbrev pub answer_to :
        State → Answer → Db → ℕ → Text × Text → List (Outgoing (QueryResponsePayload Raw))
    answer_to st io d requester_id (query_id, table) =
        respond st query_id table (local_rows io (read_table table) d) (node_by_id requester_id st)

    unfoldable pub answer_query :
        State → Answer → Db → QueryPayload → List (Outgoing (QueryResponsePayload Raw))
    unfolding split_query_id
    answer_query st io d p = answer_to st io d p.requester_id (split_query_id p.table)

    unfoldable pub handle_query :
        State → Answer → Db → Message Raw → List (Outgoing (QueryResponsePayload Raw))
    unfolding answer_query
    handle_query st io d m = elim (query_json.unmarshal m.content) [
      | none ↦ []
      | some p ↦ answer_query st io d p
    ]

    abbrev pub collect_into :
        Text
        → QueryResponsePayload Raw
        → Option (Collector (QueryResponsePayload Raw))
        → Waits Raw
        → Waits Raw
    collect_into query_id p none w = w
    collect_into query_id p (some c) w = insert query_id (add_result p c) w

    -- `HandleQueryResponse` behind the decoding. An answer to a query that does not wait is dropped.
    unfoldable pub take_response : QueryResponsePayload Raw → Waits Raw → Waits Raw
    unfolding split_query_id
    take_response p w =
        let query_id = (split_query_id p.table).0 in collect_into query_id p (lookup query_id w) w

    unfoldable pub handle_query_response : Message Raw → Waits Raw → Waits Raw
    unfolding take_response
    handle_query_response m w = elim (response_json.unmarshal m.content) [
      | none ↦ w
      | some p ↦ take_response p w
    ]

    -- What a peer answers to a query for table `t`.
    abbrev pub response : State → Text → Table → Db → QueryResponsePayload Raw
    response st query_id t d = record {
      table = tagged query_id (name t);
      rows = marshal_rows rows_json (rows_of t d);
      node_id = st.self.id;
    }

    answer_query-response :
        (asker peer : State) (query_id : Text) (t : Table) (d : Db)
        → All (λ b. b ≢ b'|') query_id
        → node_by_id asker.self.id peer ≡ some asker.self
        → answer_query peer none d (query_for asker query_id (name t))
          ≡ record { to = asker.self; type = query_response; payload = response peer query_id t d }
            ∷ []
    unfolding answer_query
    answer_query-response asker peer query_id t d h n =
        ap (answer_to peer none d asker.self.id) (split_query_id-tagged query_id (name t) h)
        ∙ rw (read_table-name t, local_rows-rows_of t d, n) refl

    take_response-add_result :
        (peer : State) (query_id : Text) (t : Table) (d : Db) (w : Waits Raw)
        (c : Collector (QueryResponsePayload Raw))
        → All (λ b. b ≢ b'|') query_id
        → lookup query_id w ≡ some c
        → take_response (response peer query_id t d) w
          ≡ insert query_id (add_result (response peer query_id t d) c) w
    unfolding take_response
    take_response-add_result peer query_id t d w c h q =
        let p = response peer query_id t d in
        ap (λ (x : Text × Text). collect_into x.0 p (lookup x.0 w) w)
          (split_query_id-tagged query_id (name t) h)
        ∙ ap (λ o. collect_into query_id p o w) q

    -- A query's round trip: a peer with the asker in its configuration answers a query for one of
    -- the four tables with one message to the asker; when the asker handles it, the collector of
    -- that query gains this answer, no other query's collector changes, and the answer's rows decode
    -- to the rows of the peer's table. The query's id has no '|', the ids of the configured nodes
    -- are distinct, the database gives no error, and the codecs are faithful.
    pub handle_query-handle_query_response :
        (asker peer : State) (query_id : Text) (t : Table) (d : Db) (w : Waits Raw)
        (c : Collector (QueryResponsePayload Raw)) (q m : Message Raw)
        → IsFaithful query_json
        → IsFaithful response_json
        → AreFaithful rows_json
        → HasDistinctIds peer.all
        → In asker.self peer.all
        → All (λ b. b ≢ b'|') query_id
        → lookup query_id w ≡ some c
        → q.content ≡ query_json.marshal (query_for asker query_id (name t))
        → m.content ≡ response_json.marshal (response peer query_id t d)
        → (handle_query peer none d q
            ≡ record {
              to = asker.self;
              type = query_response;
              payload = response peer query_id t d;
            }
              ∷ [])
          × (lookup query_id (handle_query_response m w)
              ≡ some (add_result (response peer query_id t d) c))
          × ((other : Text)
              → other ≢ query_id
              → lookup other (handle_query_response m w) ≡ lookup other w)
          × (unmarshal_rows rows_json (some t) (response peer query_id t d).rows
              ≡ some (rows_of t d))
    unfolding handle_query handle_query_response
    handle_query-handle_query_response asker peer query_id t d w c q m fq fr fs distinct i h l eq
          em =
        let p = response peer query_id t d in
        let om : response_json.unmarshal m.content ≡ some p =
          ap response_json.unmarshal em ∙ fr p in
        let oq : query_json.unmarshal q.content ≡ some (query_for asker query_id (name t)) =
          ap query_json.unmarshal eq ∙ fq (query_for asker query_id (name t)) in
        let r : handle_query_response m w ≡ insert query_id (add_result p c) w =
          rw (om, handle_query_response) (take_response-add_result peer query_id t d w c h l) in
        (
          rw (oq, handle_query)
              (answer_query-response asker peer query_id t d h
                (node_by_id-In peer asker.self distinct i)),
          rw r (rw (lookup-insert, ==_refl query_id) refl),
          λ other ne. rw r (rw (lookup-insert, ==_of_ne query_id other (λ e. ne (sym e))) refl),
          unmarshal_rows-rows_of rows_json t d fs,
        )
