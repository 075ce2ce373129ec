-- ===== src/Service/Listing.antt =====
-- `ListAll` as a whole, with the other nodes: the query goes to the alive peers, and answers come
-- back until the wait ends.
pub mod Gathered
mod Tests
use node_messager.Base.{
  ℕ, String, ◌≡◌, refl, ap, ◌∙◌, ◌≢◌, Bool, true, false, not, ◌&&◌, Option, none, some, List, [],
  ◌∷◌, ◌++◌, map, append-nil, append_assoc, Bool-cases, inl, inr, nat_eq, list_eq, if◌then◌else◌,
  select, length, All, All-select, In,
}
use node_messager.Base.Dict.{lookup, insert, delete, lookup-insert_self, lookup-delete}
use node_messager.Base.Retry.{Result, ok, err}
use node_messager.Dto.{
  Node, Message, MessageType, query, query_response, Codec, IsFaithful, Outgoing, QueryPayload,
  QueryResponsePayload, IngenieroRow, UsuarioRow, DispositivoRow, TicketRow,
}
use node_messager.NodeState.{State, alive_peers}
use node_messager.NodeState.Lookup.{HasDistinctIds}
use node_messager.Db.{Db, Answer}
use node_messager.Service.Query.{
  Collector, open_collector, add_result, add_results, lower_expected, collect, collect-results,
  Wait, ready, timed_out, context_done, merge, list_all, tagged,
}
use node_messager.Service.Rows.{
  Text, Rows, ingenieros, usuarios, dispositivos, tickets, Table, name, read_table, read_table-name,
  RowsError, local_rows, local_rows-rows_of, rows_of, RowCodecs, AreFaithful, unmarshal_rows,
  unmarshal_rows-rows_of,
}
use node_messager.Service.Answering.{
  Waits, query_for, open_query, close_query, handle_query, handle_query_response, response,
  handle_query-handle_query_response,
}

-- A value of the slice `[]any` that `ListAll` returns.
pub data Row : Type 0 where
  ingeniero : IngenieroRow → Row
  usuario : UsuarioRow → Row
  dispositivo : DispositivoRow → Row
  ticket : TicketRow → Row

abbrev pub row_list : Rows → List Row
row_list (ingenieros rows) = map ingeniero rows
row_list (usuarios rows) = map usuario rows
row_list (dispositivos rows) = map dispositivo rows
row_list (tickets rows) = map ticket rows

abbrev pub mapped : {A B : Type 0} → (A → B) → Option A → Option B
mapped f none = none
mapped f (some a) = some (f a)

abbrev pub own_rows : Result RowsError Rows → Option (List Row)
own_rows (err x) = none
own_rows (ok rows) = some (row_list rows)

-- What the surroundings do during one call: whose answers come before and after the count of the
-- peers that the broadcast did not reach, how many those are, and what ends the wait if the
-- collector does not.
pub record Course : Type 0 where
  pub early : Node → Bool
  pub late : Node → Bool
  pub failures : ℕ
  pub interrupt : Wait
  pub uuid : String
  pub now : String

abbrev pub comes_late : Course → Node → Bool
comes_late c p = not (c.early p) && c.late p

module _ {Raw : Type 0} (query_json : Codec Raw QueryPayload)
    (response_json : Codec Raw (QueryResponsePayload Raw)) (rows_json : RowCodecs Raw)
    (view : ℕ → State) (io : ℕ → Answer) (tables : ℕ → Db) where
  abbrev pub message_of : Course → State → Node → MessageType → Raw → Message Raw
  message_of c st to type content = record {
    id = c.uuid;
    type = type;
    from_node = st.self.name;
    to_node = to.name;
    content = content;
    send_at = c.now;
  }

  abbrev pub hand_in :
      Course → State → List (Outgoing (QueryResponsePayload Raw)) → Waits Raw → Waits Raw
  hand_in c st [] w = w
  hand_in c st (o ∷ os) w = hand_in c st os (
      handle_query_response query_json response_json rows_json
        (message_of c st o.to o.type (response_json.marshal o.payload)) w)

  -- These peers get the query, and their answers arrive.
  unfoldable pub hear : Course → ℕ → QueryPayload → List Node → Waits Raw → Waits Raw
  unfolding handle_query handle_query_response
  hear c n q [] w = w
  hear c n q (p ∷ ps) w = hear c n q ps (
      hand_in c (view p.id)
        (handle_query query_json response_json rows_json (view p.id) (io p.id) (tables p.id)
          (message_of c (view n) p query (query_json.marshal q)))
        w)

  abbrev pub lowered :
      Text → ℕ → Option (Collector (QueryResponsePayload Raw)) → Waits Raw → Waits Raw
  lowered query_id k none w = w
  lowered query_id k (some c) w = insert query_id (lower_expected k c) w

  abbrev pub decode_rows : Text → QueryResponsePayload Raw → Option (List Row)
  decode_rows table p = mapped row_list (unmarshal_rows rows_json (read_table table) p.rows)

  abbrev pub ended : Course → Collector (QueryResponsePayload Raw) → Wait
  ended c col = if col.closed then ready else c.interrupt

  abbrev pub gather :
      Course → ℕ → Text → Option (Collector (QueryResponsePayload Raw)) → Option (List Row)
  gather c n table none = none
  gather c n table (some col) =
      list_all (decode_rows table) (own_rows (local_rows (io n) (read_table table) (tables n)))
        (length (alive_peers (view n))) (ended c col) col

  -- `ListAll` at node `n`: the rows, if there is no error, and the queries that wait afterwards.
  unfoldable pub list_everywhere :
      Course → ℕ → Text → Text → Waits Raw → Option (List Row) × Waits Raw
  unfolding open_query close_query list_all
  list_everywhere c n query_id table w =
      let ps = alive_peers (view n) in
      let q = query_for (view n) query_id table in
      let w1 = hear c n q (select c.early ps) (open_query (view n) query_id w) in
      let w2 = lowered query_id c.failures (lookup query_id w1) w1 in
      let w3 = hear c n q (select (comes_late c) ps) w2 in
      (gather c n table (lookup query_id w3), close_query query_id w3)
