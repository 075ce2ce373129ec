-- ===== src/Cli/Outbox.antt =====
-- `sendMsg` and `broadcast` of internal/adapters/cli/cli.go, on the pool of connections and the
-- stores of messages by node. `connPool.get` reads as `Pool.get` of pkg/sender/sender.go.
use node_messager.Base.{ℕ, String, Option, none, some, List, [], ◌∷◌, ◌++◌, map, nat_eq}
use node_messager.Base.Dict.{Dict, lookup, insert}
use node_messager.Base.Retry.{Result, ok, err}
use node_messager.Dto.{Node, Message, msg, broadcast, Codec}
use node_messager.MsgStore.{Entry, sent, Store, Io, save}
use node_messager.MsgStore.Window
use node_messager.Sender.{Pool, Call, get, close_all}

pub record Outbox (C : Type 0) : Type 0 where
  pub pool : Pool
  pub stores : Dict ℕ (Store C)

-- What the surroundings do while one message is sent and saved. `main` gives the store of a node to
-- the node's hub too: `incoming` is what the hub saves in the sender's store before the menu does,
-- since the menu's last save.
pub record Moment (C : Type 0) : Type 0 where
  pub call : Call
  pub incoming : List (Window.Call C)
  pub io : Io
  pub saved_at : String

-- A save in the sender's store: the hub's, or the menu's of a message that was written on a client.
pub data Logged (C : Type 0) : Type 0 where
  by_hub : Window.Call C → Logged C
  by_menu : ℕ → Window.Call C → Logged C

-- An error of a broadcast names its target.
pub record Failure : Type 0 where
  pub target : String
  pub reason : String

module _ {C : Type 0} (json : Codec (List ℕ) (Entry C)) where
  -- `if s, ok := stores[from.ID]; ok { _ = s.Save(m, msgstore.Sent) }`
  abbrev pub save_in : ℕ → Window.Call C → Option (Store C) → Dict ℕ (Store C) → Dict ℕ (Store C)
  save_in id c none stores = stores
  save_in id c (some s) stores = insert id (save json c.now c.msg c.type c.io s).0 stores

  abbrev pub hear_in :
      ℕ → List (Window.Call C) → Option (Store C) → Dict ℕ (Store C) → Dict ℕ (Store C)
  hear_in id cs none stores = stores
  hear_in id cs (some s) stores = insert id (Window.run json cs s) stores

  abbrev pub saving : Moment C → Message C → Window.Call C
  saving at m = record { now = at.saved_at; msg = m; type = sent; io = at.io }

  abbrev pub Sending : Type 0
  Sending = (Outbox C × List (Logged C)) × Option String

  -- A failed write leaves the connection in the pool.
  abbrev pub write_on : Moment C → Node → Message C → ℕ → Option String → Outbox C → Sending
  write_on at from m c (some x) o = ((o, []), some x)
  write_on at from m c none o = (
    (
      record o { stores = save_in from.id (saving at m) (lookup from.id o.stores) o.stores },
      by_menu c (saving at m) ∷ [],
    ),
    none,
  )

  abbrev pub send_on : Moment C → Node → Message C → Outbox C → Pool × Result String ℕ → Sending
  send_on at from m o (p, err x) = ((record o { pool = p }, []), some x)
  send_on at from m o (p, ok c) = write_on at from m c at.call.written (record o { pool = p })

  unfoldable pub send : Moment C → Node → Node → Message C → Outbox C → Sending
  unfolding get Window.run
  send at from to m o =
      let heard : Outbox C = record o {
        stores = hear_in from.id at.incoming (lookup from.id o.stores) o.stores;
      } in
      let r = send_on at from m heard (get at.call to o.pool) in
      ((r.0.0, map by_hub at.incoming ++ r.0.1), r.1)

  unfoldable pub send_msg : Moment C → Node → Node → C → Outbox C → Sending
  unfolding send
  send_msg at from to content = send at from to (record {
    id = at.call.uuid;
    type = msg;
    from_node = from.name;
    to_node = to.name;
    content = content;
    send_at = at.call.now;
  })

  abbrev pub note : Node → Option String → List Failure → List Failure
  note n none errs = errs
  note n (some x) errs = record { target = n.name; reason = x } ∷ errs

  abbrev pub broadcast_message : String → String → Node → C → Node → Message C
  broadcast_message id now from content n = record {
    id = id;
    type = broadcast;
    from_node = from.name;
    to_node = n.name;
    content = content;
    send_at = now;
  }

  -- All the messages of a broadcast have one id and one time.
  unfoldable pub broadcast_all :
      String
      → String
      → (Node → Moment C)
      → Node
      → C
      → List Node
      → Outbox C
      → (Outbox C × List (Logged C)) × List Failure
  unfolding send
  broadcast_all id now at from content [] o = ((o, []), [])
  broadcast_all id now at from content (n ∷ ns) o =
      let first = send (at n) from n (broadcast_message id now from content n) o in
      let rest = broadcast_all id now at from content ns first.0.0 in
      ((rest.0.0, first.0.1 ++ rest.0.1), note n first.1 rest.1)

  -- The deferred `pool.closeAll()` of `Run`, with the connections that it closes.
  unfoldable pub close_outbox : Outbox C → Outbox C × List ℕ
  unfolding close_all
  close_outbox o = let closed = close_all o.pool in (record o { pool = closed.0 }, closed.1)
