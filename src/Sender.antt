-- ===== src/Sender.antt =====
-- pkg/sender/sender.go: the pool of outgoing connections. A `tcpclient.Client` is a number; a `Call`
-- is what the network, the clock and github.com/google/uuid do during one call of `Send`.
pub mod Independent
pub mod Reconnects
mod Tests
use node_messager.Base.{
  ℕ, String, Bool, Option, none, some, List, [], ◌∷◌, ◌++◌, nat_eq, if◌then◌else◌,
}
use node_messager.Base.Dict.{Dict, lookup, insert, delete}
use node_messager.Base.Retry.{Result, ok, err}
use node_messager.Dto.{Node, Message, MessageType}

pub record Pool : Type 0 where
  pub conns : Dict ℕ ℕ

pub record Call : Type 0 where
  pub is_closed : ℕ → Bool
  pub dialled : Result String ℕ
  pub written : Option String
  pub uuid : String
  pub now : String

-- The error names the target.
pub data SendError : Type 0 where
  connect_failed send_failed : String → String → SendError
  not_encoded : String → SendError

unfoldable pub new_pool : Pool
new_pool = record { conns = [] }

-- The pool after `CloseAll`, and the clients that it closes.
unfoldable pub close_all : Pool → Pool × List ℕ
close_all p = (record { conns = [] }, clients p.conns)
  where
    clients : Dict ℕ ℕ → List ℕ
    clients [] = []
    clients ((n, c) ∷ rest) = c ∷ clients rest

abbrev pub keep_dialled : Node → Result String ℕ → Pool → Pool × Result String ℕ
keep_dialled n (err x) p = (p, err x)
keep_dialled n (ok c) p = (record p { conns = insert n.id c p.conns }, ok c)

-- A client in the pool is used unless it is closed.
abbrev pub get_from : Option ℕ → Call → Node → Pool → Pool × Result String ℕ
get_from none call n p = keep_dialled n call.dialled p
get_from (some c) call n p = if call.is_closed c then keep_dialled n call.dialled p else (p, ok c)

unfoldable pub get : Call → Node → Pool → Pool × Result String ℕ
get call n p = get_from (lookup n.id p.conns) call n p

-- A line, and the client on which it was written.
abbrev pub Lines : Type 0 → Type 0
Lines Wire = List (ℕ × Wire)

abbrev pub Sending : Type 0 → Type 0
Sending Wire = (Pool × Lines Wire) × Option SendError

abbrev pub note_error : ℕ → Option SendError → Dict ℕ SendError → Dict ℕ SendError
note_error id none errs = errs
note_error id (some x) errs = insert id x errs

-- `encode` is `json.Marshal` at a message, a struct of strings.
module _ {Raw Wire : Type 0} (encode : Message Raw → Wire) (from : Node) (type : MessageType) where
  abbrev pub message_to : Call → Node → Raw → Message Raw
  message_to call to content = record {
    id = call.uuid;
    type = type;
    from_node = from.name;
    to_node = to.name;
    content = content;
    send_at = call.now;
  }

  -- A connection whose write fails is taken out of the pool.
  abbrev pub write_to : Call → Node → Raw → ℕ → Option String → Pool → Sending Wire
  write_to call to content c none p = ((p, (c, encode (message_to call to content)) ∷ []), none)
  write_to call to content c (some x) p =
      ((record p { conns = delete to.id p.conns }, []), some (send_failed to.name x))

  abbrev pub send_on : Call → Node → Raw → Pool × Result String ℕ → Sending Wire
  send_on call to content (p, err x) = ((p, []), some (connect_failed to.name x))
  send_on call to content (p, ok c) = write_to call to content c call.written p

  unfoldable pub send : Call → Node → Raw → Pool → Sending Wire
  unfolding get
  send call to content p = send_on call to content (get call to p)

  -- `SendJSON`, with what `json.Marshal` gives for the payload.
  unfoldable pub send_json : Call → Node → Result String Raw → Pool → Sending Wire
  unfolding send
  send_json call to (err x) p = ((p, []), some (not_encoded x))
  send_json call to (ok content) p = send call to content p

  -- `Broadcast` from the errors `errs`; `calls` is what happens at each target.
  unfoldable pub broadcast_from :
      (Node → Call)
      → List Node
      → Raw
      → Dict ℕ SendError
      → Pool
      → (Pool × Lines Wire) × Dict ℕ SendError
  unfolding send
  broadcast_from calls [] content errs p = ((p, []), errs)
  broadcast_from calls (t ∷ ts) content errs p =
      let first = send (calls t) t content p in
      let rest = broadcast_from calls ts content (note_error t.id first.1 errs) first.0.0 in
      ((rest.0.0, first.0.1 ++ rest.0.1), rest.1)

  unfoldable pub broadcast :
      (Node → Call) → List Node → Raw → Pool → (Pool × Lines Wire) × Dict ℕ SendError
  unfolding broadcast_from
  broadcast calls targets content p = broadcast_from calls targets content [] p

  -- `BroadcastJSON`: a payload that does not marshal gives the one error under the key -1.
  unfoldable pub broadcast_json :
      (Node → Call)
      → List Node
      → Result String Raw
      → Pool
      → (Pool × Lines Wire) × Result SendError (Dict ℕ SendError)
  unfolding broadcast
  broadcast_json calls targets (err x) p = ((p, []), err (not_encoded x))
  broadcast_json calls targets (ok content) p =
      let r = broadcast calls targets content p in (r.0, ok r.1)
