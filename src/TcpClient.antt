-- ===== src/TcpClient.antt =====
-- pkg/tcpclient/client.go: an outgoing connection. What the network answers is an argument.
use node_messager.Base.{ℕ, String, Bool, true, false, Option, none, some, List, [], ◌∷◌, ◌++◌}
use node_messager.Base.Scanning.{newline}
use node_messager.Base.Retry.{Result, ok, err}

-- `written` is what the connection has carried; `received` are the values put into `Recv`.
pub record Client : Type 0 where
  pub conn : ℕ
  pub written : List ℕ
  pub received : List (List ℕ)
  pub recv_closed : Bool
  pub done : Bool
  pub conn_closed : Bool

abbrev pub connected : ℕ → Client
connected conn = record {
  conn = conn;
  written = [];
  received = [];
  recv_closed = false;
  done = false;
  conn_closed = false;
}

-- `net.Dial` gives a connection or an error, which `Connect` passes on.
unfoldable pub connect : Result String ℕ → Result String Client
connect (err x) = err x
connect (ok conn) = ok (connected conn)

unfoldable pub is_closed : Client → Bool
is_closed c = c.done

-- The part of a line that a failed write has carried is an argument.
pub data Written : Type 0 where
  whole : Written
  part : List ℕ → String → Written

unfoldable pub send : Written → List ℕ → Client → Client × Option String
send whole msg c = (record c { written = c.written ++ (msg ++ newline ∷ []) }, none)
send (part bytes x) msg c = (record c { written = c.written ++ bytes }, some x)

unfoldable pub close : Client → Client
close c = record c { conn_closed = true }

-- `readLoop` drops every line; when there are no more, the deferred calls run.
unfoldable pub read_loop : List (List ℕ) → Client → Client
read_loop [] c = record c { done = true; recv_closed = true }
read_loop (line ∷ lines) c = read_loop lines c

-- One call of `Send` after the other, all of them written.
unfoldable pub send_all : List (List ℕ) → Client → Client
unfolding send
send_all [] c = c
send_all (msg ∷ msgs) c = send_all msgs (send whole msg c).0
