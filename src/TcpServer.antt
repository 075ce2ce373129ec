-- ===== src/TcpServer.antt =====
-- pkg/tcp_server/server.go: the listener of a node, which hands its connections to the hub.
pub mod Delivery
mod Tests
use node_messager.Base.{ℕ, String, Bool, true, false, Option, none, some, List, [], ◌∷◌}
use node_messager.Base.Retry.{Result, ok, err}
use node_messager.Dto.{Node, Message, Codec}
use node_messager.MsgStore.{Entry, Store}
use node_messager.Hub.{Hub}
use node_messager.Hub

pub record TcpServer (C : Type 0) : Type 0 where
  pub node : Node
  pub store : Option (Store C)
  pub has_dispatcher : Bool
  pub ready : Bool

-- What `Accept` gives: a connection, or an error, with whether the context is cancelled by then.
pub data Answer : Type 0 where
  accepted : ℕ → Answer
  failed : Bool → Answer

-- The connections that the loop gives to `hub.Serve`, and whether it has returned.
unfoldable pub accept_loop : List Answer → List ℕ × Bool
accept_loop [] = ([], false)
accept_loop (accepted c ∷ answers) = let rest = accept_loop answers in (c ∷ rest.0, rest.1)
accept_loop (failed true ∷ answers) = ([], true)
accept_loop (failed false ∷ answers) = accept_loop answers

module _ {Wire C : Type 0} (json : Codec Wire (Message C))
    (entries : Codec (List ℕ) (Entry C)) where
  unfoldable pub new : Node → Option (Store C) → TcpServer C
  new n store = record { node = n; store = store; has_dispatcher = false; ready = false }

  unfoldable pub set_dispatcher : TcpServer C → TcpServer C
  set_dispatcher s = record s { has_dispatcher = true }

  -- `serve`: the hub that it starts, and the loop.
  unfoldable pub serve : List Answer → TcpServer C → Hub C × List ℕ × Bool
  unfolding accept_loop
  serve answers s =
      let served = accept_loop answers in
      (Hub.new json entries s.store s.has_dispatcher, served.0, served.1)

  -- `Start`: `Ready` is closed whether or not the port could be bound.
  unfoldable pub listen_and_serve :
      Result String (Unit {0})
      → List Answer
      → TcpServer C
      → TcpServer C × Result String (Hub C × List ℕ × Bool)
  unfolding serve
  listen_and_serve (err x) answers s = (record s { ready = true }, err x)
  listen_and_serve (ok _) answers s = (record s { ready = true }, ok (serve answers s))
