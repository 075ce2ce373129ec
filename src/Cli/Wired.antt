-- ===== src/Cli/Wired.antt =====
-- The menu over its own `sendMsg` and `broadcast`: what a host's session writes is in its history.
use node_messager.Base.{ℕ, suc, String, ◌≡◌, some, List, ◌++◌, map, nat_eq}
use node_messager.Base.Dict.{lookup}
use node_messager.Dto.{Node, Codec}
use node_messager.MsgStore.{Entry, Store}
use node_messager.MsgStore.Window.{run as window}
use node_messager.Cli.{Services}
use node_messager.Cli.Loop.{run}
use node_messager.Cli.Outbox.{Outbox, Moment, Logged, Failure, send_msg, broadcast_all}
use node_messager.Cli.Saved.{calls_of}

-- The pool and the stores, the state of the service, and what was saved so far.
pub record World (T : Type 0) : Type 0 where
  pub outbox : Outbox String
  pub calls : ℕ
  pub log : List (Logged String)
  pub service : T

module _ {T : Type 0} (json : Codec (List ℕ) (Entry String)) (show : Failure → String)
    (moments : ℕ → Node → Moment String) (service : Services T) where
  -- A call of the service leaves the rest alone: what the service sends is not saved.
  abbrev pub on_service : {A : Type 0} → (T → T × A) → World T → World T × A
  on_service f w = let r = f w.service in (record w { service = r.0 }, r.1)

  abbrev pub sent : World T → (Outbox String × List (Logged String)) → World T
  sent w (o, out) = record w { outbox = o; calls = suc w.calls; log = w.log ++ out }

  -- `moments n` is what call number `n` meets at each node.
  unfoldable pub wired : Services (World T)
  unfolding send_msg broadcast_all
  wired = record {
    send_msg = λ from to text w.
        let r = send_msg json (moments w.calls to) from to text w.outbox in (sent w r.0, r.1);
    broadcast = λ from targets text w.
        let at = moments w.calls in
        let r =
          broadcast_all json (at from).call.uuid (at from).call.now at from text targets w.outbox in
        (sent w r.0, map show r.1);
    raise_ticket = λ u d. on_service (service.raise_ticket u d);
    close_ticket = λ t e. on_service (service.close_ticket t e);
    list_all = λ t. on_service (service.list_all t);
    add_usuario = λ nombre. on_service (service.add_usuario nombre);
    add_ingeniero = λ nombre. on_service (service.add_ingeniero nombre);
    add_device = λ nombre tipo. on_service (service.add_device nombre tipo);
  }

  -- The host's store is `s` with what was saved.
  Recorded : Node → Store String → World T → Type 0
  Recorded host s w = lookup host.id w.outbox.stores ≡ some (window json (calls_of w.log) s)
