-- ===== src/Sender/Tests.antt =====
-- Instances of the theorems: node 3 is down, and node 2 closes its connection during a write.
use node_messager.Base.{
  ◌+◌, ℕ, String, ◌≡◌, refl, ◌≢◌, false, none, some, List, [], ◌∷◌, arith, nat_eq, ◌==◌,
  if◌then◌else◌, In, All,
}
use node_messager.Base.Dict.{lookup, insert}
use node_messager.Base.Retry.{ok, err}
use node_messager.Dto.{Node, Message, msg}
use node_messager.Fixtures.{s1, s2, s3, s4}
use node_messager.Sender.{Pool, Call, send_failed, message_to, get, send, broadcast}
use node_messager.Sender.Independent.{AreApart, broadcast-send}
use node_messager.Sender.Reconnects.{send-send}

abbrev as_is : Message String → Message String
as_is m = m

abbrev calls : Node → Call
calls n = record {
  is_closed = λ c. false;
  dialled = if n.id == 3 then err "connection refused" else ok (n.id + 100);
  written = if n.id == 2 then some "broken pipe" else none;
  uuid = "u";
  now = "t";
}

abbrev pool : Pool
pool = record { conns = (2, 7) ∷ [] }

abbrev targets : List Node
targets = s2 ∷ s3 ∷ s4 ∷ []

targets-AreApart : AreApart targets
targets-AreApart = ((λ e. omega arith, (λ e. omega arith, tt)), ((λ e. omega arith, tt), (tt, tt)))

broadcast-send_example :
    ((t : Node)
      → In t targets
      → lookup t.id (broadcast as_is s1 msg calls targets "hola" pool).1
        ≡ (send as_is s1 msg (calls t) t "hola" pool).1)
    × ((other : ℕ)
        → All (λ u. u.id ≢ other) targets
        → lookup other (broadcast as_is s1 msg calls targets "hola" pool).1 ≡ none)
broadcast-send_example = broadcast-send as_is s1 msg calls targets "hola" pool targets-AreApart

-- The network is back.
abbrev again : Call
again = record (calls s4) { dialled = ok 8 }

fails :
    (send as_is s1 msg (calls s2) s2 "hola" pool).1 ≡ some (send_failed "sucursal2" "broken pipe")
unfolding send get lookup
fails = refl

send-send_example :
    (send as_is s1 msg again s2 "otra vez" (send as_is s1 msg (calls s2) s2 "hola" pool).0.0) ≡ (
      (
        record { conns = insert 2 8 (send as_is s1 msg (calls s2) s2 "hola" pool).0.0.conns },
        (8, message_to as_is s1 msg again s2 "otra vez") ∷ [],
      ),
      none,
    )
send-send_example =
    send-send as_is s1 msg (calls s2) again s2 "hola" "otra vez" pool
      (send_failed "sucursal2" "broken pipe") 8 fails (λ old e. e) refl refl
