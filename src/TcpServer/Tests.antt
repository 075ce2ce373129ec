-- ===== src/TcpServer/Tests.antt =====
-- Instances of the theorems: a client sends two messages, and another connection comes between.
use node_messager.Base.{
  ℕ, ◌≡◌, refl, inl, inr, true, false, none, some, List, [], ◌∷◌, ◌++◌, map, arith, nat_eq,
}
use mathlib.Core.List.{Perm}
use mathlib.Core.List.Perm
use node_messager.Dto.{Message, msg, Codec}
use node_messager.Fixtures.Scanners.{short, split, split-IsScanner, plain-IsLine}
use node_messager.Fixtures.{s1, s2, message}
use node_messager.MsgStore.{Entry, Store, done}
use node_messager.Base.Scanning.{IsLine}
use node_messager.TcpClient.{send_all, send, connected}
use node_messager.Hub.{registered, unregistered, arrived, run}
use node_messager.Hub
use node_messager.TcpServer.{accepted, failed, serve, set_dispatcher, new, accept_loop}
use node_messager.TcpServer.Delivery.{Merges, done as both_done, left, right, send_all-run}

-- A line is the content of a message.
abbrev json : Codec (List ℕ) (Message (List ℕ))
json = record { marshal = λ m. m.content; unmarshal = λ s. some (message msg s2 s) }

-- Stores without a file never write an entry.
abbrev entries : Codec (List ℕ) (Entry (List ℕ))
entries = record { marshal = λ e. []; unmarshal = λ l. none }

abbrev hello : Message (List ℕ)
hello = message msg s2 (104 ∷ 105 ∷ [])

abbrev bye : Message (List ℕ)
bye = message msg s2 (98 ∷ [])

hello-IsLine : IsLine short (104 ∷ 105 ∷ [])
hello-IsLine =
    plain-IsLine (104 ∷ 105 ∷ [])
      (λ b i e. elim i [ inl p ↦ omega arith | inr (inl p) ↦ omega arith | inr (inr z) ↦ z ])
      (λ i. elim i [ inl p ↦ omega arith | inr (inl p) ↦ omega arith | inr (inr z) ↦ z ])

bye-IsLine : IsLine short (98 ∷ [])
bye-IsLine =
    plain-IsLine (98 ∷ []) (λ b i e. elim i [ inl p ↦ omega arith | inr z ↦ z ])
      (λ i. elim i [ inl p ↦ omega arith | inr z ↦ z ])

abbrev others : List (Hub.Event (List ℕ))
others = registered 8 ∷ arrived (120 ∷ []) "t" done ∷ []

abbrev events : List (Hub.Event (List ℕ))
events =
    registered 7
    ∷ registered 8
    ∷ arrived (104 ∷ 105 ∷ []) "t" done
    ∷ arrived (120 ∷ []) "t" done
    ∷ arrived (98 ∷ []) "t" done
    ∷ unregistered 7
    ∷ []

mixed :
    Merges
      (registered 7
        ∷ arrived (104 ∷ 105 ∷ []) "t" done
        ∷ arrived (98 ∷ []) "t" done
        ∷ unregistered 7
        ∷ [])
      others
      events
mixed = left _ (right _ (left _ (right _ (left _ (left _ both_done)))))

read :
    Hub.serve json entries short "t" done 7
      (split (send_all (map json.marshal (hello ∷ bye ∷ [])) (connected 1)).written)
    ≡ registered 7
      ∷ arrived (104 ∷ 105 ∷ []) "t" done
      ∷ arrived (98 ∷ []) "t" done
      ∷ unregistered 7
      ∷ []
unfolding Hub.serve Hub.read_pump send_all send
read = refl

abbrev store : Store (List ℕ)
store = record { entries = []; max = 50; file = none }

abbrev stranger : Message (List ℕ)
stranger = message msg s2 (120 ∷ [])

-- The goroutines run in another order than they are started in.
out_of_order :
    Perm
      (map Hub.dispatch (stranger ∷ hello ∷ bye ∷ []))
      (run json entries events
        (serve json entries
          (accepted 7 ∷ failed true ∷ [])
          (set_dispatcher json entries (new json entries s1 (some store)))).0).1
unfolding run Hub.step Hub.new serve set_dispatcher new
out_of_order = Perm.swap (Hub.dispatch hello) (Hub.dispatch stranger) (Hub.dispatch bye ∷ [])

send_all-run_example :
    (rest : List (Message (List ℕ))) × Perm
      (stranger ∷ hello ∷ bye ∷ [])
      ((hello ∷ bye ∷ []) ++ rest)
send_all-run_example =
    send_all-run json entries short split "t" done 7 1 s1 (some store)
      (accepted 7 ∷ failed true ∷ []) (hello ∷ bye ∷ []) others events (stranger ∷ hello ∷ bye ∷ [])
      split-IsScanner (refl, (refl, tt)) (hello-IsLine, (bye-IsLine, tt)) (tt, (tt, tt))
      (rw read mixed) out_of_order

-- An error of `Accept` does not end the loop before the context is cancelled.
loop_run :
    accept_loop (accepted 1 ∷ failed false ∷ accepted 2 ∷ failed true ∷ accepted 3 ∷ [])
    ≡ (1 ∷ 2 ∷ [], true)
unfolding accept_loop
loop_run = refl
