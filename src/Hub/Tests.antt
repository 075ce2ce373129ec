-- ===== src/Hub/Tests.antt =====
-- Instances of the theorems: two connections, one of which sends a line that is too long.
use node_messager.Base.{
  ℕ, String, ◌≡◌, refl, inl, inr, true, not, none, some, List, [], ◌∷◌, ◌++◌, map, ◌==◌, string_eq,
  arith, if◌then◌else◌, In,
}
use mathlib.Core.List.{Perm}
use mathlib.Core.List.Perm
use node_messager.Dto.{Message, msg, Codec}
use node_messager.Fixtures.{s2, message}
use node_messager.MsgStore.{Entry, Store, done}
use node_messager.Hub.{
  Event, step, dispatch, stopped, registered, unregistered, arrived, new, run, serve, read_pump,
}
use node_messager.Hub.Heard.{heard, windowed, run-heard}
use node_messager.Hub.Closes.{AreDistinct, AreNew, run-AreDistinct}

-- A line is a message, unless it is "?".
abbrev json : Codec String (Message String)
json = record {
  marshal = λ m. m.content;
  unmarshal = λ s. if s == "?" then none else some (message msg s2 s);
}

-- Stores without a file never write an entry.
abbrev entries : Codec (List ℕ) (Entry String)
entries = record { marshal = λ e. []; unmarshal = λ l. none }

abbrev first : List (Event String)
first = serve json entries (λ s. not (s == "long")) "t" done 7 ("hola" ∷ "?" ∷ "long" ∷ "lost" ∷ [])

abbrev events : List (Event String)
events = first ++ registered 8 ∷ arrived "adios" "t" done ∷ stopped ∷ unregistered 8 ∷ []

first_events :
    first ≡ registered 7 ∷ arrived "hola" "t" done ∷ arrived "?" "t" done ∷ unregistered 7 ∷ []
unfolding serve read_pump
first_events = refl

abbrev store : Store String
store = record { entries = []; max = 50; file = none }

-- The second message is dispatched, the first one's goroutine has not run yet.
out_of_order :
    Perm
      (map dispatch ((message msg s2 "adios" ∷ []) ++ message msg s2 "hola" ∷ []))
      (run json entries events (new json entries (some store) true)).1
unfolding run step new serve read_pump
out_of_order = Perm.swap (dispatch (message msg s2 "hola")) (dispatch (message msg s2 "adios")) []

run-heard_example :
    Perm
      ((message msg s2 "adios" ∷ []) ++ message msg s2 "hola" ∷ [])
      (map (λ c. c.msg) (heard json entries events))
    × ((run json entries events (new json entries (some store) true)).0.store
        ≡ windowed entries (heard json entries events) (some store))
run-heard_example =
    run-heard json entries events (some store) true (message msg s2 "adios" ∷ [])
      (message msg s2 "hola" ∷ []) out_of_order

heard_both :
    map (λ c. c.msg) (heard json entries events)
    ≡ message msg s2 "hola" ∷ message msg s2 "adios" ∷ []
unfolding heard serve read_pump
heard_both = refl

events-AreNew : AreNew [] events
unfolding serve read_pump
events-AreNew = (λ i. i, (λ i. elim i [ inl e ↦ omega arith | inr z ↦ z ], tt))

run-AreDistinct_example :
    AreDistinct (run json entries events (new json entries (some store) true)).0.shut
    × ((c : ℕ)
        → In c (run json entries events (new json entries (some store) true)).0.clients
        → In c (run json entries events (new json entries (some store) true)).0.shut
        → ⊥)
run-AreDistinct_example = run-AreDistinct json entries events (some store) true events-AreNew
