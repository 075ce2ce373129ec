-- ===== src/Hub.antt =====
-- pkg/hub/hub.go: the hub of the incoming connections. A client is a number; the channels that `Run`
-- selects from are one list of events, in the order in which it takes them.
pub mod Heard
pub mod Closes
mod Tests
use node_messager.Base.{
  ℕ, String, Bool, true, false, not, Option, none, some, List, [], ◌∷◌, ◌++◌, map, ◌==◌, nat_eq,
  if◌then◌else◌, select,
}
use node_messager.Dto.{Message, Codec}
use node_messager.MsgStore.{Entry, received, Store, Io, save}

-- `shut` are the clients whose channel `send` was closed, in that order.
pub record Hub (C : Type 0) : Type 0 where
  pub clients : List ℕ
  pub shut : List ℕ
  pub store : Option (Store C)
  pub has_dispatcher : Bool

-- A line comes with the time and the file system's answer of its `Save`.
pub data Event (Wire : Type 0) : Type 0 where
  stopped : Event Wire
  registered unregistered : ℕ → Event Wire
  arrived : Wire → String → Io → Event Wire

-- What a `go` statement of `Run` starts. When it runs is the scheduler's choice, so that the order
-- of such statements is not the order in which the dispatcher is given the messages.
pub data Goroutine (C : Type 0) : Type 0 where
  dispatch : Message C → Goroutine C

abbrev pub has : ℕ → List ℕ → Bool
has c [] = false
has c (d ∷ ds) = let rest = has c ds in if d == c then true else rest

abbrev pub without : ℕ → List ℕ → List ℕ
without c = select (λ d. not (d == c))

-- `h.clients[c] = true`
abbrev pub include : ℕ → List ℕ → List ℕ
include c ds = if has c ds then ds else c ∷ ds

module _ {Wire C : Type 0} (json : Codec Wire (Message C))
    (entries : Codec (List ℕ) (Entry C)) where
  unfoldable pub new : Option (Store C) → Bool → Hub C
  new store has_dispatcher = record {
    clients = [];
    shut = [];
    store = store;
    has_dispatcher = has_dispatcher;
  }

  abbrev pub keep : String → Io → Message C → Option (Store C) → Option (Store C)
  keep now io m none = none
  keep now io m (some s) = some (save entries now m received io s).0

  -- The case of a line: what is saved, and the goroutine that is started.
  abbrev pub take : String → Io → Option (Message C) → Hub C → Hub C × List (Goroutine C)
  take now io none h = (h, [])
  take now io (some m) h =
      (record h { store = keep now io m h.store }, if h.has_dispatcher then dispatch m ∷ [] else [])

  abbrev pub unregister : ℕ → Hub C → Hub C
  unregister c h =
      if has c h.clients
      then record h { clients = without c h.clients; shut = h.shut ++ c ∷ [] }
      else h

  unfoldable pub step : Event Wire → Hub C → Hub C × List (Goroutine C)
  step stopped h = (h, [])
  step (registered c) h = (record h { clients = include c h.clients }, [])
  step (unregistered c) h = (unregister c h, [])
  step (arrived line now io) h = take now io (json.unmarshal line) h

  abbrev pub is_stop : Event Wire → Bool
  is_stop stopped = true
  is_stop _ = false

  -- `Run`, with the goroutines that it starts.
  unfoldable pub run : List (Event Wire) → Hub C → Hub C × List (Goroutine C)
  unfolding step
  run [] h = (h, [])
  run (ev ∷ evs) h = elim (is_stop ev) [
    | true ↦ (h, [])
    | false ↦ let first = step ev h in let rest = run evs first.0 in (rest.0, first.1 ++ rest.1)
  ]

  -- `readPump`: the lines up to one that is too long for the scanner, then the end.
  unfoldable pub read_pump : (Wire → Bool) → String → Io → ℕ → List Wire → List (Event Wire)
  read_pump fits now io c [] = unregistered c ∷ []
  read_pump fits now io c (line ∷ lines) = elim (fits line) [
    | true ↦ arrived line now io ∷ read_pump fits now io c lines
    | false ↦ unregistered c ∷ []
  ]

  -- `Serve`
  unfoldable pub serve : (Wire → Bool) → String → Io → ℕ → List Wire → List (Event Wire)
  unfolding read_pump
  serve fits now io c lines = registered c ∷ read_pump fits now io c lines

-- `writePump`: the lines of the channel `send`, each with the error of its write, if any. The first
-- error ends it.
unfoldable pub write_pump : {Wire : Type 0} → List (Wire × Option String) → List Wire
write_pump [] = []
write_pump ((line, none) ∷ lines) = line ∷ write_pump lines
write_pump ((line, some x) ∷ lines) = []
