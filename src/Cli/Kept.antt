-- ===== src/Cli/Kept.antt =====
-- What every call of a session keeps, the session keeps.
use node_messager.Base.{
  ℕ, zero, suc, String, ◌≡◌, inl, inr, Bool, Bool-cases, Option, none, some, List, [], ◌∷◌, ◌==◌,
  string_eq, nat_eq, length, ℤ,
}
use node_messager.Dto.{Node}
use node_messager.Service.Rows.{Table, tickets_table}
use node_messager.Cli.{
  Setup, Words, Services, Command, Event, no_open_tickets, no_service, no_rows, showed_rows, prompt,
  pick_node, read_command,
}
use node_messager.Cli.Commands.{
  Turn, row_count, open_rows, chosen, others, with_ticket, send_to, send_text, broadcast_text,
  raise_by, raise_for, close_one, close_ticket, show_rows, add_user, add_engineer, add_device,
  add_typed, run_send, run_broadcast, run_show, run_raise, run_close, run_list, run_add_user,
  run_add_engineer, run_add_device, served, run_command,
}
use node_messager.Cli.Loop.{is_quit, after, run_for, run}
use node_messager.Cli.Proper.{
  with_node_lem, with_text_lem, with_number_lem, with_rows_lem, with_ticket_lem, if_lem,
}

-- Every call on behalf of `host` keeps `P`.
pub record AreKept {S : Type 0} (P : S → Type 0) (host : Node) (services : Services S)
    : Type 0 where
  pub send : (to : Node) (text : String) (s : S) → P s → P (services.send_msg host to text s).0
  pub broadcast :
      (targets : List Node) (text : String) (s : S)
      → P s
      → P (services.broadcast host targets text s).0
  pub raise : (u d : ℤ) (s : S) → P s → P (services.raise_ticket u d s).0
  pub close : (t e : ℕ) (s : S) → P s → P (services.close_ticket t e s).0
  pub list : (t : Table) (s : S) → P s → P (services.list_all t s).0
  pub add_user : (nombre : String) (s : S) → P s → P (services.add_usuario nombre s).0
  pub add_engineer : (nombre : String) (s : S) → P s → P (services.add_ingeniero nombre s).0
  pub add_device : (nombre tipo : String) (s : S) → P s → P (services.add_device nombre tipo s).0

-- The menu of one host.
abbrev pub hosted : List Node → Node → Bool → Setup
hosted nodes host has_service = record {
  nodes = nodes;
  host = some host;
  has_service = has_service;
}

module _ {S : Type 0} (P : S → Type 0) (words : Words) (nodes : List Node) (host : Node)
    (has : Bool) (services : Services S) (k : AreKept P host services) where
  abbrev menu : Setup
  menu = hosted nodes host has

  abbrev After : Turn S → Type 0
  After t = P t.0.1

  run_close-After :
      (input : List String) (s : S) → P s → After (run_close words menu services input s)
  unfolding run_close
  run_close-After input s p =
      let r = services.list_all tickets_table s in
      let q = k.list tickets_table s p in
      with_rows_lem After input r (close_one words menu services input) (λ x. q)
        λ rows.
          let o = chosen (words.atoi (prompt input).0) (open_rows rows) in
          if_lem After (length (open_rows rows) == 0) ((input, r.0), no_open_tickets ∷ [])
            (with_ticket o (prompt input).1 r.0
              (close_ticket words menu services rows (prompt input).1 r.0))
            (λ e. q)
            λ e.
              with_ticket_lem After o (prompt input).1 r.0
                (close_ticket words menu services rows (prompt input).1 r.0) q
                λ t f. k.close t.id t.id_ingeniero r.0 q

  run_list-After :
      (t : Table) (input : List String) (s : S)
      → P s
      → After (run_list words menu services t input s)
  unfolding run_list
  run_list-After t input s p =
      let r = services.list_all t s in
      let q = k.list t s p in
      with_rows_lem After input r (show_rows words menu services t input) (λ x. q)
        λ rows.
          if_lem After (row_count rows == 0) ((input, r.0), no_rows t ∷ [])
            ((input, r.0), showed_rows rows ∷ []) (λ e. q) λ e. q

  run_send-After :
      (input : List String) (s : S) → P s → After (run_send words menu services input s)
  unfolding run_send
  run_send-After input s p =
      let picked = pick_node words (others host nodes) input in
      with_node_lem After picked s (send_to words menu services s host) p λ to f.
        with_text_lem After (prompt picked.1) s (send_text words menu services s host to) p
          λ ne. k.send to (prompt picked.1).0 s p

  run_raise-After :
      (input : List String) (s : S) → P s → After (run_raise words menu services input s)
  unfolding run_raise
  run_raise-After input s p =
      with_number_lem After words.atoi (prompt input) s (raise_by words menu services s) p λ u.
        with_number_lem After words.atoi (prompt (prompt input).1) s
          (raise_for words menu services s u) p λ d. k.raise u d s p

  run_add_device-After :
      (input : List String) (s : S) → P s → After (run_add_device words menu services input s)
  unfolding run_add_device
  run_add_device-After input s p =
      with_text_lem After (prompt input) s (add_device words menu services s) p λ h.
        with_text_lem After (prompt (prompt input).1) s
          (add_typed words menu services s (prompt input).0) p
          λ g. k.add_device (prompt input).0 (prompt (prompt input).1).0 s p

  served-After :
      (command : List String → S → Turn S) (input : List String) (s : S)
      → P s
      → After (command input s)
      → After (served words menu services command input s)
  served-After command input s p h =
      if_lem After has (command input s) ((input, s), no_service ∷ []) (λ e. h) λ e. p

  run_command-After :
      (c : Command) (input : List String) (s : S)
      → P s
      → After (run_command words menu services c input s)
  unfolding run_command run_broadcast run_show run_add_user run_add_engineer
  run_command-After Command.send input s p = run_send-After input s p
  run_command-After Command.broadcast input s p =
      with_text_lem After (prompt input) s (broadcast_text words menu services s host) p
        λ ne. k.broadcast (others host nodes) (prompt input).0 s p
  run_command-After Command.messages input s p = p
  run_command-After Command.logs input s p = p
  run_command-After Command.list_nodes input s p = p
  run_command-After Command.raise input s p =
      served-After (run_raise words menu services) input s p (run_raise-After input s p)
  run_command-After Command.close input s p =
      served-After (run_close words menu services) input s p (run_close-After input s p)
  run_command-After Command.add_user input s p =
      served-After (run_add_user words menu services) input s p (
        with_text_lem After (prompt input) s (add_user words menu services s) p
          λ h. k.add_user (prompt input).0 s p)
  run_command-After Command.add_engineer input s p =
      served-After (run_add_engineer words menu services) input s p (
        with_text_lem After (prompt input) s (add_engineer words menu services s) p
          λ h. k.add_engineer (prompt input).0 s p)
  run_command-After Command.add_device input s p =
      served-After (run_add_device words menu services) input s p (run_add_device-After input s p)
  run_command-After (Command.list t) input s p =
      served-After (run_list words menu services t) input s p (run_list-After t input s p)
  run_command-After Command.quit input s p = p
  run_command-After Command.unknown input s p = p

  abbrev Then : Option (Turn S) → Type 0
  Then none = Unit
  Then (some t) = After t

  after-Then :
      (out : List Event) (o : Option (Turn S)) → Then o → Then (after words menu services out o)
  after-Then out none h = tt
  after-Then out (some t) h = h

  run_for-Then :
      (rounds : ℕ) (input : List String) (s : S)
      → P s
      → Then (run_for words menu services rounds input s)
  unfolding run_for
  run_for-Then zero input s p = tt
  run_for-Then (suc rounds) input s p = elim (Bool-cases ((prompt input).0 == "")) [
    | inl t ↦ rw (t, run_for) p
    | inr f ↦ elim (Bool-cases (is_quit (read_command (prompt input).0))) [
      | inl t ↦ rw (f, t, run_for) p
      | inr g ↦
          let c = read_command (prompt input).0 in
          let turn = run_command words menu services c (prompt input).1 s in
          rw (f, g, run_for)
            (after-Then turn.1 (run_for words menu services rounds turn.0.0 turn.0.1)
              (run_for-Then rounds turn.0.0 turn.0.1 (run_command-After c (prompt input).1 s p)))
    ]
  ]

  -- What every call keeps holds at the end of a session.
  pub run_keeps :
      (input : List String) (s : S) (turn : Turn S)
      → P s
      → run words menu services input s ≡ some turn
      → P turn.0.1
  unfolding run
  run_keeps input s turn p e = let h = run_for-Then (suc (length input)) input s p in rw e at h
