-- ===== src/Cli/Turns.antt =====
-- What each command leaves of the input, and what it does.
use node_messager.Base.{
  String, ◌≡◌, ◌≢◌, true, Option, none, some, List, [], ◌∷◌, ◌==◌, string_eq, nat_eq, length, All,
  ℤ,
}
use node_messager.Dto.{Node}
use node_messager.Service.Rows.{Table, tickets_table}
use node_messager.Cli.{
  Setup, Words, Services, Command, Event, showed_messages, showed_log, showed_rows, no_rows,
  no_open_tickets, no_service, prompt, pick_node,
}
use node_messager.Cli.Commands.{
  Turn, row_count, open_rows, chosen, others, with_text, with_number, with_ticket, send_from,
  send_to, send_text, broadcast_from, broadcast_text, show, raise_by, raise_for, close_one,
  close_ticket, show_rows, add_user, add_engineer, add_device, add_typed, origin, run_send,
  run_broadcast, run_show, run_raise, run_close, run_list, run_add_user, run_add_engineer,
  run_add_device, served, run_command,
}
use node_messager.Cli.Proper.{
  IsProper, IsTail, here, after, prompt-IsTail, pick_node_lem, others_lem, chosen-In, open_rows_lem,
  with_node_lem, with_text_lem, with_number_lem, with_rows_lem, with_ticket_lem, if_lem,
}

module _ {S : Type 0} (words : Words) (setup : Setup) (services : Services S) where
  -- A turn that leaves an end of the input and does only what is proper.
  unfoldable pub Fits : List String → Turn S → Type 0
  Fits input t = IsTail t.0.0 input × All (IsProper setup) t.1

  fits :
      (input : List String) (t : Turn S)
      → IsTail t.0.0 input
      → All (IsProper setup) t.1
      → Fits input t
  unfolding Fits
  fits input t a b = (a, b)

  loosen : (left input : List String) (t : Turn S) → IsTail left input → Fits left t → Fits input t
  unfolding Fits
  loosen left input t h (a, b) = (after a h, b)

  origin_lem :
      (o : Option Node) (input : List String) → IsTail (origin words setup services o input).1 input
  origin_lem (some h) input = here input
  origin_lem none input = (pick_node_lem words setup.nodes input).0

  run_send_lem : (input : List String) (s : S) → Fits input (run_send words setup services input s)
  unfolding run_send
  run_send_lem input s =
      let a = origin_lem setup.host input in
      let c = prompt-IsTail in
      with_node_lem (Fits input) (origin words setup services setup.host input) s
        (send_from words setup services s) (fits _ _ a tt)
        λ from e.
          let input1 = (origin words setup services setup.host input).1 in
          let b = pick_node_lem words (others from setup.nodes) input1 in
          with_node_lem (Fits input) (pick_node words (others from setup.nodes) input1) s
            (send_to words setup services s from) (fits _ _ (after b.0 a) tt)
            λ to f.
              let input2 = (pick_node words (others from setup.nodes) input1).1 in
              with_text_lem (Fits input) (prompt input2) s
                (send_text words setup services s from to)
                (fits _ _ (after (c input2) (after b.0 a)) (tt, tt))
                λ h. fits _ _ (after (c input2) (after b.0 a)) (
                  (
                    h,
                    (others_lem from setup.nodes to (b.1 to f)).0,
                    (others_lem from setup.nodes to (b.1 to f)).1,
                  ),
                  tt,
                )

  run_broadcast_lem :
      (input : List String) (s : S) → Fits input (run_broadcast words setup services input s)
  unfolding run_broadcast
  run_broadcast_lem input s =
      let a = origin_lem setup.host input in
      with_node_lem (Fits input) (origin words setup services setup.host input) s
        (broadcast_from words setup services s) (fits _ _ a tt)
        λ from e.
          let input1 = (origin words setup services setup.host input).1 in
          let c = prompt-IsTail input1 in
          with_text_lem (Fits input) (prompt input1) s (broadcast_text words setup services s from)
            (fits _ _ (after c a) (tt, tt))
            λ h. fits _ _ (after c a) ((h, others_lem from setup.nodes), tt)

  run_show_lem :
      (event : Node → Event)
      → ((n : Node) → IsProper setup (event n))
      → (input : List String) (s : S) → Fits input (run_show words setup services event input s)
  unfolding run_show
  run_show_lem event p input s =
      let a = origin_lem setup.host input in
      with_node_lem (Fits input) (origin words setup services setup.host input) s
        (show words setup services event s) (fits _ _ a tt) λ n e. fits _ _ a (p n, tt)

  -- A command that needs the service.
  served_lem :
      (command : List String → S → Turn S) (input : List String) (s : S)
      → (setup.has_service ≡ true → Fits input (command input s))
      → Fits input (served words setup services command input s)
  served_lem command input s h =
      if_lem (Fits input) setup.has_service (command input s) ((input, s), no_service ∷ []) h
        λ e. fits _ _ (here _) (tt, tt)

  -- A prompt for a text, after which there is one event.
  text_lem :
      (input : List String) (s : S) (k : String → List String → Turn S)
      → ((prompt input).0 ≢ "" → Fits (prompt input).1 (k (prompt input).0 (prompt input).1))
      → Fits input (with_text (prompt input) s k)
  text_lem input s k h =
      let a = prompt-IsTail input in
      with_text_lem (Fits input) (prompt input) s k (fits _ _ a (tt, tt))
        λ ne. loosen _ _ _ a (h ne)

  number_lem :
      (input : List String) (s : S) (k : ℤ → List String → Turn S)
      → ((n : ℤ) → Fits (prompt input).1 (k n (prompt input).1))
      → Fits input (with_number words.atoi (prompt input) s k)
  number_lem input s k h =
      let a = prompt-IsTail input in
      with_number_lem (Fits input) words.atoi (prompt input) s k (fits _ _ a (tt, tt))
        λ n. loosen _ _ _ a (h n)

  run_raise_lem :
      (input : List String) (s : S)
      → setup.has_service ≡ true
      → Fits input (run_raise words setup services input s)
  unfolding run_raise
  run_raise_lem input s v = number_lem input s (raise_by words setup services s) λ n.
      number_lem (prompt input).1 s (raise_for words setup services s n)
        λ k. fits _ _ (here _) (v, tt)

  run_close_lem :
      (input : List String) (s : S)
      → setup.has_service ≡ true
      → Fits input (run_close words setup services input s)
  unfolding run_close
  run_close_lem input s v =
      let r = services.list_all tickets_table s in
      let left = (prompt input).1 in
      with_rows_lem (Fits input) input r (close_one words setup services input)
        (λ x. fits _ _ (here _) (v, tt))
        λ rows.
          let o = chosen (words.atoi (prompt input).0) (open_rows rows) in
          if_lem (Fits input) (length (open_rows rows) == 0) ((input, r.0), no_open_tickets ∷ [])
            (with_ticket o left r.0 (close_ticket words setup services rows left r.0))
            (λ e. fits _ _ (here _) (v, tt))
            λ e.
              with_ticket_lem (Fits input) o left r.0
                (close_ticket words setup services rows left r.0)
                (fits _ _ (prompt-IsTail input) (tt, tt))
                λ t f.
                  let i =
                    open_rows_lem rows t
                      (chosen-In (words.atoi (prompt input).0) (open_rows rows) t f) in
                  fits _ _ (prompt-IsTail input) ((v, i.0, i.1), tt)

  run_list_lem :
      (t : Table) (input : List String) (s : S)
      → setup.has_service ≡ true
      → Fits input (run_list words setup services t input s)
  unfolding run_list
  run_list_lem t input s v =
      let r = services.list_all t s in
      with_rows_lem (Fits input) input r (show_rows words setup services t input)
        (λ x. fits _ _ (here _) (v, tt))
        λ rows.
          if_lem (Fits input) (row_count rows == 0) ((input, r.0), no_rows t ∷ [])
            ((input, r.0), showed_rows rows ∷ []) (λ e. fits _ _ (here _) (v, tt))
            λ e. fits _ _ (here _) (v, tt)

  run_add_user_lem :
      (input : List String) (s : S)
      → setup.has_service ≡ true
      → Fits input (run_add_user words setup services input s)
  unfolding run_add_user
  run_add_user_lem input s v =
      text_lem input s (add_user words setup services s) λ h. fits _ _ (here _) ((v, h), tt)

  run_add_engineer_lem :
      (input : List String) (s : S)
      → setup.has_service ≡ true
      → Fits input (run_add_engineer words setup services input s)
  unfolding run_add_engineer
  run_add_engineer_lem input s v =
      text_lem input s (add_engineer words setup services s) λ h. fits _ _ (here _) ((v, h), tt)

  run_add_device_lem :
      (input : List String) (s : S)
      → setup.has_service ≡ true
      → Fits input (run_add_device words setup services input s)
  unfolding run_add_device
  run_add_device_lem input s v = text_lem input s (add_device words setup services s) λ h.
      text_lem (prompt input).1 s (add_typed words setup services s (prompt input).0)
        λ g. fits _ _ (here _) ((v, h, g), tt)

  pub run_command-Fits :
      (c : Command) (input : List String) (s : S)
      → Fits input (run_command words setup services c input s)
  unfolding run_command
  run_command-Fits Command.send input s = run_send_lem input s
  run_command-Fits Command.broadcast input s = run_broadcast_lem input s
  run_command-Fits Command.messages input s = run_show_lem showed_messages (λ n. tt) input s
  run_command-Fits Command.logs input s = run_show_lem showed_log (λ n. tt) input s
  run_command-Fits Command.list_nodes input s = fits _ _ (here _) (tt, tt)
  run_command-Fits Command.raise input s =
      served_lem (run_raise words setup services) input s (run_raise_lem input s)
  run_command-Fits Command.close input s =
      served_lem (run_close words setup services) input s (run_close_lem input s)
  run_command-Fits Command.add_user input s =
      served_lem (run_add_user words setup services) input s (run_add_user_lem input s)
  run_command-Fits Command.add_engineer input s =
      served_lem (run_add_engineer words setup services) input s (run_add_engineer_lem input s)
  run_command-Fits Command.add_device input s =
      served_lem (run_add_device words setup services) input s (run_add_device_lem input s)
  run_command-Fits (Command.list t) input s =
      served_lem (run_list words setup services t) input s (run_list_lem t input s)
  run_command-Fits Command.quit input s = fits _ _ (here _) tt
  run_command-Fits Command.unknown input s = fits _ _ (here _) (tt, tt)
