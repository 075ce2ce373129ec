-- ===== src/Cluster/Moves.antt =====
-- Mutual exclusion in the whole cluster.
use node_messager.Base.{
  ℕ, ◌≤◌, String, ◌≡◌, refl, ◌≢◌, Option, none, some, List, [], ◌∷◌, ◌++◌, arith, string_eq, nat_eq,
  length, length-append, All,
}
use node_messager.Base.Dict.{lookup}
use node_messager.Dto.{
  MessageType, Codec, IsFaithful, LockPayload, lock_request, lock_release, lock_grant,
}
use node_messager.NodeState.{State}
use node_messager.Mutex.{
  granted, timed_out, cancelled, new, unsent_remote, handle_lock_request, handle_lock_grant,
  handle_lock_deny, handle_lock_release,
}
use node_messager.Mutex.Events.{step}
use node_messager.Cluster.{
  Packet, Cluster, start, Move, ask, register, unsent, finish, give_back, lose, deliver, pick, act,
  begin, stop, receive, message_of, delivered, advance, run,
}
use node_messager.Cluster.Tokens.{
  gather, name_of, tokens, token, IsSole, Picked, pick-Picked, flight-Picked, All-right, sent_token,
  Fits,
}
use node_messager.Cluster.Invariant.{IsGuarded, IsAddressed, IsFor}
use node_messager.Cluster.Steps.{Agrees, Guarded, requested_here, released_here}
use node_messager.Cluster.Aside.{quiet_keeps, granted_to}
use node_messager.Cluster.Kept.{
  elsewhere, begin_keeps, asked_keeps, given_up, granted_keeps, registered_keeps, if_keeps,
  given_back, without_packet, lost_keeps,
}

-- The requests that are asked for have an id.
abbrev pub IsNamedMove : Move → Type 0
IsNamedMove (ask n id) = id ≢ ""
IsNamedMove _ = Unit

named_by :
    (xs : List (ℕ × String)) (holder : String)
    → IsSole (gather name_of xs) holder
    → (length xs ≤ 1) × All (λ x. x.1 ≡ holder) xs
named_by [] holder h = (omega arith, tt)
named_by (x ∷ []) holder h = (omega arith, (h.1.0.0, tt))
named_by (x ∷ (y ∷ xs)) holder h = absurd (omega (arith, h.0))

inside_sole :
    (flight : List Packet) (full inside : List (ℕ × String)) (holder : String)
    → IsSole (tokens flight full inside) holder
    → (length inside ≤ 1) × All (λ x. x.1 ≡ holder) inside
inside_sole flight full inside holder (few, h) =
    let a = gather token flight in
    let b = gather name_of full in
    let d = gather name_of inside in
    named_by inside holder (
      omega (arith, few, length-append a (b ++ d), length-append b d),
      All-right (Fits holder) b d (All-right (Fits holder) a (b ++ d) h),
    )

module _ {Raw : Type 0} (json : Codec Raw LockPayload) (view : ℕ → State) (m : ℕ)
    (a : Agrees view m) where
  module _ (faithful : IsFaithful json) where
    received :
        (ty : MessageType) (p : Packet) (uuid at : String) (c : Cluster) (full : List (ℕ × String))
        → IsFor m p.out.to p.out.payload.request_id ty
        → IsSole
            (tokens c.flight full c.inside ++ sent_token ty p.out.payload.request_id)
            (c.engines m).holder
        → IsGuarded m c full
        → Guarded m (
            act view p.out.to.id
              (receive json view ty
                (view p.out.to.id)
                (message_of json view p uuid at)
                (c.engines p.out.to.id))
              c)
    unfolding step handle_lock_request handle_lock_grant handle_lock_deny handle_lock_release
    received lock_request p uuid at c full (e, h) s g =
        rw (faithful p.out.payload)
          (requested_here view m a p.out.to.id p.from_name p.out.payload c e h (full, g))
    received lock_grant p uuid at c full d s g =
        rw (faithful p.out.payload)
          (granted_to view m a p.out.to.id p.out.payload c full g.queued g.addressed g.opened s)
    received lock_release p uuid at c full e s g = rw (faithful p.out.payload) (
        released_here view m a p.out.to.id p.out.payload.request_id c full e g.queued g.addressed
          g.opened s)
    received _ p uuid at c full d s g =
        quiet_keeps view m a p.out.to.id (c.engines p.out.to.id) c ((refl, refl), λ k q. q)
          (full, g)

    delivered_keeps :
        (uuid at : String) (o : Option (Packet × List Packet)) (c : Cluster)
        → Picked token c.flight o
        → Guarded m c
        → Guarded m (delivered json view uuid at o c)
    delivered_keeps uuid at none c k g = g
    delivered_keeps uuid at (some (p, rest)) c k (full, g) =
        received p.out.type p uuid at (record c { flight = rest }) full
          ((k.2 (IsAddressed m) g.addressed).0)
          (flight-Picked c.flight full c.inside _ p rest k g.only)
          (without_packet json view m a c p rest full k g)

    advance-Guarded :
        (mv : Move) (c : Cluster)
        → IsNamedMove mv
        → Guarded m c
        → Guarded m (advance json view mv c)
    unfolding advance step unsent_remote
    advance-Guarded (ask n id) c h g =
        asked_keeps json view m a n id (begin json view n id c) h
          (begin_keeps json view m a n id c g)
    advance-Guarded (register n id) c h g =
        if_keeps json view m a _ _ _
          (registered_keeps json view m a n id _ (elsewhere json view m a _ _ c g)) g
    advance-Guarded (unsent n id) c h g =
        if_keeps json view m a _ _ _
          (quiet_keeps view m a n _ (stop json view n id c) ((refl, refl), λ k q. q)
            (elsewhere json view m a _ _ c g))
          g
    advance-Guarded (finish n id granted) c h g = granted_keeps json view m a n id c g
    advance-Guarded (finish n id timed_out) c h g =
        if_keeps json view m a _ _ _
          ((given_up json view m a n id _ (elsewhere json view m a _ _ c g)).0) g
    advance-Guarded (finish n id cancelled) c h g =
        if_keeps json view m a _ _ _
          ((given_up json view m a n id _ (elsewhere json view m a _ _ c g)).1) g
    advance-Guarded (give_back i) c h g =
        given_back json view m a (pick i c.inside) c (pick-Picked name_of i c.inside) g
    advance-Guarded (lose i) c h g =
        lost_keeps json view m a (pick i c.flight) c (pick-Picked token i c.flight) g
    advance-Guarded (deliver i uuid at) c h g =
        delivered_keeps uuid at (pick i c.flight) c (pick-Picked token i c.flight) g

    run-Guarded :
        (mvs : List Move) (c : Cluster)
        → All IsNamedMove mvs
        → Guarded m c
        → Guarded m (run json view mvs c)
    unfolding run
    run-Guarded [] c h g = g
    run-Guarded (mv ∷ mvs) c h g =
        run-Guarded mvs (advance json view mv c) h.1 (advance-Guarded mv c h.0 g)

    start-Guarded : Guarded m start
    unfolding start new lookup
    start-Guarded = (
      [],
      record {
        queued = record { idle = λ _. refl; named = tt };
        only = (omega arith, tt);
        addressed = tt;
        opened = λ n id q. cc;
      },
    )

    -- Mutual exclusion in a cluster whose nodes agree on the master: from the start, after any
    -- requests, messages that arrive in any order or are lost, timeouts and releases, at most one
    -- request of all nodes is between the return of its `Acquire` and its release, and it is the
    -- one that the master has as the holder. The requests have ids, and JSON decodes what it
    -- encodes.
    pub inside-le-one :
        (mvs : List Move)
        → All IsNamedMove mvs
        → (length (run json view mvs start).inside ≤ 1)
          × All
              (λ x. x.1 ≡ ((run json view mvs start).engines m).holder)
              (run json view mvs start).inside
    inside-le-one mvs h =
        let (full, g) = run-Guarded mvs start h start-Guarded in
        let c = run json view mvs start in
        inside_sole c.flight full c.inside (c.engines m).holder g.only
