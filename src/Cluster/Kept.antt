-- ===== src/Cluster/Kept.antt =====
-- What each kind of move leaves of the invariant.
use node_messager.Base.{
  ℕ, String, ◌≡◌, refl, ◌≢◌, inl, inr, Bool, true, false, if◌then◌else◌, Option, none, some, List,
  ◌∷◌, arith, string_eq, nat_eq, Bool-cases,
}
use node_messager.Base.Dict.{lookup}
use node_messager.Dto.{Codec, LockPayload}
use node_messager.NodeState.{State, is_master, flag}
use node_messager.Mutex.{
  granted, timed_out, cancelled, request_from, acquire_remote, release_remote, register_local,
  end_local, end_remote,
}
use node_messager.Mutex.Events.{step}
use node_messager.Cluster.{
  Packet, Cluster, finish, act, happens, begin, goes_on, without, unwait, registered, may_end,
  asked, ended, lost, leave, advance,
}
use node_messager.Cluster.Tokens.{
  name_of, tokens, token, IsSole-left, Picked, flight-Picked, inside-Picked,
}
use node_messager.Cluster.Channels.{insert-false}
use node_messager.Cluster.Invariant.{IsGuarded, IsAddressed}
use node_messager.Cluster.Steps.{Agrees, Guarded, master_is, asked_here, released_here}
use node_messager.Cluster.Aside.{quiet_keeps, asked_master, gave_master, took_grant}

module _ {Raw : Type 0} (json : Codec Raw LockPayload) (view : ℕ → State) (m : ℕ)
    (a : Agrees view m) where
  -- Who waits where does not matter to the invariant.
  pub elsewhere :
      (b w : List (ℕ × String)) (c : Cluster)
      → Guarded m c
      → Guarded m (record c { begun = b; waiting = w })
  elsewhere b w c (full, g) = (
    full,
    record { queued = g.queued; only = g.only; addressed = g.addressed; opened = g.opened },
  )

  pub begin_keeps :
      (n : ℕ) (id : String) (c : Cluster) → Guarded m c → Guarded m (begin json view n id c)
  begin_keeps n id c g = elim (Bool-cases (goes_on json view n id (c.engines n))) [
    | inl t ↦ rw t (elsewhere ((n, id) ∷ c.begun) c.waiting c g)
    | inr f ↦ rw f g
  ]

  pub asked_keeps :
      (n : ℕ) (id : String) (c : Cluster)
      → id ≢ ""
      → Guarded m c
      → Guarded m (happens json view n (asked json view n id) c)
  unfolding step acquire_remote request_from
  asked_keeps n id c h g = elim (Bool-cases (is_master (view n))) [
    | inl t ↦ rw t (asked_here view m a n id c (master_is view m a n t) h g)
    | inr f ↦ let (peer, e, q) = a.found n in rw (f, q) (asked_master view m a n id peer c e h g)
  ]

  -- What a request that ends without the lock leaves.
  pub given_up :
      (n : ℕ) (id : String) (c : Cluster)
      → Guarded m c
      → Guarded m (happens json view n (ended json view n id timed_out) c)
        × Guarded m (happens json view n (ended json view n id cancelled) c)
  unfolding step end_local end_remote
  given_up n id c g = elim (Bool-cases (is_master (view n))) [
    | inl t ↦ rw t (
      quiet_keeps view m a n _ c ((refl, refl), λ k q. q) g,
      quiet_keeps view m a n _ c ((refl, refl), λ k q. q) g,
    )
    | inr f ↦ rw f (
      quiet_keeps view m a n _ c ((refl, refl), λ k q. q) g,
      quiet_keeps view m a n _ c ((refl, refl), λ k q. q) g,
    )
  ]

  full_of : (o : Option Bool) → flag o ≡ true → o ≡ some true
  full_of none e = cc
  full_of (some b) e = rw e refl

  pub granted_keeps :
      (n : ℕ) (id : String) (c : Cluster)
      → Guarded m c
      → Guarded m (advance json view (finish n id granted) c)
  unfolding advance step end_local end_remote act
  granted_keeps n id c g = elim (Bool-cases (may_end json view n id granted c)) [
    | inr f ↦ rw f g
    | inl t ↦
        let full : flag (lookup id (c.engines n).chans) ≡ true = ground (arith, t) in
        let took =
          took_grant view m a n id (unwait json view n id c) (full_of _ full)
            (elsewhere c.begun (without json view n id c.waiting) c g) in
        elim (Bool-cases (is_master (view n))) [ inl y ↦ rw (t, y) took | inr y ↦ rw (t, y) took ]
  ]

  pub registered_keeps :
      (n : ℕ) (id : String) (c : Cluster) → Guarded m c → Guarded m (registered json view n id c)
  unfolding step register_local
  registered_keeps n id c g = elim (Bool-cases (is_master (view n))) [
    | inl t ↦
        rw t (quiet_keeps view m a n _ c ((refl, refl), λ k q. insert-false id (c.engines n) k q) g)
    | inr f ↦ rw f g
  ]

  pub if_keeps :
      (b : Bool) (c d : Cluster) → Guarded m c → Guarded m d → Guarded m (if b then c else d)
  if_keeps true c d g h = g
  if_keeps false c d g h = h

  pub given_back :
      (o : Option ((ℕ × String) × List (ℕ × String))) (c : Cluster)
      → Picked name_of c.inside o
      → Guarded m c
      → Guarded m (leave json view o c)
  unfolding step release_remote
  given_back none c k g = g
  given_back (some ((n, id), rest)) c k (full, g) =
      let c' : Cluster = record c { inside = rest } in
      let s = inside-Picked c.flight full c.inside _ (n, id) rest k g.only in
      elim (Bool-cases (is_master (view n))) [
        | inl t ↦ rw t (
            released_here view m a n id c' full (master_is view m a n t) g.queued g.addressed
              g.opened s)
        | inr f ↦
            let (peer, e, q) = a.found n in
            rw (f, q) (gave_master view m a n id peer c' full e g.queued g.addressed g.opened s)
      ]

  pub without_packet :
      (c : Cluster) (p : Packet) (rest : List Packet) (full : List (ℕ × String))
      → Picked token c.flight (some (p, rest))
      → IsGuarded m c full
      → IsGuarded m (record c { flight = rest }) full
  without_packet c p rest full k g = record {
    queued = g.queued;
    only =
        IsSole-left (tokens rest full c.inside) (token p) _
          (flight-Picked c.flight full c.inside _ p rest k g.only);
    addressed = (k.2 (IsAddressed m) g.addressed).1;
    opened = g.opened;
  }

  pub lost_keeps :
      (o : Option (Packet × List Packet)) (c : Cluster)
      → Picked token c.flight o
      → Guarded m c
      → Guarded m (lost json view o c)
  lost_keeps none c k g = g
  lost_keeps (some (p, rest)) c k (full, g) = (full, without_packet c p rest full k g)
