-- ===== src/Hub/Closes.antt =====
-- A channel is closed at most once: Go panics at the second time.
use node_messager.Base.{
  ℕ, String, ◌≡◌, sym, subst, ◌≢◌, ◌⊎◌, inl, inr, Bool, true, not, Bool-cases, Option, none, some,
  List, [], ◌∷◌, ◌++◌, ◌==◌, nat_eq, eq_of_==, ==_refl, arith, In, In-of_select,
}
use node_messager.Dto.{Message, Codec}
use node_messager.MsgStore.{Entry, Store, Io}
use node_messager.Hub.{
  Hub, Event, stopped, registered, unregistered, arrived, has, without, include, new, take,
  unregister, step, run,
}

abbrev pub AreDistinct : List ℕ → Type 0
AreDistinct [] = Unit
AreDistinct (x ∷ xs) = (In x xs → ⊥) × AreDistinct xs

-- Every connection has a client of its own, which none of `seen` is.
abbrev pub AreNew : {Wire : Type 0} → List ℕ → List (Event Wire) → Type 0
AreNew seen [] = Unit
AreNew seen (registered c ∷ evs) = (In c seen → ⊥) × AreNew (c ∷ seen) evs
AreNew seen (_ ∷ evs) = AreNew seen evs

-- The clients are among those seen, and none of them is shut.
record IsTidy {C : Type 0} (seen : List ℕ) (h : Hub C) : Type 0 where
  open_seen : (c : ℕ) → In c h.clients → In c seen
  shut_seen : (c : ℕ) → In c h.shut → In c seen
  apart : (c : ℕ) → In c h.clients → In c h.shut → ⊥
  once : AreDistinct h.shut

In-append_one : (c d : ℕ) (xs : List ℕ) → In c (xs ++ d ∷ []) → In c xs ⊎ (c ≡ d)
In-append_one c d [] (inl e) = inr e
In-append_one c d [] (inr z) = absurd z
In-append_one c d (x ∷ xs) (inl e) = inl (inl e)
In-append_one c d (x ∷ xs) (inr i) = elim (In-append_one c d xs i) [
  | inl j ↦ inl (inr j)
  | inr e ↦ inr e
]

append_one-AreDistinct :
    (c : ℕ) (xs : List ℕ) → AreDistinct xs → (In c xs → ⊥) → AreDistinct (xs ++ c ∷ [])
append_one-AreDistinct c [] h n = (λ z. z, tt)
append_one-AreDistinct c (x ∷ xs) h n = (
  λ i. elim (In-append_one x c xs i) [ inl j ↦ h.0 j | inr e ↦ n (inl (sym e)) ],
  append_one-AreDistinct c xs h.1 (λ i. n (inr i)),
)

In-of_include : (c d : ℕ) (ds : List ℕ) → In d (include c ds) → (d ≡ c) ⊎ In d ds
In-of_include c d ds i = elim (Bool-cases (has c ds)) [
  | inl t ↦ inr (rw t at i)
  | inr f ↦ rw f at i
]

In-of_without : (c d : ℕ) (ds : List ℕ) → In d (without c ds) → In d ds × (d ≢ c)
In-of_without c d ds i =
    let r = In-of_select (λ (x : ℕ). not (x == c)) ds i in
    (r.0, λ e. ground (arith, r.1, e, ==_refl c))

has-In : (c : ℕ) (ds : List ℕ) → has c ds ≡ true → In c ds
has-In c [] e = cc
has-In c (d ∷ ds) e = elim (Bool-cases (d == c)) [
  | inl t ↦ inl (sym (eq_of_== d c t))
  | inr f ↦ inr (has-In c ds (rw f at e))
]

module _ {Wire C : Type 0} (json : Codec Wire (Message C))
    (entries : Codec (List ℕ) (Entry C)) where
  registered-IsTidy :
      (c : ℕ) (seen : List ℕ) (h : Hub C)
      → (In c seen → ⊥)
      → IsTidy seen h
      → IsTidy (c ∷ seen) (record h { clients = include c h.clients })
  registered-IsTidy c seen h n t = record {
    open_seen = λ d i. elim (In-of_include c d h.clients i) [
      | inl e ↦ inl e
      | inr j ↦ inr (t.open_seen d j)
    ];
    shut_seen = λ d i. inr (t.shut_seen d i);
    apart = λ d i k. elim (In-of_include c d h.clients i) [
      | inl e ↦ n (subst (λ (x : ℕ). In x seen) e (t.shut_seen d k))
      | inr j ↦ t.apart d j k
    ];
    once = t.once;
  }

  shut-IsTidy :
      (c : ℕ) (seen : List ℕ) (h : Hub C)
      → In c h.clients
      → IsTidy seen h
      → IsTidy seen (record h { clients = without c h.clients; shut = h.shut ++ c ∷ [] })
  shut-IsTidy c seen h o t = record {
    open_seen = λ d i. t.open_seen d (In-of_without c d h.clients i).0;
    shut_seen = λ d i. elim (In-append_one d c h.shut i) [
      | inl j ↦ t.shut_seen d j
      | inr e ↦ subst (λ (x : ℕ). In x seen) (sym e) (t.open_seen c o)
    ];
    apart = λ d i k. elim (In-append_one d c h.shut k) [
      | inl j ↦ t.apart d (In-of_without c d h.clients i).0 j
      | inr e ↦ (In-of_without c d h.clients i).1 e
    ];
    once = append_one-AreDistinct c h.shut t.once (t.apart c o);
  }

  unregister-IsTidy :
      (c : ℕ) (seen : List ℕ) (h : Hub C)
      → IsTidy seen h
      → IsTidy seen (unregister json entries c h)
  unregister-IsTidy c seen h t = elim (Bool-cases (has c h.clients)) [
    | inl e ↦ rw e (shut-IsTidy c seen h (has-In c h.clients e) t)
    | inr f ↦ rw f t
  ]

  take-IsTidy :
      (now : String) (io : Io) (o : Option (Message C)) (seen : List ℕ) (h : Hub C)
      → IsTidy seen h
      → IsTidy seen (take json entries now io o h).0
  take-IsTidy now io none seen h t = t
  take-IsTidy now io (some m) seen h t = record {
    open_seen = t.open_seen;
    shut_seen = t.shut_seen;
    apart = t.apart;
    once = t.once;
  }

  abbrev Ends : Hub C → Type 0
  Ends h = AreDistinct h.shut × ((c : ℕ) → In c h.clients → In c h.shut → ⊥)

  run_lem :
      (evs : List (Event Wire)) (seen : List ℕ) (h : Hub C)
      → AreNew seen evs
      → IsTidy seen h
      → Ends (run json entries evs h).0
  unfolding run step
  run_lem [] seen h n t = (t.once, t.apart)
  run_lem (stopped ∷ evs) seen h n t = (t.once, t.apart)
  run_lem (registered c ∷ evs) seen h n t =
      run_lem evs (c ∷ seen) _ n.1 (registered-IsTidy c seen h n.0 t)
  run_lem (unregistered c ∷ evs) seen h n t = run_lem evs seen _ n (unregister-IsTidy c seen h t)
  run_lem (arrived line now io ∷ evs) seen h n t =
      run_lem evs seen _ n (take-IsTidy now io (json.unmarshal line) seen h t)

  -- In any run of a new hub no channel is closed twice, and no client that is registered has a
  -- closed channel, as long as each connection is registered with a client of its own, however
  -- often clients are unregistered.
  pub run-AreDistinct :
      (evs : List (Event Wire)) (store : Option (Store C)) (d : Bool)
      → AreNew [] evs
      → AreDistinct (run json entries evs (new json entries store d)).0.shut
        × ((c : ℕ)
            → In c (run json entries evs (new json entries store d)).0.clients
            → In c (run json entries evs (new json entries store d)).0.shut
            → ⊥)
  unfolding new
  run-AreDistinct evs store d n =
      run_lem evs [] (new json entries store d) n
        (record { open_seen = λ c i. i; shut_seen = λ c i. i; apart = λ c i k. i; once = tt })
