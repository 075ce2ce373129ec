-- ===== src/Cluster/Tokens.antt =====
-- Where the right to enter can be: in a message, in a channel, or with a request that is inside.
use node_messager.Base.{
  ℕ, zero, suc, ◌+◌, ◌≤◌, String, ◌≡◌, refl, ◌≢◌, ◌⊎◌, inl, inr, Option, none, some, List, [], ◌∷◌,
  ◌++◌, map, arith, append_assoc, ap, length, length-append, All, In,
}
use node_messager.Dto.{MessageType, lock_grant, lock_deny, lock_release}
use node_messager.Mutex.{Effect, signal, send}
use node_messager.Mutex.Permits.{IsExclusive}
use node_messager.Cluster.{Packet, pick, beside}

abbrev pub sent_token : MessageType → String → List String
sent_token lock_grant id = id ∷ []
sent_token lock_release id = id ∷ []
sent_token _ id = []

abbrev pub token : Packet → List String
token p = sent_token p.out.type p.out.payload.request_id

-- All that the elements of a list give.
abbrev pub gather : {A : Type 0} → (A → List String) → List A → List String
gather f [] = []
gather f (x ∷ xs) = f x ++ gather f xs

abbrev pub name_of : ℕ × String → List String
name_of x = x.1 ∷ []

abbrev pub signalled : List Effect → List String
signalled [] = []
signalled (signal id ∷ xs) = id ∷ signalled xs
signalled (_ ∷ xs) = signalled xs

abbrev pub tag : ℕ → List String → List (ℕ × String)
tag n = map (λ id. (n, id))

-- `full` has the channels with a value.
abbrev pub tokens : List Packet → List (ℕ × String) → List (ℕ × String) → List String
tokens flight full inside = gather token flight ++ (gather name_of full ++ gather name_of inside)

-- At most one, and it is the holder's.
abbrev pub Fits : String → String → Type 0
Fits holder id = (id ≡ holder) × (holder ≢ "")

abbrev pub IsSole : List String → String → Type 0
IsSole xs holder = (length xs ≤ 1) × All (Fits holder) xs

pub sole : (xs : List String) (holder : String) → IsExclusive xs holder → IsSole xs holder
sole xs holder (inl q) = rw q (omega arith, tt)
sole xs holder (inr (q, h)) = rw q (omega arith, ((refl, h), tt))

pub exclusive : (xs : List String) (holder : String) → IsSole xs holder → IsExclusive xs holder
exclusive [] holder h = inl refl
exclusive (x ∷ []) holder h = inr (rw h.1.0.0 refl, h.1.0.1)
exclusive (x ∷ (y ∷ xs)) holder h = absurd (omega (arith, h.0))

module _ {A : Type 0} (P : A → Type 0) where
  pub All-++ : (xs ys : List A) → All P xs → All P ys → All P (xs ++ ys)
  All-++ [] ys h k = k
  All-++ (x ∷ xs) ys h k = (h.0, All-++ xs ys h.1 k)

  pub All-left : (xs ys : List A) → All P (xs ++ ys) → All P xs
  All-left [] ys h = tt
  All-left (x ∷ xs) ys h = (h.0, All-left xs ys h.1)

  pub All-right : (xs ys : List A) → All P (xs ++ ys) → All P ys
  All-right [] ys h = h
  All-right (x ∷ xs) ys h = All-right xs ys h.1

module _ {A : Type 0} (f : A → List String) where
  -- The element that is picked and the others have together what all have.
  abbrev pub Picked : List A → Option (A × List A) → Type 1
  Picked xs none = Unit
  Picked xs (some (x, rest)) =
      (length (gather f xs) ≡ length (f x) + length (gather f rest))
      × ((P : String → Type 0) → All P (gather f xs) → All P (f x) × All P (gather f rest))
      × ((P : A → Type 0) → All P xs → P x × All P rest)

  beside-Picked :
      (x : A) (xs : List A) (o : Option (A × List A)) → Picked xs o → Picked (x ∷ xs) (beside x o)
  beside-Picked x xs none h = tt
  beside-Picked x xs (some (y, rest)) (l, a, e) = (
    omega (arith, l, length-append (f x) (gather f xs), length-append (f x) (gather f rest)),
    λ P k.
        let b = a P (All-right P (f x) (gather f xs) k) in
        (b.0, All-++ P (f x) (gather f rest) (All-left P (f x) (gather f xs) k) b.1),
    λ P k. let b = e P k.1 in (b.0, (k.0, b.1)),
  )

  pub pick-Picked : (i : ℕ) (xs : List A) → Picked xs (pick i xs)
  unfolding pick
  pick-Picked i [] = tt
  pick-Picked zero (x ∷ xs) = (
    length-append (f x) (gather f xs),
    λ P k. (All-left P (f x) (gather f xs) k, All-right P (f x) (gather f xs) k),
    λ P k. k,
  )
  pick-Picked (suc i) (x ∷ xs) = beside-Picked x xs (pick i xs) (pick-Picked i xs)

-- What a step of a node adds: the tokens of its messages, channels and entries.
abbrev pub IsAnswer : Effect → Type 0
IsAnswer (send o) = (o.type ≡ lock_grant) ⊎ (o.type ≡ lock_deny)
IsAnswer _ = Unit

pub gather-append :
    {A : Type 0} (f : A → List String) (xs ys : List A)
    → gather f (xs ++ ys) ≡ gather f xs ++ gather f ys
gather-append f [] ys = refl
gather-append f (x ∷ xs) ys = rw (gather-append f xs ys, append_assoc) refl

pub gather-tag : (n : ℕ) (xs : List String) → gather name_of (tag n xs) ≡ xs
gather-tag n [] = refl
gather-tag n (x ∷ xs) = ap (λ ys. x ∷ ys) (gather-tag n xs)

module _ {A : Type 0} (a : A) where
  pub In-left : (xs ys : List A) → In a xs → In a (xs ++ ys)
  In-left [] ys i = absurd i
  In-left (x ∷ xs) ys (inl e) = inl e
  In-left (x ∷ xs) ys (inr i) = inr (In-left xs ys i)

  pub In-right : (xs ys : List A) → In a ys → In a (xs ++ ys)
  In-right [] ys i = i
  In-right (x ∷ xs) ys i = inr (In-right xs ys i)

pub In-tag : (n : ℕ) (id : String) (xs : List String) → In id xs → In (n, id) (tag n xs)
In-tag n id [] i = absurd i
In-tag n id (x ∷ xs) (inl e) = inl (ap (λ y. (n, y)) e)
In-tag n id (x ∷ xs) (inr i) = inr (In-tag n id xs i)

-- New tokens among the old ones.
pub mixed :
    (holder : String) (a b d a' b' d' ps : List String)
    → length a' + (length b' + length d') ≡ length ps
    → ((P : String → Type 0) → All P ps → All P a' × All P b' × All P d')
    → IsSole ((a ++ (b ++ d)) ++ ps) holder
    → IsSole ((a' ++ a) ++ ((b' ++ b) ++ (d' ++ d))) holder
mixed holder a b d a' b' d' ps l s (few, h) =
    let F = Fits holder in
    let new = s F (All-right F (a ++ (b ++ d)) ps h) in
    let old = All-left F (a ++ (b ++ d)) ps h in
    let rest = All-right F a (b ++ d) old in
    (
      omega (
        arith,
        l,
        few,
        length-append (a ++ (b ++ d)) ps,
        length-append a (b ++ d),
        length-append b d,
        length-append (a' ++ a) ((b' ++ b) ++ (d' ++ d)),
        length-append (b' ++ b) (d' ++ d),
        length-append a' a,
        length-append b' b,
        length-append d' d,
      ),
      All-++ F (a' ++ a) ((b' ++ b) ++ (d' ++ d)) (All-++ F a' a new.0 (All-left F a (b ++ d) old))
          (All-++ F (b' ++ b) (d' ++ d) (All-++ F b' b new.1 (All-left F b d rest))
            (All-++ F d' d new.2 (All-right F b d rest))),
    )

-- A token and the others.
pub IsSole-left :
    (xs ys : List String) (holder : String) → IsSole (xs ++ ys) holder → IsSole xs holder
IsSole-left xs ys holder (few, h) =
    (omega (arith, few, length-append xs ys), All-left (Fits holder) xs ys h)

pub alone :
    (xs : List String) (id holder : String)
    → IsSole (xs ++ id ∷ []) holder
    → (xs ≡ []) × (id ≡ holder) × (holder ≢ "")
alone [] id holder h = (refl, h.1.0.0, h.1.0.1)
alone (x ∷ xs) id holder h = absurd (omega (arith, h.0, length-append xs (id ∷ [])))

module _ (flight : List Packet) (full inside : List (ℕ × String)) (holder : String) where
  pub flight-Picked :
      (p : Packet) (rest : List Packet)
      → Picked token flight (some (p, rest))
      → IsSole (tokens flight full inside) holder
      → IsSole (tokens rest full inside ++ token p) holder
  flight-Picked p rest k (few, h) =
      let F = Fits holder in
      let others = gather name_of full ++ gather name_of inside in
      let s = k.1 F (All-left F (gather token flight) others h) in
      (
        omega (
          arith,
          few,
          k.0,
          length-append (gather token flight) others,
          length-append (gather token rest ++ others) (token p),
          length-append (gather token rest) others,
        ),
        All-++ F (gather token rest ++ others) (token p)
            (All-++ F (gather token rest) others s.1 (All-right F (gather token flight) others h))
            s.0,
      )

  pub inside-Picked :
      (x : ℕ × String) (rest : List (ℕ × String))
      → Picked name_of inside (some (x, rest))
      → IsSole (tokens flight full inside) holder
      → IsSole (tokens flight full rest ++ x.1 ∷ []) holder
  inside-Picked x rest k (few, h) =
      let F = Fits holder in
      let a = gather token flight in
      let b = gather name_of full in
      let d = gather name_of inside in
      let d' = gather name_of rest in
      let r = All-right F a (b ++ d) h in
      let s = k.1 F (All-right F b d r) in
      (
        omega (
          arith,
          few,
          k.0,
          length-append a (b ++ d),
          length-append b d,
          length-append b d',
          length-append a (b ++ d'),
          length-append (a ++ (b ++ d')) (x.1 ∷ []),
        ),
        All-++ F (a ++ (b ++ d')) (x.1 ∷ [])
            (All-++ F a (b ++ d') (All-left F a (b ++ d) h) (All-++ F b d' (All-left F b d r) s.1))
            s.0,
      )

-- A full channel has the token: nothing else has one.
pub full-alone :
    (x : ℕ × String) (a : List String) (full : List (ℕ × String)) (d : List String)
    (holder : String)
    → In x full
    → IsSole (a ++ (gather name_of full ++ d)) holder
    → (a ≡ []) × (full ≡ x ∷ []) × (d ≡ []) × (x.1 ≡ holder) × (holder ≢ "")
full-alone x a [] d holder i h = absurd i
full-alone x (z ∷ a) (y ∷ ys) d holder i h =
    absurd (omega (arith, h.0, length-append a (y.1 ∷ (gather name_of ys ++ d))))
full-alone x [] (y ∷ (z ∷ ys)) d holder i h = absurd (omega (arith, h.0))
full-alone x [] (y ∷ []) (z ∷ d) holder i h = absurd (omega (arith, h.0))
full-alone x [] (y ∷ []) [] holder (inr i) h = absurd i
full-alone x [] (y ∷ []) [] holder (inl e) h = (refl, rw e refl, refl, rw e h.1.0.0, h.1.0.1)
