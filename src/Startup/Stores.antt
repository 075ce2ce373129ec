-- ===== src/Startup/Stores.antt =====
-- Every node has a store.
use node_messager.Base.{
  ℕ, ◌≡◌, refl, inl, inr, Bool-cases, Option, none, some, Option-cases, List, [], ◌∷◌, ◌==◌, nat_eq,
  ==_refl, arith, if◌then◌else◌, In,
}
use node_messager.Base.Dict.{Dict, lookup, insert, lookup-insert}
use node_messager.Dto.{Node, Codec}
use node_messager.MsgStore.{Entry, Store}
use node_messager.MsgStore
use node_messager.Config.{Config}
use node_messager.Startup.{Disk, is_local, on_disk, put_store, add_stores, add_host, all_stores}

-- A store stands under this id.
abbrev pub Has : {A : Type 0} → ℕ → Dict ℕ A → Type 0
Has {A} id stores = (s : A) × (lookup id stores ≡ some s)

Has-insert : {A : Type 0} (id k : ℕ) (v : A) (m : Dict ℕ A) → Has id m → Has id (insert k v m)
Has-insert id k v m (s, e) = elim (Bool-cases (k == id)) [
  | inl t ↦ (v, rw (lookup-insert, t) refl)
  | inr f ↦ (s, rw (lookup-insert, f) e)
]

Has-insert_self : {A : Type 0} (k : ℕ) (v : A) (m : Dict ℕ A) → Has k (insert k v m)
Has-insert_self k v m = (v, rw (lookup-insert, ==_refl k) refl)

module _ {C : Type 0} (json : Codec (List ℕ) (Entry C)) (lines_of : List ℕ → List (List ℕ))
    (disk : Node → Disk) where
  put_store_lem :
      (n : Node) (o : Option (Store C)) (m out : Dict ℕ (Store C))
      → put_store json lines_of disk n o m ≡ some out
      → Has n.id out × ((id : ℕ) → Has id m → Has id out)
  put_store_lem n none m out e = absurd (cc e)
  put_store_lem n (some s) m out e =
      let q : insert n.id s m ≡ out = ground (arith, e) in
      rw (← q) (Has-insert_self n.id s m, λ id h. Has-insert id n.id s m h)

  add_stores_lem :
      (host : Option Node) (ns : List Node) (m out : Dict ℕ (Store C))
      → add_stores json lines_of disk host ns m ≡ some out
      → ((n : Node) → In n ns → Has n.id out) × ((id : ℕ) → Has id m → Has id out)
  unfolding add_stores
  add_stores_lem host [] m out e =
      let q : m ≡ out = ground (arith, e) in rw (← q) (λ n i. absurd i, λ id h. h)
  add_stores_lem host (x ∷ xs) m out e =
      let o =
        if is_local host x then on_disk json lines_of disk x else some (MsgStore.new json 50) in
      elim (Option-cases (put_store json lines_of disk x o m)) [
        | inl z ↦
            let bad : ◌≡◌ {A = Option (Dict ℕ (Store C))} none (some out) =
              rw (z, add_stores) at e in
            absurd (cc bad)
        | inr (more, z) ↦
            let put = put_store_lem x o m more z in
            let rest = add_stores_lem host xs more out (rw (z, add_stores) at e) in
            (
              λ n i. elim i [ inl q ↦ rw q (rest.1 x.id put.0) | inr j ↦ rest.0 n j ],
              λ id h. rest.1 id (put.1 id h),
            )
      ]

  add_host_lem :
      (host : Option Node) (m out : Dict ℕ (Store C))
      → add_host json lines_of disk host m ≡ some out
      → ((h : Node) → host ≡ some h → Has h.id out) × ((id : ℕ) → Has id m → Has id out)
  add_host_lem none m out e =
      let q : m ≡ out = ground (arith, e) in rw (← q) (λ h z. absurd (cc z), λ id k. k)
  add_host_lem (some h) m out e = elim (Option-cases (lookup h.id m)) [
    | inr (s, z) ↦
        let q : m ≡ out = ground (arith, e, z) in
        rw (← q) (λ n w. let same : h ≡ n = ground (arith, w) in rw (← same) (s, z), λ id k. k)
    | inl z ↦
        let put = put_store_lem h (on_disk json lines_of disk h) m out (rw (z, add_host) at e) in
        (λ n w. let same : h ≡ n = ground (arith, w) in rw (← same) put.0, put.1)
  ]

  -- If the stores can all be opened, every configured node has one, and so has the host, whether it
  -- is configured or not.
  pub all_stores-Has :
      (c : Config) (stores : Dict ℕ (Store C))
      → all_stores json lines_of disk c ≡ some stores
      → ((n : Node) → In n c.nodes → Has n.id stores)
        × ((h : Node) → c.host_node ≡ some h → Has h.id stores)
  unfolding all_stores
  all_stores-Has c stores e =
      elim (Option-cases (add_stores json lines_of disk c.host_node c.nodes [])) [
        | inl z ↦
            let bad : ◌≡◌ {A = Option (Dict ℕ (Store C))} none (some stores) =
              rw (z, all_stores) at e in
            absurd (cc bad)
        | inr (m, z) ↦
            let one = add_stores_lem c.host_node c.nodes [] m z in
            let two = add_host_lem c.host_node m stores (rw (z, all_stores) at e) in
            (λ n i. two.1 n.id (one.0 n i), two.0)
      ]
