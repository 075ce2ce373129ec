-- ===== src/Db/Tables.antt =====
-- Laws of the two kinds of statement that write.
use node_messager.Base.{
  ℕ, ◌≡◌, refl, inl, inr, true, false, ◌||◌, List, [], ◌∷◌, ◌++◌, arith, ◌==◌, nat_eq, eq_of_==,
  ==_of_eq, ==_refl, ne_of_==, Bool-cases, All,
}
use node_messager.Db.{has_key, insert_or_ignore, update_where}

-- No two rows of a table share a key.
abbrev pub HasKeys : {A : Type 0} → (A → ℕ) → List A → Type 0
HasKeys key [] = Unit
HasKeys key (x ∷ xs) = (has_key key (key x) xs ≡ false) × HasKeys key xs

module _ {A : Type 0} (key : A → ℕ) where
  has_key-append :
      (k : ℕ) (xs : List A) (a : A)
      → has_key key k (xs ++ a ∷ []) ≡ (has_key key k xs || key a == k)
  has_key-append k [] a = ground arith
  has_key-append k (x ∷ xs) a = ground (arith, has_key-append k xs a)

  HasKeys-append :
      (xs : List A) (a : A)
      → HasKeys key xs
      → has_key key (key a) xs ≡ false
      → HasKeys key (xs ++ a ∷ [])
  HasKeys-append [] a h k = (refl, tt)
  HasKeys-append (x ∷ xs) a h k = (
    ground (arith, has_key-append (key x) xs a, eq_of_== (key a) (key x), ==_of_eq (key x) (key a)),
    HasKeys-append xs a h.1 (ground arith),
  )

  pub insert_or_ignore-HasKeys :
      (a : A) (xs : List A) → HasKeys key xs → HasKeys key (insert_or_ignore key a xs)
  unfolding insert_or_ignore
  insert_or_ignore-HasKeys a xs h = elim (Bool-cases (has_key key (key a) xs)) [
    | inl t ↦ rw t h
    | inr f ↦ rw f (HasKeys-append xs a h f)
  ]

  -- The key is there afterwards, and no key is lost.
  pub has_key-insert_or_ignore :
      (k : ℕ) (a : A) (xs : List A)
      → has_key key k (insert_or_ignore key a xs) ≡ (has_key key k xs || key a == k)
  unfolding insert_or_ignore
  has_key-insert_or_ignore k a xs = elim (Bool-cases (has_key key (key a) xs)) [
    | inl t ↦ rw t (ground (arith, eq_of_== (key a) k))
    | inr f ↦ rw f (has_key-append k xs a)
  ]

  -- A second insertion of the same row is ignored.
  pub insert_or_ignore_twice :
      (a : A) (xs : List A)
      → insert_or_ignore key a (insert_or_ignore key a xs) ≡ insert_or_ignore key a xs
  insert_or_ignore_twice a xs =
      let q : has_key key (key a) (insert_or_ignore key a xs) ≡ true =
        ground (arith, has_key-insert_or_ignore (key a) a xs, ==_refl (key a)) in
      again (insert_or_ignore key a xs) q
    where
      again : (ys : List A) → has_key key (key a) ys ≡ true → insert_or_ignore key a ys ≡ ys
      again ys q = unfold insert_or_ignore in rw q

  pub update_where_twice :
      (k : ℕ) (f : A → A) (xs : List A)
      → ((x : A) → f (f x) ≡ f x)
      → ((x : A) → key (f x) ≡ key x)
      → update_where key k f (update_where key k f xs) ≡ update_where key k f xs
  unfolding update_where
  update_where_twice k f [] h g = refl
  update_where_twice k f (x ∷ xs) h g = ground (arith, h x, g x, update_where_twice k f xs h g)

  pub has_key-update_where :
      (j k : ℕ) (f : A → A) (xs : List A)
      → ((x : A) → key (f x) ≡ key x)
      → has_key key j (update_where key k f xs) ≡ has_key key j xs
  unfolding update_where
  has_key-update_where j k f [] g = refl
  has_key-update_where j k f (x ∷ xs) g = ground (arith, g x, has_key-update_where j k f xs g)

  pub update_where-HasKeys :
      (k : ℕ) (f : A → A) (xs : List A)
      → ((x : A) → key (f x) ≡ key x)
      → HasKeys key xs
      → HasKeys key (update_where key k f xs)
  unfolding update_where
  update_where-HasKeys k f [] g h = tt
  update_where-HasKeys k f (x ∷ xs) g h = (
    ground (arith, g x, has_key-update_where (key x) k f xs g),
    update_where-HasKeys k f xs g h.1,
  )

  pub All-insert_or_ignore :
      (P : A → Type 0) (a : A) (xs : List A) → P a → All P xs → All P (insert_or_ignore key a xs)
  unfolding insert_or_ignore
  All-insert_or_ignore P a xs p h = elim (Bool-cases (has_key key (key a) xs)) [
    | inl t ↦ rw t h
    | inr f ↦ rw f (snoc xs h)
  ]
    where
      snoc : (ys : List A) → All P ys → All P (ys ++ a ∷ [])
      snoc = elim [ [] ↦ λ _. (p, tt) | y ∷ (ys → ih) ↦ λ k. (k.0, ih k.1) ]

  pub All-update_where :
      (P : A → Type 0) (k : ℕ) (f : A → A) (xs : List A)
      → ((x : A) → P x → P (f x))
      → All P xs
      → All P (update_where key k f xs)
  unfolding update_where
  All-update_where P k f [] g h = tt
  All-update_where P k f (x ∷ xs) g h = elim (Bool-cases (key x == k)) [
    | inl t ↦ rw t (g x h.0, All-update_where P k f xs g h.1)
    | inr n ↦ rw n (h.0, All-update_where P k f xs g h.1)
  ]

  -- After an update every row with the key is an updated one.
  pub update_where-sets :
      (P : A → Type 0) (k : ℕ) (f : A → A) (xs : List A)
      → ((x : A) → P (f x))
      → All (λ x. key x ≡ k → P x) (update_where key k f xs)
  unfolding update_where
  update_where-sets P k f [] h = tt
  update_where-sets P k f (x ∷ xs) h = elim (Bool-cases (key x == k)) [
    | inl t ↦ rw t ((λ _. h x), update_where-sets P k f xs h)
    | inr n ↦ rw n ((λ e. absurd (ne_of_== (key x) k n e)), update_where-sets P k f xs h)
  ]
