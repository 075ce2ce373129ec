-- ===== src/Consensus/Apart.antt =====
-- Lists of nodes whose ids are distinct.
use node_messager.Base.{
  ℕ, ◌≡◌, refl, inl, inr, Bool, true, false, not, ◌&&◌, List, [], ◌∷◌, ◌==◌, nat_eq, string_eq,
  ==_of_eq, eq_of_==, Bool-cases, if◌then◌else◌, select, arith,
}
use node_messager.Dto.{Node}
use node_messager.NodeState.{State, is_alive}

abbrev pub has_id : ℕ → List Node → Bool
has_id k [] = false
has_id k (p ∷ ps) = let rest = has_id k ps in if k == p.id then true else rest

abbrev pub AreApart : List Node → Type 0
AreApart [] = Unit
AreApart (p ∷ ps) = (has_id p.id ps ≡ false) × AreApart ps

pub has_id-select :
    (k : ℕ) (f : Node → Bool) (ps : List Node)
    → has_id k ps ≡ false
    → has_id k (select f ps) ≡ false
has_id-select k f [] h = refl
has_id-select k f (p ∷ ps) h = elim (Bool-cases (k == p.id)) [
  | inl t ↦ absurd (cc (rw t at h))
  | inr b ↦
      let ih = has_id-select k f ps (rw b at h) in
      elim (Bool-cases (f p)) [ inl y ↦ rw (y, b) ih | inr y ↦ rw y ih ]
]

pub AreApart-select : (f : Node → Bool) (ps : List Node) → AreApart ps → AreApart (select f ps)
AreApart-select f [] h = tt
AreApart-select f (p ∷ ps) h = elim (Bool-cases (f p)) [
  | inl y ↦ rw y (has_id-select p.id f ps h.0, AreApart-select f ps h.1)
  | inr y ↦ rw y (AreApart-select f ps h.1)
]

-- The peers of a node are others.
pub has_id-peers :
    (st : State) (ps : List Node)
    → has_id st.self.id (select (λ p. not (p.id == st.self.id) && is_alive st p.id) ps) ≡ false
has_id-peers st [] = refl
has_id-peers st (p ∷ ps) = ground (
  arith,
  has_id-peers st ps,
  eq_of_== p.id st.self.id,
  eq_of_== st.self.id p.id,
  ==_of_eq p.id st.self.id,
)
