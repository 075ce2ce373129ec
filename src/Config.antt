-- ===== src/Config.antt =====
-- internal/config/config.go. `Source` is what github.com/knadh/koanf answers about the file.
mod Tests
use node_messager.Base.{
  ℕ, String, ◌≡◌, ◌≢◌, refl, sym, ap, subst, ◌∙◌, inl, inr, Bool, true, false, Bool-cases, Option,
  none, some, Option-cases, List, [], ◌∷◌, ◌==◌, nat_eq, eq_of_==, arith, if◌then◌else◌, find_first,
  find_first-In, In,
}
use node_messager.Base.Retry.{Result, ok, err}
use node_messager.Dto.{Node}

pub record Config : Type 0 where
  pub nodes : List Node
  pub host_node : Option Node
  pub master_id : ℕ

-- `k.Int` gives 0 for a key that is not there; `host_id` is none if `k.Exists` says so.
pub record Source : Type 0 where
  pub loading : Option String
  pub nodes : Result String (List Node)
  pub master_id : ℕ
  pub host_id : Option ℕ

pub data ConfigError : Type 0 where
  not_loaded bad_nodes : String → ConfigError
  host_not_found : ℕ → ConfigError

unfoldable pub node_by_id : List Node → ℕ → Option Node
node_by_id nodes id = find_first (λ n. n.id == id) nodes

-- The first node is the master if none is named.
abbrev pub first_id : List Node → ℕ → ℕ
first_id [] id = id
first_id (n ∷ ns) id = if id == 0 then n.id else id

abbrev pub found : List Node → ℕ → ℕ → Option Node → Result ConfigError Config
found nodes master id none = err (host_not_found id)
found nodes master id (some n) =
    ok (record { nodes = nodes; host_node = some n; master_id = master })

abbrev pub with_host : List Node → ℕ → Option ℕ → Result ConfigError Config
with_host nodes master none = ok (record { nodes = nodes; host_node = none; master_id = master })
with_host nodes master (some id) = found nodes master id (node_by_id nodes id)

abbrev pub with_nodes : Source → Result String (List Node) → Result ConfigError Config
with_nodes s (err x) = err (bad_nodes x)
with_nodes s (ok nodes) = with_host nodes (first_id nodes s.master_id) s.host_id

abbrev pub loaded : Source → Option String → Result ConfigError Config
loaded s (some x) = err (not_loaded x)
loaded s none = with_nodes s s.nodes

unfoldable pub load_config : Source → Result ConfigError Config
unfolding node_by_id
load_config s = loaded s s.loading

-- The host is the configured node with the id that the file gives, and is there if it gives one;
-- the nodes are the file's, and the master's id is the file's, or else the first node's.
pub record IsFiled (s : Source) (c : Config) : Type 0 where
  pub host : (h : Node) → c.host_node ≡ some h → In h c.nodes × (s.host_id ≡ some h.id)
  pub hosted : c.host_node ≡ none → s.host_id ≡ none
  pub listed : s.nodes ≡ ok c.nodes
  pub named_master : s.master_id ≢ 0 → c.master_id ≡ s.master_id
  pub first_master :
      (n : Node) (ns : List Node) → s.master_id ≡ 0 → c.nodes ≡ n ∷ ns → c.master_id ≡ n.id

first_id-named : (nodes : List Node) (id : ℕ) → id ≢ 0 → first_id nodes id ≡ id
first_id-named [] id h = refl
first_id-named (n ∷ ns) id h = ground arith

first_id-first :
    (nodes : List Node) (id : ℕ) (n : Node) (ns : List Node)
    → id ≡ 0
    → nodes ≡ n ∷ ns
    → first_id nodes id ≡ n.id
first_id-first nodes id n ns z e = rw (e, z) refl

abbrev Good : Source → Result ConfigError Config → Type 0
Good s (err x) = Unit
Good s (ok c) = IsFiled s c

found-Good :
    (s : Source) (nodes : List Node) (id : ℕ) (o : Option Node)
    → s.nodes ≡ ok nodes
    → s.host_id ≡ some id
    → ((n : Node) → o ≡ some n → In n nodes × (n.id ≡ id))
    → Good s (found nodes (first_id nodes s.master_id) id o)
found-Good s nodes id none l q k = tt
found-Good s nodes id (some n) l q k =
    let there = k n refl in
    record {
      host = λ h e.
          let same : n ≡ h = ground (arith, e) in rw (← same) (there.0, q ∙ ap some (sym there.1));
      hosted = λ e. absurd (cc e);
      listed = l;
      named_master = first_id-named nodes s.master_id;
      first_master = first_id-first nodes s.master_id;
    }

with_host-Good :
    (s : Source) (nodes : List Node) (o : Option ℕ)
    → s.nodes ≡ ok nodes
    → s.host_id ≡ o
    → Good s (with_host nodes (first_id nodes s.master_id) o)
unfolding node_by_id
with_host-Good s nodes none l q = record {
  host = λ h e. absurd (cc e);
  hosted = λ e. q;
  listed = l;
  named_master = first_id-named nodes s.master_id;
  first_master = first_id-first nodes s.master_id;
}
with_host-Good s nodes (some id) l q =
    found-Good s nodes id (node_by_id nodes id) l q
      λ n e. let r = find_first-In (λ (m : Node). m.id == id) nodes e in (r.0, eq_of_== n.id id r.1)

with_nodes-Good :
    (s : Source) (r : Result String (List Node)) → s.nodes ≡ r → Good s (with_nodes s r)
with_nodes-Good s (err x) l = tt
with_nodes-Good s (ok nodes) l = with_host-Good s nodes s.host_id l refl

loaded-Good : (s : Source) (o : Option String) → Good s (loaded s o)
loaded-Good s (some x) = tt
loaded-Good s none = with_nodes-Good s s.nodes refl

-- A configuration that loads is the file's: its host is one of its nodes, the one with the id that the
-- file gives, and is missing only if the file gives no id; its nodes are the file's; its master's id
-- is the one that the file names, and the first node's if the file names none.
pub load_config-IsFiled : (s : Source) (c : Config) → load_config s ≡ ok c → IsFiled s c
unfolding load_config
load_config-IsFiled s c e = subst (Good s) e (loaded-Good s s.loading)
