-- ===== src/Cluster/Topology/Config.antt =====
-- What a topology that was read from the file guarantees to a plan.
use gemma_4_31b_mtp_v_llm_se.Prelude.{
  ℕ, ◌≤◌, String, true, false, ◌≡◌, refl, sym, subst, ◌∙◌, inl, inr, Option, none, some, List, [],
  ◌∷◌, arith, length, take, All, All-take, Bool-cases, ltb,
}
use gemma_4_31b_mtp_v_llm_se.Json.{
  ℤ, pos, get, get_or_null, int, Value, Items, str, dict, list, no_items, item,
}
use gemma_4_31b_mtp_v_llm_se.Cluster.Topology.{
  ClusterNode, ClusterTopology, is_positive, below_two, count_of, is_blank, check_nodes,
  select_nodes, or_default, as_name, as_positive, keep_positive, as_int, node_of, node_from_config,
  nodes_from_config, all_nodes, label_of, gpus_of, topology_from_config,
}
use gemma_4_31b_mtp_v_llm_se.Cluster.Topology.Selection.{IsUsable}
use mathlib.Core.Option.{some-injective}
use gemma_4_31b_mtp_v_llm_se.Cluster.Outcome.{Outcome, ok, raised, ◌>>=◌}

not-ltb : (a b : ℕ) → b ≤ a → ltb a b ≡ false
not-ltb a b h = ground arith

-- What holds of the value, if there is one
abbrev Returns {ℓ κ} : {A : Type ℓ} → (A → Type κ) → Outcome A → Type κ
Returns P (ok a) = P a
Returns P (raised error) = Unit

>>=-Returns {ℓ κ μ ν} :
    {A : Type ℓ} {B : Type κ} (P : A → Type μ) (Q : B → Type ν) (o : Outcome A)
    (next : A → Outcome B)
    → Returns P o
    → ((a : A) → P a → Returns Q (next a))
    → Returns Q (o >>= next)
>>=-Returns P Q (ok a) next p q = q a p
>>=-Returns P Q (raised error) next p q = tt

as_name-some : (v : Value) (name : String) → as_name v ≡ some name → is_blank name ≡ false
unfolding as_name
as_name-some (str String.[]) name e = cc
as_name-some (str (String.◌∷◌ c s)) name e =
    subst (λ (text : String). is_blank text ≡ false) (some-injective _ name e) refl
as_name-some v name e = cc

keep_positive-some : (o : Option ℤ) (n : ℤ) → keep_positive o ≡ some n → is_positive n ≡ true
keep_positive-some none n e = absurd (unfold keep_positive in cc)
keep_positive-some (some k) n e = elim (Bool-cases (is_positive k)) [
  | inl h ↦ subst (λ x. is_positive x ≡ true) (some-injective k n (sym (kept k h) ∙ e)) h
  | inr h ↦ absurd (cc (e, dropped k h))
]
  where
    kept : (k : ℤ) → is_positive k ≡ true → keep_positive (some k) ≡ some k
    kept k h = unfold keep_positive in rw h refl

    dropped : (k : ℤ) → is_positive k ≡ false → keep_positive (some k) ≡ none
    dropped k h = unfold keep_positive in rw h refl

as_positive-some : (v : Value) (n : ℤ) → as_positive v ≡ some n → is_positive n ≡ true
unfolding as_positive
as_positive-some v n e = keep_positive-some (as_int v) n e

-- What `_topology_from_config` checks of a node
abbrev pub IsListed : ClusterNode → Type 0
IsListed node = (is_blank node.name ≡ false) × IsUsable node

node_of-IsListed :
    (name ip : Option String) (gpus : Option ℤ)
    → ((text : String) → name ≡ some text → is_blank text ≡ false)
    → ((text : String) → ip ≡ some text → is_blank text ≡ false)
    → ((n : ℤ) → gpus ≡ some n → is_positive n ≡ true)
    → Returns IsListed (node_of name ip gpus)
unfolding node_of
node_of-IsListed none ip gpus p q r = tt
node_of-IsListed (some name) none gpus p q r = tt
node_of-IsListed (some name) (some ip) none p q r = tt
node_of-IsListed (some name) (some ip) (some gpus) p q r = (p name refl, (q ip refl, r gpus refl))

node_from_config-IsListed :
    (gpus_per_node : ℤ) (v : Value) → Returns IsListed (node_from_config gpus_per_node v)
unfolding node_from_config
node_from_config-IsListed n (dict raw) =
    node_of-IsListed _ _ _ (as_name-some _) (as_name-some _) (as_positive-some _)
node_from_config-IsListed n v = tt

nodes_from_config-AreListed :
    (gpus_per_node : ℤ) (raws : Items)
    → Returns (All IsListed) (nodes_from_config gpus_per_node raws)
unfolding nodes_from_config
nodes_from_config-AreListed n no_items = tt
nodes_from_config-AreListed n (item raw raws) =
    >>=-Returns IsListed (All IsListed) (node_from_config n raw) _ (node_from_config-IsListed n raw)
      (λ node u.
        >>=-Returns (All IsListed) (All IsListed) (nodes_from_config n raws) _
          (nodes_from_config-AreListed n raws) (λ nodes us. (u, us)))

all_nodes-AreListed :
    (gpus_per_node : ℤ) (v : Value) → Returns (All IsListed) (all_nodes gpus_per_node v)
unfolding all_nodes
all_nodes-AreListed n (list raws) = nodes_from_config-AreListed n raws
all_nodes-AreListed n v = tt

abbrev TopologyListed : ClusterTopology → Type 0
TopologyListed topology = All IsListed topology.nodes

built-Listed :
    (topology_id label : String) (nodes : Outcome (List ClusterNode))
    → Returns (All IsListed) nodes
    → Returns TopologyListed
        (nodes >>= λ ns. ok (record { id = topology_id; label = label; nodes = ns }))
built-Listed topology_id label (ok nodes) us = us
built-Listed topology_id label (raised error) us = tt

stages-Listed :
    (topology_id : String) (label : Outcome String) (gpus : Outcome ℤ)
    (nodes : ℤ → Outcome (List ClusterNode))
    → ((n : ℤ) → Returns (All IsListed) (nodes n))
    → Returns TopologyListed (
        label >>= λ text.
        gpus >>= λ n. nodes n >>= λ ns. ok (record { id = topology_id; label = text; nodes = ns }))
stages-Listed topology_id (ok label) (ok n) nodes us =
    built-Listed topology_id label (nodes n) (us n)
stages-Listed topology_id (ok label) (raised error) nodes us = tt
stages-Listed topology_id (raised error) gpus nodes us = tt

topology-AreListed :
    (topology_id : String) (config : Value)
    → Returns TopologyListed (topology_from_config topology_id config)
unfolding topology_from_config
topology-AreListed topology_id (dict config) =
    stages-Listed topology_id (label_of topology_id (get_or_null "label" config))
      (gpus_of (or_default (int (pos 1)) (get "gpus_per_node" config)))
      (λ n. all_nodes n (get_or_null "nodes" config))
      (λ n. all_nodes-AreListed n (get_or_null "nodes" config))
topology-AreListed topology_id v = tt

check_nodes-listed : (nodes : List ClusterNode) → All IsListed nodes → check_nodes nodes ≡ ok nodes
unfolding check_nodes
check_nodes-listed [] us = refl
check_nodes-listed (node ∷ nodes) ((p, (q, r)), us) = rw (q, r, check_nodes-listed nodes us) refl

Returns-ok {ℓ κ} :
    {A : Type ℓ} (P : A → Type κ) (o : Outcome A) (a : A) → o ≡ ok a → Returns P o → P a
Returns-ok P o a e r = subst (Returns P) e r

-- From a topology that `_topology_from_config` returned, every number of nodes from 2 to all of
-- them can be selected, and is: no node of it is refused.
topology_from_config-selects :
    (topology_id : String) (config : Value) (topology : ClusterTopology) (node_count : ℤ)
    → topology_from_config topology_id config ≡ ok topology
    → below_two node_count ≡ false
    → count_of node_count ≤ length topology.nodes
    → select_nodes node_count topology ≡ ok (take (count_of node_count) topology.nodes)
unfolding select_nodes
topology_from_config-selects topology_id config topology n e f g =
    let listed = Returns-ok TopologyListed _ topology e (topology-AreListed topology_id config) in
    rw (f, not-ltb (length topology.nodes) (count_of n) g)
      (check_nodes-listed _ (All-take IsListed (count_of n) topology.nodes listed))
