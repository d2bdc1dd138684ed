-- ===== src/Cluster/Topology/Selection.antt =====
-- What `select_nodes` returns on each of its branches.
use gemma_4_31b_mtp_v_llm_se.Prelude.{
  ℕ, zero, suc, ◌≤◌, ◌<◌, Bool, true, false, ◌≡◌, refl, sym, ap, inl, inr, List, [], ◌∷◌, ◌++◌,
  arith, length, take, All, Bool-cases, ltb, ltb→lt,
}
use gemma_4_31b_mtp_v_llm_se.Json.{ℤ, pos, negsuc}
use gemma_4_31b_mtp_v_llm_se.Cluster.Topology.{
  ClusterNode, ClusterTopology, is_positive, below_two, count_of, is_blank, check_nodes,
  select_nodes,
}
use gemma_4_31b_mtp_v_llm_se.Cluster.Outcome.{
  Outcome, ok, raised, ok-injective, ClusterError, ◌>>=◌, node_count_below_two, too_few_nodes,
  no_fabric_ip, no_positive_gpus,
}

-- A node that a plan can use
abbrev pub IsUsable : ClusterNode → Type 0
IsUsable node = (is_blank node.fabric_ip ≡ false) × (is_positive node.gpus ≡ true)

-- The error for the node
pub data Faults (node : ClusterNode) : ClusterError → Type 0 where
  without_ip : is_blank node.fabric_ip ≡ true → Faults node (no_fabric_ip node.name)
  without_gpus :
      is_blank node.fabric_ip ≡ false
      → is_positive node.gpus ≡ false
      → Faults node (no_positive_gpus node.name)

pub data Checked (nodes : List ClusterNode) : Outcome (List ClusterNode) → Type 0 where
  all_usable : All IsUsable nodes → Checked nodes (ok nodes)
  first_fault :
      {error : ClusterError}
      → (before : List ClusterNode) (node : ClusterNode) (after : List ClusterNode)
      → nodes ≡ before ++ node ∷ after
      → All IsUsable before
      → Faults node error
      → Checked nodes (raised error)

-- What a call may return or raise
pub data Selects (node_count : ℤ) (topology : ClusterTopology)
    : Outcome (List ClusterNode) → Type 0 where
  too_small :
      below_two node_count ≡ true → Selects node_count topology (raised node_count_below_two)
  too_large :
      below_two node_count ≡ false
      → length topology.nodes < count_of node_count
      → Selects node_count topology (raised (too_few_nodes topology.id))
  taken :
      {outcome : Outcome (List ClusterNode)}
      → below_two node_count ≡ false
      → count_of node_count ≤ length topology.nodes
      → Checked (take (count_of node_count) topology.nodes) outcome
      → Selects node_count topology outcome

Checked-cons :
    (node : ClusterNode) (nodes : List ClusterNode) (outcome : Outcome (List ClusterNode))
    → IsUsable node
    → Checked nodes outcome
    → Checked (node ∷ nodes) (outcome >>= λ checked. ok (node ∷ checked))
Checked-cons node nodes outcome u (all_usable us) = all_usable (u, us)
Checked-cons node nodes outcome u (first_fault before bad after e us f) =
    first_fault (node ∷ before) bad after (ap (λ ns. node ∷ ns) e) (u, us) f

check_nodes-cons :
    (node : ClusterNode) (nodes : List ClusterNode) (blank positive : Bool)
    → is_blank node.fabric_ip ≡ blank
    → is_positive node.gpus ≡ positive
    → Checked nodes (check_nodes nodes)
    → Checked (node ∷ nodes) (check_nodes (node ∷ nodes))
unfolding check_nodes
check_nodes-cons node nodes true positive e f c =
    rw e (first_fault [] node nodes refl tt (without_ip e))
check_nodes-cons node nodes false false e f c =
    rw (e, f) (first_fault [] node nodes refl tt (without_gpus e f))
check_nodes-cons node nodes false true e f c =
    rw (e, f) (Checked-cons node nodes (check_nodes nodes) (e, f) c)

check_nodes-Checked : (nodes : List ClusterNode) → Checked nodes (check_nodes nodes)
check_nodes-Checked [] = unfold check_nodes in all_usable tt
check_nodes-Checked (node ∷ nodes) =
    check_nodes-cons node nodes (is_blank node.fabric_ip) (is_positive node.gpus) refl refl
      (check_nodes-Checked nodes)

-- A count below 2 and a count above the number of nodes are refused. Otherwise the first
-- `node_count` nodes are returned, in their order, if each has an address and at least one GPU;
-- and if not, the error names the first of them that has not.
pub select_nodes_lem :
    (node_count : ℤ) (topology : ClusterTopology)
    → Selects node_count topology (select_nodes node_count topology)
unfolding select_nodes
select_nodes_lem n topology = elim (Bool-cases (below_two n)) [
  | inl e ↦ rw e (too_small e)
  | inr e ↦ elim (Bool-cases (ltb (length topology.nodes) (count_of n))) [
    | inl f ↦ rw (e, f) (too_large e (ltb→lt _ _ f))
    | inr f ↦ rw (e, f) (taken e (ground arith) (check_nodes-Checked _))
  ]
]

-- What the nodes are, where the call returns
pub record IsSelected (node_count : ℤ) (topology : ClusterTopology) (nodes : List ClusterNode)
    : Type 0 where
  pub prefix : nodes ≡ take (count_of node_count) topology.nodes
  pub counted : length nodes ≡ count_of node_count
  pub at_least_two : 2 ≤ length nodes
  pub usable : All IsUsable nodes

length-take : {A : Type 0} (n : ℕ) (xs : List A) → n ≤ length xs → length (take n xs) ≡ n
length-take zero xs h = refl
length-take (suc n) [] h = absurd (omega arith)
length-take (suc n) (x ∷ xs) h = ap suc (length-take n xs (omega arith))

two_le : (node_count : ℤ) → below_two node_count ≡ false → 2 ≤ count_of node_count
unfolding below_two count_of
two_le (pos n) h = ground arith
two_le (negsuc n) h = absurd (cc h)

Checked-IsUsable :
    (nodes chosen : List ClusterNode) (outcome : Outcome (List ClusterNode))
    → Checked nodes outcome
    → outcome ≡ ok chosen
    → (chosen ≡ nodes) × All IsUsable nodes
Checked-IsUsable nodes chosen (ok others) (all_usable us) e = (sym (ok-injective e), us)
Checked-IsUsable nodes chosen (raised error) (first_fault before node after p us f) e =
    absurd (cc e)

Selects-IsSelected :
    (node_count : ℤ) (topology : ClusterTopology) (nodes : List ClusterNode)
    (outcome : Outcome (List ClusterNode))
    → Selects node_count topology outcome
    → outcome ≡ ok nodes
    → IsSelected node_count topology nodes
Selects-IsSelected n topology nodes (raised error) (too_small h) e = absurd (cc e)
Selects-IsSelected n topology nodes (raised error) (too_large h k) e = absurd (cc e)
Selects-IsSelected n topology nodes outcome (taken h k c) e =
    let (same, us) = Checked-IsUsable _ nodes outcome c e in
    let len = length-take (count_of n) topology.nodes k in
    record {
      prefix = same;
      counted = rw same len;
      at_least_two = rw (same, len) (two_le n h);
      usable = rw same us;
    }

pub select_nodes-IsSelected :
    (node_count : ℤ) (topology : ClusterTopology) (nodes : List ClusterNode)
    → select_nodes node_count topology ≡ ok nodes
    → IsSelected node_count topology nodes
select_nodes-IsSelected n topology nodes e =
    Selects-IsSelected n topology nodes (select_nodes n topology) (select_nodes_lem n topology) e
