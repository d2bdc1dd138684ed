-- ===== src/Cluster/Topology.antt =====
-- `ClusterNode`, `ClusterTopology` and `_topology_from_config` of cluster.py. What the YAML file holds
-- is a value of Json; a bool counts as an int, as it does in Python.
pub mod Selection
pub mod Config
use gemma_4_31b_mtp_v_llm_se.Prelude.{
  ℕ, zero, suc, ◌+◌, ◌-◌, String, Bool, true, false, not, ◌||◌, Option, none, some, List, [], ◌∷◌,
  ltb, leb, length, take, if◌then◌else◌, is_empty,
}
use gemma_4_31b_mtp_v_llm_se.Prelude.Text.{codes}
use gemma_4_31b_mtp_v_llm_se.Json.{
  ℤ, pos, negsuc, Value, Items, Fields, str, int, bool, dict, list, null, no_items, item, get,
  get_or_null, truthy,
}
use gemma_4_31b_mtp_v_llm_se.Cluster.Outcome.{
  Outcome, ok, raised, ◌>>=◌, node_count_below_two, too_few_nodes, no_fabric_ip, no_positive_gpus,
  entry_not_a_mapping, label_not_a_string, gpus_per_node_not_positive, nodes_not_a_list,
  node_not_a_mapping, node_name_empty,
}

pub record ClusterNode : Type 0 where
  pub name : String
  pub fabric_ip : String
  pub gpus : ℤ

pub record ClusterTopology : Type 0 where
  pub id : String
  pub label : String
  pub nodes : List ClusterNode

-- `0 < n`
unfoldable pub is_positive : ℤ → Bool
is_positive (pos zero) = false
is_positive (pos (suc n)) = true
is_positive (negsuc n) = false

-- `n < 2`
unfoldable pub below_two : ℤ → Bool
below_two (pos n) = ltb n 2
below_two (negsuc n) = true

-- The number of an int that is at least 0
unfoldable pub count_of : ℤ → ℕ
count_of (pos n) = n
count_of (negsuc n) = 0

abbrev pub is_blank : String → Bool
is_blank text = is_empty (codes text)

-- The loop of `select_nodes` over the nodes that it selected
unfoldable pub check_nodes : List ClusterNode → Outcome (List ClusterNode)
unfolding is_positive
check_nodes [] = ok []
check_nodes (node ∷ nodes) =
    let rest = check_nodes nodes >>= λ checked. ok (node ∷ checked) in
    if is_blank node.fabric_ip
    then raised (no_fabric_ip node.name)
    else if is_positive node.gpus
    then rest
    else raised (no_positive_gpus node.name)

-- `ClusterTopology.select_nodes`
unfoldable pub select_nodes : ℤ → ClusterTopology → Outcome (List ClusterNode)
unfolding check_nodes below_two count_of
select_nodes node_count topology =
    if below_two node_count
    then raised node_count_below_two
    else if ltb (length topology.nodes) (count_of node_count)
    then raised (too_few_nodes topology.id)
    else check_nodes (take (count_of node_count) topology.nodes)

-- The int that a value is, where `isinstance(value, int)`
unfoldable pub as_int : Value → Option ℤ
as_int (int n) = some n
as_int (bool true) = some (pos 1)
as_int (bool false) = some (pos 0)
as_int v = none

-- `isinstance(value, str) and value`
unfoldable pub as_name : Value → Option String
as_name (str String.[]) = none
as_name (str text) = some text
as_name v = none

abbrev pub or_default : Value → Option Value → Value
or_default default none = default
or_default default (some v) = v

unfoldable pub keep_positive : Option ℤ → Option ℤ
unfolding is_positive
keep_positive none = none
keep_positive (some n) = if is_positive n then some n else none

-- The int of a value, if it is one and positive
unfoldable pub as_positive : Value → Option ℤ
unfolding as_int keep_positive
as_positive v = keep_positive (as_int v)

unfoldable pub node_of : Option String → Option String → Option ℤ → Outcome ClusterNode
node_of none ip gpus = raised node_name_empty
node_of (some name) none gpus = raised (no_fabric_ip name)
node_of (some name) (some ip) none = raised (no_positive_gpus name)
node_of (some name) (some ip) (some gpus) = ok (record { name = name; fabric_ip = ip; gpus = gpus })

-- One turn of the loop of `_topology_from_config`
unfoldable pub node_from_config : ℤ → Value → Outcome ClusterNode
unfolding node_of as_name as_positive get_or_null get
node_from_config gpus_per_node (dict raw) =
    node_of (as_name (get_or_null "name" raw)) (as_name (get_or_null "fabric_ip" raw))
      (as_positive (or_default (int gpus_per_node) (get "gpus" raw)))
node_from_config gpus_per_node raw = raised node_not_a_mapping

unfoldable pub nodes_from_config : ℤ → Items → Outcome (List ClusterNode)
unfolding node_from_config
nodes_from_config gpus_per_node no_items = ok []
nodes_from_config gpus_per_node (item raw raws) = node_from_config gpus_per_node raw >>= λ node.
    nodes_from_config gpus_per_node raws >>= λ nodes. ok (node ∷ nodes)

-- `config.get("label") or topology_id`
unfoldable pub label_of : String → Value → Outcome String
unfolding truthy
label_of topology_id (str text) = ok (if is_blank text then topology_id else text)
label_of topology_id v = if truthy v then raised label_not_a_string else ok topology_id

unfoldable pub gpus_of : Value → Outcome ℤ
unfolding as_positive
gpus_of v = elim (as_positive v) [ none ↦ raised gpus_per_node_not_positive | some n ↦ ok n ]

unfoldable pub all_nodes : ℤ → Value → Outcome (List ClusterNode)
unfolding nodes_from_config
all_nodes gpus_per_node (list raws) = nodes_from_config gpus_per_node raws
all_nodes gpus_per_node v = raised nodes_not_a_list

-- `_topology_from_config`
unfoldable pub topology_from_config : String → Value → Outcome ClusterTopology
unfolding label_of gpus_of all_nodes get get_or_null
topology_from_config topology_id (dict config) =
    label_of topology_id (get_or_null "label" config) >>= λ label.
    gpus_of (or_default (int (pos 1)) (get "gpus_per_node" config)) >>= λ gpus_per_node.
    all_nodes gpus_per_node (get_or_null "nodes" config) >>= λ nodes.
    ok (record { id = topology_id; label = label; nodes = nodes })
topology_from_config topology_id v = raised entry_not_a_mapping
