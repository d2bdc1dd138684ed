-- ===== src/Cluster/Execution/Hosts.antt =====
-- The hosts that `_execution_hosts` finds for the nodes of a plan.
use gemma_4_31b_mtp_v_llm_se.Prelude.{
  String, Bool, true, false, ◌≡◌, refl, ap, ◌∙◌, Option, none, some, List, [], ◌∷◌, if◌then◌else◌,
}
use gemma_4_31b_mtp_v_llm_se.Json.{Value, Fields, list, get, get_or_null}
use gemma_4_31b_mtp_v_llm_se.Cluster.Outcome.{ok}
use gemma_4_31b_mtp_v_llm_se.Cluster.Topology.{ClusterNode}
use gemma_4_31b_mtp_v_llm_se.Cluster.Environment.{set_key, lookup}
use gemma_4_31b_mtp_v_llm_se.Cluster.Environment.Latest.{lookup-set_key, or_later}
use gemma_4_31b_mtp_v_llm_se.Cluster.Plan.{ClusterLaunchPlan, node_items}
use gemma_4_31b_mtp_v_llm_se.Cluster.Execution.{add_hosts, hosts_of, execution_hosts}
use text.Mathlib.Text.{◌==◌ as str_eq}

-- The host to log in to for a node: its name or its address
abbrev pub address : String → ClusterNode → String
address host_field node = if str_eq host_field "name" then node.name else node.fabric_ip

-- The host of the last node with the name
abbrev pub host_named : String → String → List ClusterNode → Option String
host_named host_field name [] = none
host_named host_field name (node ∷ nodes) =
    or_later (host_named host_field name nodes)
      (if str_eq name node.name then some (address host_field node) else none)

hosts_after : String → List ClusterNode → List (String × String) → List (String × String)
hosts_after host_field [] hosts = hosts
hosts_after host_field (node ∷ nodes) hosts =
    hosts_after host_field nodes (set_key node.name (address host_field node) hosts)

add_hosts-node_items :
    (host_field : String) (nodes : List ClusterNode) (hosts : List (String × String))
    → add_hosts host_field (node_items nodes) hosts ≡ ok (hosts_after host_field nodes hosts)
unfolding add_hosts node_items hosts_after
add_hosts-node_items host_field [] hosts = refl
add_hosts-node_items host_field (node ∷ nodes) hosts =
    add_hosts-node_items host_field nodes (set_key node.name (address host_field node) hosts)

settle :
    (later : Option String) (b : Bool) (now : String) (old : Option String)
    → or_later later (if b then some now else old)
      ≡ or_later (or_later later (if b then some now else none)) old
settle none true now old = refl
settle none false now old = refl
settle (some later) b now old = refl

lookup-hosts_after :
    (host_field name : String) (nodes : List ClusterNode) (hosts : List (String × String))
    → lookup name (hosts_after host_field nodes hosts)
      ≡ or_later (host_named host_field name nodes) (lookup name hosts)
unfolding hosts_after
lookup-hosts_after host_field name [] hosts = refl
lookup-hosts_after host_field name (node ∷ nodes) hosts =
    rw
      (
        lookup-hosts_after host_field name nodes
            (set_key node.name (address host_field node) hosts),
        lookup-set_key name node.name (address host_field node) hosts,
      )
      (settle (host_named host_field name nodes) (str_eq name node.name) (address host_field node)
        (lookup name hosts))

pub get_or_null-some :
    (key : String) (fields : Fields) (v : Value)
    → get key fields ≡ some v
    → get_or_null key fields ≡ v
unfolding get_or_null
get_or_null-some key fields v e = rw (e, get_or_null) refl

hosts_step :
    (plan : ClusterLaunchPlan) (nodes : List ClusterNode) (host_field : String)
    → get "nodes" plan.topology ≡ some (list (node_items nodes))
    → execution_hosts plan host_field ≡ ok (hosts_after host_field nodes [])
unfolding execution_hosts hosts_of
hosts_step plan nodes host_field e =
    ap (hosts_of host_field) (get_or_null-some "nodes" plan.topology _ e)
    ∙ add_hosts-node_items host_field nodes []

or_later-nothing : (o : Option String) → or_later o none ≡ o
or_later-nothing none = refl
or_later-nothing (some item) = refl

-- For a plan whose topology lists the nodes, the hosts are found, and each name has the host of the
-- last node that has it.
pub execution_hosts_lem :
    (plan : ClusterLaunchPlan) (nodes : List ClusterNode) (host_field : String)
    → get "nodes" plan.topology ≡ some (list (node_items nodes))
    → (hosts : List (String × String)) × ((execution_hosts plan host_field ≡ ok hosts)
        × ((name : String) → lookup name hosts ≡ host_named host_field name nodes))
execution_hosts_lem plan nodes host_field e = (
  hosts_after host_field nodes [],
  (
    hosts_step plan nodes host_field e,
    λ name.
        lookup-hosts_after host_field name nodes []
        ∙ (unfold lookup in or_later-nothing (host_named host_field name nodes)),
  ),
)
