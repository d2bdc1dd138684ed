-- ===== src/Cluster/Plan.antt =====
-- `build_cluster_launch_plan`, `ClusterLaunchPlan` and `_expected_live_gates` of cluster.py.
pub mod Built
use gemma_4_31b_mtp_v_llm_se.Prelude.{
  ℕ, zero, suc, ◌+◌, ◌-◌, String, Bool, true, false, Option, none, some, List, [], ◌∷◌, ◌++◌, ltb,
  map, if◌then◌else◌,
}
use gemma_4_31b_mtp_v_llm_se.Json.{
  ℤ, pos, negsuc, Value, Items, Fields, str, int, bool, dict, list, null, no_entries, entry,
  no_items, item, get,
}
use gemma_4_31b_mtp_v_llm_se.Cluster.Outcome.{Outcome, ok, raised, ◌>>=◌, no_index, no_key}
use gemma_4_31b_mtp_v_llm_se.Cluster.Shell.{decimal}
use gemma_4_31b_mtp_v_llm_se.Cluster.Serial.{Host, sha256_json, join}
use gemma_4_31b_mtp_v_llm_se.Cluster.Topology.{ClusterNode, ClusterTopology, select_nodes}
use gemma_4_31b_mtp_v_llm_se.Cluster.Environment.{transport_environment}
use gemma_4_31b_mtp_v_llm_se.Cluster.Commands.{
  ModelProfile, ServeOptions, Shared, ClusterLaunchCommand, command_to_dict, build_commands,
  text_or,
}
use Prim.Native.String.{◌++◌ as ◌<>◌}
use text.Mathlib.Text.{◌==◌ as str_eq}

pub record ClusterLaunchPlan : Type 0 where
  pub schema_version : ℕ
  pub dry_run_only : Bool
  pub runtime_id : String
  pub profile : String
  pub topology : Fields
  pub node_count : ℤ
  pub tensor_parallel_size : ℤ
  pub transport_profile : String
  pub commands : List ClusterLaunchCommand
  pub environment : List String
  pub resolved_environment_sha256 : String
  pub resolved_command_sha256 : String
  pub dry_run_fingerprint : String
  pub expected_live_gates : List String

abbrev pub cluster_plan_schema_version : ℕ
cluster_plan_schema_version = 1

-- The arguments of `build_cluster_launch_plan` beside the profile, the topology and the count
pub record PlanOptions : Type 0 where
  pub runtime_id : String
  pub transport_profile : String
  pub head_ip : Option String
  pub fabric_iface : Option String
  pub fabric_cidr : String
  pub ray_port : ℤ
  pub venv : Option String
  pub extra_env : Option (List String)
  pub serve : ServeOptions

unfoldable pub str_items : List String → Items
str_items [] = no_items
str_items (text ∷ texts) = item (str text) (str_items texts)

unfoldable pub command_items : List ClusterLaunchCommand → Items
unfolding command_to_dict
command_items [] = no_items
command_items (c ∷ cs) = item (command_to_dict c) (command_items cs)

-- `ClusterLaunchPlan.to_dict`
unfoldable pub plan_to_dict : ClusterLaunchPlan → Value
unfolding command_items str_items
plan_to_dict p = dict (
    entry "schema_version" (int (pos p.schema_version)) (
      entry "dry_run_only" (bool p.dry_run_only) (
        entry "runtime_id" (str p.runtime_id) (
          entry "profile" (str p.profile) (
            entry "topology" (dict p.topology) (
              entry "node_count" (int p.node_count) (
                entry "tensor_parallel_size" (int p.tensor_parallel_size) (
                  entry "transport_profile" (str p.transport_profile) (
                    entry "commands" (list (command_items p.commands)) (
                      entry "environment" (list (str_items p.environment)) (
                        entry "resolved_environment_sha256" (str p.resolved_environment_sha256) (
                          entry "resolved_command_sha256" (str p.resolved_command_sha256) (
                            entry "dry_run_fingerprint" (str p.dry_run_fingerprint) (
                              entry "expected_live_gates" (list (str_items p.expected_live_gates))
                                no_entries))))))))))))))

-- `f"{topology['id']}"`
unfoldable pub text_of_id : Host → Option Value → Outcome String
text_of_id host none = raised (no_key "id")
text_of_id host (some (str text)) = ok text
text_of_id host (some v) = ok (host.value_text v)

unfoldable pub command_lines : List ClusterLaunchCommand → List String
command_lines [] = []
command_lines (c ∷ cs) =
    ("# role=" <> c.role <> " target=" <> c.target <> " rank=" <> decimal c.rank)
    ∷ c.command
    ∷ command_lines cs

-- `ClusterLaunchPlan.render_shell`
unfoldable pub render_shell : Host → ClusterLaunchPlan → Outcome String
unfolding text_of_id command_lines join get
render_shell host p = text_of_id host (get "id" p.topology) >>= λ id. ok (
    join "\n" (
      ("# dry_run_only=true runtime_id=" <> p.runtime_id <> " topology=" <> id <> " transport="
        <> p.transport_profile)
      ∷ ("# dry_run_fingerprint=" <> p.dry_run_fingerprint)
      ∷ command_lines p.commands)
    <> "\n")

-- `_expected_live_gates`
unfoldable pub expected_live_gates : String → List String
expected_live_gates transport_profile =
    ("operator_approval_before_execute" ∷ "dry_run_fingerprint_matches_target_topology"
      ∷ "runtime_health_recorded_separately_from_model_list" ∷ "generation_smoke_exact_pong"
      ∷ "rollback_evidence_preserved" ∷ [])
    ++ (if str_eq transport_profile "roce-a"
        then "models_endpoint_not_sufficient_for_roce_health" ∷ "runtime_bound_nccl_net_ib_logs"
          ∷ "zero_net_socket_fallback" ∷ "queue_drain_running_waiting_zero"
          ∷ "ray_node_actor_worker_continuity" ∷ "soak_without_new_shm_broadcast_warnings"
          ∷ "socket_fallback_preserved" ∷ []
        else [])

-- The sum of two ints
unfoldable pub add_int : ℤ → ℤ → ℤ
add_int (pos m) (pos n) = pos (m + n)
add_int (pos m) (negsuc n) = if ltb n m then pos (m - suc n) else negsuc (n - m)
add_int (negsuc m) (pos n) = if ltb m n then pos (n - suc m) else negsuc (m - n)
add_int (negsuc m) (negsuc n) = negsuc (suc (m + n))

-- `sum(node.gpus for node in nodes)`
unfoldable pub sum_gpus : List ClusterNode → ℤ
unfolding add_int
sum_gpus [] = pos 0
sum_gpus (node ∷ nodes) = add_int node.gpus (sum_gpus nodes)

-- `nodes[0]`
unfoldable pub first_node : List ClusterNode → Outcome ClusterNode
first_node [] = raised no_index
first_node (node ∷ nodes) = ok node

unfoldable pub node_items : List ClusterNode → Items
node_items [] = no_items
node_items (node ∷ nodes) =
    item
      (dict (
        entry "name" (str node.name)
          (entry "fabric_ip" (str node.fabric_ip) (entry "gpus" (int node.gpus) no_entries))))
      (node_items nodes)

unfoldable pub topology_payload : ClusterTopology → ClusterNode → List ClusterNode → Fields
unfolding node_items
topology_payload topology head nodes = entry "id" (str topology.id) (
    entry "label" (str topology.label)
      (entry "head" (str head.name) (entry "nodes" (list (node_items nodes)) no_entries)))

unfoldable pub fingerprint_payload : PlanOptions → ModelProfile → Fields → String → String → Value
fingerprint_payload o profile payload environment_hash command_hash = dict (
    entry "runtime_id" (str o.runtime_id) (
      entry "profile" (str profile.name) (
        entry "topology" (dict payload) (
          entry "transport_profile" (str o.transport_profile) (
            entry "environment_sha256" (str environment_hash)
              (entry "command_sha256" (str command_hash) no_entries))))))

-- The plan of the commands that were built
unfoldable pub plan_of :
    Host
    → PlanOptions
    → ModelProfile
    → ClusterTopology
    → ℤ
    → ClusterNode
    → List ClusterNode
    → List String
    → List ClusterLaunchCommand
    → ClusterLaunchPlan
unfolding topology_payload fingerprint_payload sum_gpus sha256_json str_items command_items
    expected_live_gates
plan_of host o profile topology node_count head nodes environment commands =
    let environment_hash = sha256_json host (list (str_items environment)) in
    let command_hash = sha256_json host (list (command_items commands)) in
    let payload = topology_payload topology head nodes in
    record {
      schema_version = cluster_plan_schema_version;
      dry_run_only = true;
      runtime_id = o.runtime_id;
      profile = profile.name;
      topology = payload;
      node_count = node_count;
      tensor_parallel_size = sum_gpus nodes;
      transport_profile = o.transport_profile;
      commands = commands;
      environment = environment;
      resolved_environment_sha256 = environment_hash;
      resolved_command_sha256 = command_hash;
      dry_run_fingerprint =
          sha256_json host (fingerprint_payload o profile payload environment_hash command_hash);
      expected_live_gates = expected_live_gates o.transport_profile;
    }

unfoldable pub shared_of : PlanOptions → ClusterNode → List ClusterNode → List String → Shared
unfolding sum_gpus
shared_of o head nodes environment = record {
  tensor_parallel_size = sum_gpus nodes;
  environment = environment;
  head_ip = text_or o.head_ip head.fabric_ip;
  ray_port = o.ray_port;
  runtime_id = o.runtime_id;
  venv = o.venv;
}

-- `build_cluster_launch_plan`
unfoldable pub build_cluster_launch_plan :
    Host → ModelProfile → ClusterTopology → ℤ → PlanOptions → Outcome ClusterLaunchPlan
unfolding select_nodes first_node transport_environment build_commands shared_of plan_of
build_cluster_launch_plan host profile topology node_count o =
    select_nodes node_count topology >>= λ nodes. first_node nodes >>= λ head.
    transport_environment o.transport_profile o.fabric_iface o.fabric_cidr o.runtime_id o.extra_env
    >>= λ environment.
        build_commands host profile o.serve (shared_of o head nodes environment) nodes
        >>= λ commands.
            ok (plan_of host o profile topology node_count head nodes environment commands)
