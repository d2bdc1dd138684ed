-- ===== src/Cluster/Plan/Built.antt =====
-- The plan that `build_cluster_launch_plan` returns.
use gemma_4_31b_mtp_v_llm_se.Prelude.{
  ℕ, zero, suc, ◌+◌, ◌≤◌, String, true, ◌≡◌, refl, some, List, [], ◌∷◌, map, All, length, arith,
}
use gemma_4_31b_mtp_v_llm_se.Json.{ℤ, pos, negsuc, list, get}
use gemma_4_31b_mtp_v_llm_se.Cluster.Outcome.{ok}
use gemma_4_31b_mtp_v_llm_se.Cluster.Serial.{Host}
use gemma_4_31b_mtp_v_llm_se.Cluster.Topology.{
  ClusterNode, ClusterTopology, is_positive, select_nodes,
}
use gemma_4_31b_mtp_v_llm_se.Cluster.Topology.Selection.{IsUsable, select_nodes-IsSelected}
use gemma_4_31b_mtp_v_llm_se.Cluster.Environment.{
  member, items_or_none, iface_items, profile_items, supported_transport_profiles,
  transport_environment, normalize_env_assignments,
}
use gemma_4_31b_mtp_v_llm_se.Cluster.Environment.Normalize.{AreAssignments}
use gemma_4_31b_mtp_v_llm_se.Cluster.Environment.Transport.{
  IsTransport, transport_environment-IsTransport,
}
use gemma_4_31b_mtp_v_llm_se.Cluster.Commands.{
  ModelProfile, Shared, ClusterLaunchCommand, default_cluster_vllm_runtime_env, text_or,
  head_command, worker_commands, serve_command, build_vllm_serve_args, build_commands,
}
use gemma_4_31b_mtp_v_llm_se.Cluster.Commands.Starting.{
  StartsHead, StartsWorker, StartsServer, head_command-StartsHead, worker_commands-StartsWorker,
  serve_command-StartsServer,
}
use gemma_4_31b_mtp_v_llm_se.Prelude.{◌++◌, PairByPair}
use gemma_4_31b_mtp_v_llm_se.Cluster.Commands.Ranks.{outline, plan_outline, build_commands_total}
use gemma_4_31b_mtp_v_llm_se.Cluster.Plan.{
  ClusterLaunchPlan, PlanOptions, add_int, sum_gpus, first_node, node_items, topology_payload,
  plan_of, shared_of, build_cluster_launch_plan,
}

add-positive :
    (n : ℤ) (k : ℕ) → is_positive n ≡ true → (m : ℕ) × ((add_int n (pos k) ≡ pos m) × (suc k ≤ m))
unfolding add_int is_positive
add-positive (pos zero) k h = absurd (cc h)
add-positive (pos (suc g)) k h = (suc g + k, (refl, omega arith))
add-positive (negsuc n) k h = absurd (cc h)

-- Usable nodes have at least one GPU each.
sum_gpus-le :
    (nodes : List ClusterNode)
    → All IsUsable nodes
    → (m : ℕ) × ((sum_gpus nodes ≡ pos m) × (length nodes ≤ m))
unfolding sum_gpus
sum_gpus-le [] us = (0, (refl, omega arith))
sum_gpus-le (node ∷ nodes) ((p, q), us) =
    let (k, (e, le)) = sum_gpus-le nodes us in
    let (m, (f, lt)) = add-positive node.gpus k q in (m, (rw e f, omega (arith, le, lt)))

-- What a plan for the nodes holds
pub record IsPlan (o : PlanOptions) (nodes : List ClusterNode) (plan : ClusterLaunchPlan)
    : Type 0 where
  pub ordered : map outline plan.commands ≡ plan_outline nodes
  pub transports :
      IsTransport
        (profile_items o.transport_profile o.fabric_cidr o.runtime_id)
        (items_or_none o.extra_env)
        (iface_items o.fabric_iface)
        plan.environment
  pub adds_gpus : plan.tensor_parallel_size ≡ sum_gpus nodes
  pub shards : (m : ℕ) × ((plan.tensor_parallel_size ≡ pos m) × (length nodes ≤ m))
  pub lists_nodes : get "nodes" plan.topology ≡ some (list (node_items nodes))
  pub names_run : plan.runtime_id ≡ o.runtime_id
  pub is_dry : plan.dry_run_only ≡ true

-- What the commands of a plan start: Ray on the head, then on each worker, in their order, and at last
-- the server, with the plan's environment and what vLLM adds to it
abbrev pub PlanStarts : ModelProfile → PlanOptions → List ClusterNode → ClusterLaunchPlan → Type 0
PlanStarts profile o [] plan = ⊥
PlanStarts profile o (head ∷ workers) plan =
    let s : Shared = record {
      tensor_parallel_size = sum_gpus (head ∷ workers);
      environment = plan.environment;
      head_ip = text_or o.head_ip head.fabric_ip;
      ray_port = o.ray_port;
      runtime_id = o.runtime_id;
      venv = o.venv;
    } in
    (first : ClusterLaunchCommand) × (others : List ClusterLaunchCommand)
    × (last : ClusterLaunchCommand) × (environment : List String) × (plan.commands
        ≡ first ∷ others ++ last ∷ [])
    × (normalize_env_assignments (plan.environment ++ default_cluster_vllm_runtime_env)
        ≡ ok environment)
    × StartsHead s first
    × PairByPair (StartsWorker s) workers others
    × StartsServer profile s o.serve (suc (length workers)) environment last

plan_of-PlanStarts :
    (host : Host) (profile : ModelProfile) (topology : ClusterTopology) (node_count : ℤ)
    (o : PlanOptions) (head : ClusterNode) (workers : List ClusterNode)
    (environment serve_environment : List String) (commands : List ClusterLaunchCommand)
    → normalize_env_assignments (environment ++ default_cluster_vllm_runtime_env)
      ≡ ok serve_environment
    → commands
      ≡ head_command (shared_of o head (head ∷ workers) environment) head
          ∷ worker_commands (shared_of o head (head ∷ workers) environment) 1 workers
        ++ serve_command
            (shared_of o head (head ∷ workers) environment)
            head
            (suc (length workers))
            serve_environment
            (build_vllm_serve_args host profile (sum_gpus (head ∷ workers)) "0.0.0.0" o.serve)
          ∷ []
    → PlanStarts profile o
        (head ∷ workers)
        (plan_of host o profile topology node_count head (head ∷ workers) environment commands)
unfolding plan_of shared_of
plan_of-PlanStarts host profile topology node_count o head workers environment serve_environment
      commands e f =
    let s = shared_of o head (head ∷ workers) environment in
    (
      _,
      _,
      _,
      serve_environment,
      f,
      e,
      head_command-StartsHead s head,
      worker_commands-StartsWorker s 1 workers,
      serve_command-StartsServer host profile s o.serve head (suc (length workers))
          serve_environment,
    )

plan_of-IsPlan :
    (host : Host) (profile : ModelProfile) (topology : ClusterTopology) (node_count : ℤ)
    (o : PlanOptions) (head : ClusterNode) (nodes : List ClusterNode) (environment : List String)
    (commands : List ClusterLaunchCommand)
    → All IsUsable nodes
    → map outline commands ≡ plan_outline nodes
    → IsTransport
        (profile_items o.transport_profile o.fabric_cidr o.runtime_id)
        (items_or_none o.extra_env)
        (iface_items o.fabric_iface)
        environment
    → IsPlan o nodes (plan_of host o profile topology node_count head nodes environment commands)
unfolding plan_of
plan_of-IsPlan host profile topology node_count o head nodes environment commands us e t = record {
  ordered = e;
  transports = t;
  adds_gpus = refl;
  shards = sum_gpus-le nodes us;
  lists_nodes = unfold get in unfold topology_payload in refl;
  names_run = refl;
  is_dry = refl;
}

build_step :
    (host : Host) (profile : ModelProfile) (topology : ClusterTopology) (node_count : ℤ)
    (o : PlanOptions) (head : ClusterNode) (nodes : List ClusterNode) (environment : List String)
    (commands : List ClusterLaunchCommand)
    → select_nodes node_count topology ≡ ok nodes
    → first_node nodes ≡ ok head
    → transport_environment o.transport_profile o.fabric_iface o.fabric_cidr o.runtime_id
        o.extra_env
      ≡ ok environment
    → build_commands host profile o.serve (shared_of o head nodes environment) nodes ≡ ok commands
    → build_cluster_launch_plan host profile topology node_count o
      ≡ ok (plan_of host o profile topology node_count head nodes environment commands)
unfolding build_cluster_launch_plan
build_step host profile topology node_count o head nodes environment commands e f g h =
    rw (e, f, g, h) refl

-- With nodes that can be selected, a supported transport profile and extra items that are all
-- `KEY=VALUE`, a plan is returned. Its commands are `ray start --head` on the head with rank 0, then on
-- each worker, with its rank, a `ray start` that joins the head from the worker's address, and at last, on
-- the head, `vllm serve` with the model, once Ray is up on all nodes. A shell reads the addresses and the
-- words of the server as they were given. Its environment holds the transport's settings.
-- Its tensor parallel size is the sum of the nodes' GPUs and at least the number of nodes.
pub build_cluster_launch_plan-IsPlan :
    (host : Host) (profile : ModelProfile) (topology : ClusterTopology) (node_count : ℤ)
    (o : PlanOptions) (nodes : List ClusterNode)
    → select_nodes node_count topology ≡ ok nodes
    → member o.transport_profile supported_transport_profiles ≡ true
    → AreAssignments (items_or_none o.extra_env)
    → (plan : ClusterLaunchPlan) × ((build_cluster_launch_plan host profile topology node_count o
          ≡ ok plan)
        × (IsPlan o nodes plan × PlanStarts profile o nodes plan))
build_cluster_launch_plan-IsPlan host profile topology node_count o [] e f g =
    let s = select_nodes-IsSelected node_count topology [] e in
    absurd (omega (arith, s.at_least_two))
build_cluster_launch_plan-IsPlan host profile topology node_count o (head ∷ workers) e f g =
    let s = select_nodes-IsSelected node_count topology (head ∷ workers) e in
    let (environment, (t, is)) =
      transport_environment-IsTransport o.transport_profile o.fabric_iface o.fabric_cidr
        o.runtime_id o.extra_env f g in
    let (serve_environment, commands, n, made, b, order) =
      build_commands_total host profile o.serve (shared_of o head (head ∷ workers) environment) head
        workers (unfold shared_of in is.checks) in
    (
      _,
      (
        build_step host profile topology node_count o head (head ∷ workers) environment commands e
            (unfold first_node in refl) t b,
        (
          plan_of-IsPlan host profile topology node_count o head (head ∷ workers) environment
              commands s.usable order is,
          plan_of-PlanStarts host profile topology node_count o head workers environment
              serve_environment commands (unfold shared_of in n) (unfold shared_of in made),
        ),
      ),
    )
