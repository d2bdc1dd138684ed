-- ===== src/Cluster/Tests.antt =====
-- Runs of the planning of clusters, and its theorems at concrete inputs.
use gemma_4_31b_mtp_v_llm_se.Prelude.{
  String, true, false, ◌≡◌, refl, none, some, List, [], ◌∷◌, ◌++◌, map, PairByPair,
}
use gemma_4_31b_mtp_v_llm_se.Prelude.Text.{codes}
use gemma_4_31b_mtp_v_llm_se.Json.{
  ℤ, pos, negsuc, fraction, Value, str, int, dict, list, no_items, item, no_entries, entry,
}
use gemma_4_31b_mtp_v_llm_se.Cluster.Outcome.{ok, raised, not_an_assignment, too_few_nodes}
use gemma_4_31b_mtp_v_llm_se.Cluster.Shell.{shlex_quote, shlex_join, int_text}
use gemma_4_31b_mtp_v_llm_se.Cluster.Shell.Words.{shell_words}
use gemma_4_31b_mtp_v_llm_se.Cluster.Serial.{Host, dumps, repr_str}
use gemma_4_31b_mtp_v_llm_se.Cluster.Topology.{ClusterNode, ClusterTopology, select_nodes}
use gemma_4_31b_mtp_v_llm_se.Cluster.Environment.{
  normalize_env_assignments, transport_environment, env_prefix, profile_items, iface_items, member,
  supported_transport_profiles, is_assignment, items_or_none,
}
use gemma_4_31b_mtp_v_llm_se.Cluster.Commands.{ModelProfile, ServeOptions, build_vllm_serve_args}
use gemma_4_31b_mtp_v_llm_se.Cluster.Plan.{
  ClusterLaunchPlan, PlanOptions, build_cluster_launch_plan,
}
use gemma_4_31b_mtp_v_llm_se.Cluster.Topology.Selection.{Selects, select_nodes_lem}
use gemma_4_31b_mtp_v_llm_se.Cluster.Environment.Normalize.{
  AreAssignments, IsNormalized, normalize_env_assignments_lem,
}
use gemma_4_31b_mtp_v_llm_se.Cluster.Environment.Transport.{
  IsTransport, transport_environment-IsTransport,
}
use gemma_4_31b_mtp_v_llm_se.Cluster.Commands.Reading.{env_prefix-words}
use gemma_4_31b_mtp_v_llm_se.Cluster.Plan.Built.{
  IsPlan, PlanStarts, build_cluster_launch_plan-IsPlan,
}
use gemma_4_31b_mtp_v_llm_se.Cluster.Execution.Follows.{
  Follows, build_cluster_execution_commands-Follows,
}
use gemma_4_31b_mtp_v_llm_se.Cluster.Execution.Rollback.{
  Stops, backwards, build_cluster_rollback_commands-Stops,
}
use Prim.Native.String.{◌++◌ as ◌<>◌}
use gemma_4_31b_mtp_v_llm_se.Cluster.Execution.{
  ClusterExecutionCommand, SshOptions, build_cluster_execution_commands,
  build_cluster_rollback_commands, background_remote_command,
}

-- `normalize_env_assignments(["A=1", "B=2", "A=3"])`
later_wins : normalize_env_assignments ("A=1" ∷ "B=2" ∷ "A=3" ∷ []) ≡ ok ("A=3" ∷ "B=2" ∷ [])
unfolding normalize_env_assignments
later_wins = refl

no_key_refused : normalize_env_assignments ("A=1" ∷ "=2" ∷ []) ≡ raised (not_an_assignment "=2")
unfolding normalize_env_assignments
no_key_refused = refl

quoted : shlex_quote "it's" ≡ "'it'\"'\"'s'"
unfolding shlex_quote
quoted = refl

number : int_text (negsuc 6378) ≡ "-6379"
unfolding int_text
number = refl

dumped :
    dumps true
      (λ f. "")
      (dict (entry "b" (int (pos 1)) (entry "a" (list (item (str "é\n") no_items)) no_entries)))
    ≡ "{\"a\":[\"\\u00e9\\n\"],\"b\":1}"
unfolding dumps
dumped = refl

repr_with_mark : repr_str "it's" ≡ "\"it's\""
unfolding repr_str
repr_with_mark = refl

detached :
    background_remote_command "serve x" "runs//r-1/./vllm-serve.n1.log"
    ≡ "mkdir -p runs/r-1 && if [ -e runs//r-1/./vllm-serve.n1.log ]; then mv runs//r-1/./vllm-serve.n1.log runs/r-1/vllm-serve.n1-$(date -u +%Y%m%dT%H%M%SZ).log; fi; nohup setsid bash -lc 'serve x' > runs//r-1/./vllm-serve.n1.log 2>&1 < /dev/null & echo $! > runs/r-1/vllm-serve.n1.pid; disown; cat runs/r-1/vllm-serve.n1.pid"
unfolding background_remote_command shlex_quote
detached = refl

-- A host with some floats and some digests
abbrev host : Host
host = record { float_repr = λ f. "0.85"; sha256_hex = λ text. "ab"; value_text = λ v. "" }

abbrev node : String → String → ℤ → ClusterNode
node name ip gpus = record { name = name; fabric_ip = ip; gpus = gpus }

abbrev two_nodes : List ClusterNode
two_nodes = node "n1" "198.51.100.1" (pos 1) ∷ node "n2" "198.51.100.2" (pos 2) ∷ []

abbrev lab : ClusterTopology
lab = record { id = "lab"; label = "Lab"; nodes = two_nodes ++ node "n3" "" (pos 1) ∷ [] }

abbrev profile : ModelProfile
profile = record {
  name = "default";
  target = "google/gemma";
  drafter = "google/drafter";
  num_speculative_tokens = pos 4;
  tensor_parallel_size = pos 1;
  gpu_memory_utilization = fraction (pos 17) 19;
  max_model_len = pos 8192;
  temperature = fraction (pos 1) 0;
  top_p = fraction (pos 1) 0;
  top_k = pos 64;
  requires_vram_gb = pos 80;
  cpu_offload_gb = fraction (pos 0) 0;
  max_num_seqs = none;
  max_num_batched_tokens = some (pos 4096);
  enforce_eager = false;
  language_model_only = true;
  validation_level = "unverified";
  max_output_tokens = pos 4096;
  quantization = none;
  kv_cache_dtype = some "fp8";
}

abbrev serve : ServeOptions
serve = record {
  port = pos 8000;
  vllm_bin = "vllm";
  model_path = none;
  served_model_name = some "it's gemma";
  max_model_len = some (pos 0);
  gpu_memory_utilization = none;
  max_num_seqs = some (pos 8);
  max_num_batched_tokens = none;
  enable_mtp = true;
}

abbrev options : PlanOptions
options = record {
  runtime_id = "r-1";
  transport_profile = "roce-a";
  head_ip = none;
  fabric_iface = some "fabric0";
  fabric_cidr = "198.51.100.0/24";
  ray_port = pos 6379;
  venv = some "/opt/venv";
  extra_env = some ("NCCL_IB_DISABLE=1" ∷ "NOTE=a b" ∷ []);
  serve = serve;
}

abbrev ssh : SshOptions
ssh = record {
  ssh_bin = "ssh";
  ssh_user = some "ops";
  ssh_options = [];
  ssh_host_field = "fabric-ip";
}

serve_args :
    build_vllm_serve_args host profile (pos 3) "0.0.0.0" serve
    ≡ "vllm" ∷ "serve" ∷ "google/gemma" ∷ "--host" ∷ "0.0.0.0" ∷ "--port" ∷ "8000"
      ∷ "--tensor-parallel-size" ∷ "3" ∷ "--distributed-executor-backend" ∷ "ray"
      ∷ "--max-model-len" ∷ "8192" ∷ "--gpu-memory-utilization" ∷ "0.85" ∷ "--cpu-offload-gb" ∷ "0"
      ∷ "--reasoning-parser" ∷ "gemma4" ∷ "--max-num-seqs" ∷ "8" ∷ "--max-num-batched-tokens"
      ∷ "4096" ∷ "--language-model-only" ∷ "--kv-cache-dtype" ∷ "fp8" ∷ "--served-model-name"
      ∷ "it's gemma" ∷ "--speculative-config"
      ∷ "{\"method\":\"mtp\",\"model\":\"google/drafter\",\"num_speculative_tokens\":4}" ∷ []
unfolding build_vllm_serve_args int_text
serve_args = refl

selected : select_nodes (pos 2) lab ≡ ok two_nodes
unfolding select_nodes
selected = refl

too_many : select_nodes (pos 4) lab ≡ raised (too_few_nodes "lab")
unfolding select_nodes
too_many = refl

supported : member "roce-a" supported_transport_profiles ≡ true
unfolding member
supported = refl

extra_right : AreAssignments (items_or_none options.extra_env)
unfolding is_assignment
extra_right = (refl, (refl, tt))

lab_built :
    (plan : ClusterLaunchPlan) × ((build_cluster_launch_plan host profile lab (pos 2) options
        ≡ ok plan)
      × (IsPlan options two_nodes plan × PlanStarts profile options two_nodes plan))
lab_built =
    build_cluster_launch_plan-IsPlan host profile lab (pos 2) options two_nodes selected supported
      extra_right

normalize_env_assignments_lem_example :
    IsNormalized
      ("A=1" ∷ "B=2" ∷ "A=3" ∷ [])
      (normalize_env_assignments ("A=1" ∷ "B=2" ∷ "A=3" ∷ []))
normalize_env_assignments_lem_example = normalize_env_assignments_lem ("A=1" ∷ "B=2" ∷ "A=3" ∷ [])

transport_environment-IsTransport_example :
    (environment : List String) × ((transport_environment "roce-a"
          (some "fabric0")
          "198.51.100.0/24"
          "r-1"
          options.extra_env
        ≡ ok environment)
      × IsTransport
          (profile_items "roce-a" "198.51.100.0/24" "r-1")
          ("NCCL_IB_DISABLE=1" ∷ "NOTE=a b" ∷ [])
          (iface_items (some "fabric0"))
          environment)
transport_environment-IsTransport_example =
    transport_environment-IsTransport "roce-a" (some "fabric0") "198.51.100.0/24" "r-1"
      options.extra_env supported extra_right

select_nodes_lem_example : Selects (pos 3) lab (select_nodes (pos 3) lab)
select_nodes_lem_example = select_nodes_lem (pos 3) lab

-- A topology as the file holds it, with one count for all nodes and one node's own
abbrev lab_config : Value
lab_config = dict (
    entry "gpus_per_node" (int (pos 1)) (
      entry "nodes"
        (list (
          item (dict (entry "name" (str "n1") (entry "fabric_ip" (str "198.51.100.1") no_entries)))
            (item
              (dict (
                entry "name" (str "n2")
                  (entry "fabric_ip" (str "198.51.100.2") (entry "gpus" (int (pos 2)) no_entries))))
              no_items)))
        no_entries))

build_cluster_launch_plan-IsPlan_example :
    (plan : ClusterLaunchPlan) × ((build_cluster_launch_plan host profile lab (pos 2) options
        ≡ ok plan)
      × (IsPlan options two_nodes plan × PlanStarts profile options two_nodes plan))
build_cluster_launch_plan-IsPlan_example =
    build_cluster_launch_plan-IsPlan host profile lab (pos 2) options two_nodes selected supported
      extra_right

build_cluster_execution_commands-Follows_example :
    (commands : List ClusterExecutionCommand) × ((build_cluster_execution_commands lab_built.0 ssh
          "runs"
        ≡ ok commands)
      × PairByPair (Follows ssh two_nodes) lab_built.0.commands commands)
build_cluster_execution_commands-Follows_example =
    build_cluster_execution_commands-Follows options two_nodes lab_built.0 ssh "runs"
      lab_built.1.1.0 refl

build_cluster_rollback_commands-Stops_example :
    (commands : List ClusterExecutionCommand) × ((build_cluster_rollback_commands lab_built.0 ssh
        ≡ ok commands)
      × ((map (λ (e : ClusterExecutionCommand). e.rank) commands ≡ 0 ∷ 1 ∷ [])
          × PairByPair (Stops ssh two_nodes) (backwards two_nodes) commands))
build_cluster_rollback_commands-Stops_example =
    build_cluster_rollback_commands-Stops options two_nodes lab_built.0 ssh lab_built.1.1.0 refl

env_prefix-words_example :
    shell_words (
      env_prefix ("NCCL_DEBUG_FILE=${GEMMA4_MTP_RUN_ROOT:-runs}/log" ∷ [])
      <> shlex_join ("vllm" ∷ "serve" ∷ []))
    ≡ some (
        codes "env"
        ∷ codes "NCCL_DEBUG_FILE=${GEMMA4_MTP_RUN_ROOT:-runs}/log"
        ∷ codes "vllm"
        ∷ codes "serve"
        ∷ [])
env_prefix-words_example =
    env_prefix-words "NCCL_DEBUG_FILE=${GEMMA4_MTP_RUN_ROOT:-runs}/log" [] "vllm" ("serve" ∷ [])
