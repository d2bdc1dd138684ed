-- ===== src/Cluster/Commands.antt =====
-- `_build_commands` of cluster.py, with the helpers that make its texts, and `ModelProfile` of
-- profiles.py. The arguments that the command line gives are records of options.
pub mod Ranks
pub mod Reading
pub mod Starting
use gemma_4_31b_mtp_v_llm_se.Prelude.{
  ℕ, zero, suc, ◌+◌, String, Bool, true, false, Option, none, some, List, [], ◌∷◌, ◌++◌, length,
  if◌then◌else◌,
}
use gemma_4_31b_mtp_v_llm_se.Json.{ℤ, pos, negsuc, Float, Value, str, int, dict, no_entries, entry}
use gemma_4_31b_mtp_v_llm_se.Cluster.Outcome.{Outcome, ok, raised, ◌>>=◌, no_index}
use gemma_4_31b_mtp_v_llm_se.Cluster.Shell.{shlex_quote, shlex_join, decimal, int_text}
use gemma_4_31b_mtp_v_llm_se.Cluster.Serial.{Host, dumps, repr_str, float_truthy, format_float}
use gemma_4_31b_mtp_v_llm_se.Cluster.Topology.{ClusterNode}
use gemma_4_31b_mtp_v_llm_se.Cluster.Environment.{
  normalize_env_assignments, env_prefix, cluster_log_preamble,
}
use Prim.Native.String.{◌++◌ as ◌<>◌}

pub record ModelProfile : Type 0 where
  pub name : String
  pub target : String
  pub drafter : String
  pub num_speculative_tokens : ℤ
  pub tensor_parallel_size : ℤ
  pub gpu_memory_utilization : Float
  pub max_model_len : ℤ
  pub temperature : Float
  pub top_p : Float
  pub top_k : ℤ
  pub requires_vram_gb : ℤ
  pub cpu_offload_gb : Float
  pub max_num_seqs : Option ℤ
  pub max_num_batched_tokens : Option ℤ
  pub enforce_eager : Bool
  pub language_model_only : Bool
  pub validation_level : String
  pub max_output_tokens : ℤ
  pub quantization : Option String
  pub kv_cache_dtype : Option String

-- What both the planner and `_build_vllm_serve_args` are given
pub record ServeOptions : Type 0 where
  pub port : ℤ
  pub vllm_bin : String
  pub model_path : Option String
  pub served_model_name : Option String
  pub max_model_len : Option ℤ
  pub gpu_memory_utilization : Option Float
  pub max_num_seqs : Option ℤ
  pub max_num_batched_tokens : Option ℤ
  pub enable_mtp : Bool

pub record ClusterLaunchCommand : Type 0 where
  pub target : String
  pub role : String
  pub command : String
  pub rank : ℕ

-- `ClusterLaunchCommand.to_dict`
unfoldable pub command_to_dict : ClusterLaunchCommand → Value
command_to_dict c = dict (
    entry "target" (str c.target) (
      entry "role" (str c.role)
        (entry "rank" (int (pos c.rank)) (entry "command" (str c.command) no_entries))))

-- `text or default`, `n or default` and `value or default`
abbrev pub text_or : Option String → String → String
text_or none default = default
text_or (some String.[]) default = default
text_or (some text) default = text

abbrev pub int_or {ℓ} : {A : Type ℓ} → (ℤ → A) → Option ℤ → A → A
int_or given none default = default
int_or given (some (pos zero)) default = default
int_or given (some n) default = given n

unfoldable pub float_or : Option Float → Float → Float
unfolding float_truthy
float_or none default = default
float_or (some f) default = if float_truthy f then f else default

-- `args.extend([flag, str(n)])`, unless n is `None`
abbrev int_flag : String → Option ℤ → List String
int_flag flag none = []
int_flag flag (some n) = flag ∷ int_text n ∷ []

abbrev text_flag : String → Option String → List String
text_flag flag none = []
text_flag flag (some text) = flag ∷ text ∷ []

-- The same for a name that must not be empty
abbrev name_flag : String → Option String → List String
name_flag flag (some String.[]) = []
name_flag flag name = text_flag flag name

abbrev switch : String → Bool → List String
switch flag on = if on then flag ∷ [] else []

-- The value of --speculative-config
unfoldable pub speculative_config : Host → ModelProfile → String
unfolding dumps
speculative_config host profile = dumps false host.float_repr (
    dict (
      entry "method" (str "mtp") (
        entry "model" (str profile.drafter)
          (entry "num_speculative_tokens" (int profile.num_speculative_tokens) no_entries))))

-- `_build_vllm_serve_args`
unfoldable pub build_vllm_serve_args : Host → ModelProfile → ℤ → String → ServeOptions → List String
unfolding float_or format_float speculative_config
build_vllm_serve_args host profile tensor_parallel_size address o =
    (o.vllm_bin
      ∷ "serve"
      ∷ text_or o.model_path profile.target
      ∷ "--host"
      ∷ address
      ∷ "--port"
      ∷ int_text o.port
      ∷ "--tensor-parallel-size"
      ∷ int_text tensor_parallel_size
      ∷ "--distributed-executor-backend"
      ∷ "ray"
      ∷ "--max-model-len"
      ∷ int_text (int_or (λ n. n) o.max_model_len profile.max_model_len)
      ∷ "--gpu-memory-utilization"
      ∷ format_float host (float_or o.gpu_memory_utilization profile.gpu_memory_utilization)
      ∷ "--cpu-offload-gb"
      ∷ format_float host profile.cpu_offload_gb
      ∷ "--reasoning-parser"
      ∷ "gemma4"
      ∷ [])
    ++ int_flag "--max-num-seqs" (int_or some o.max_num_seqs profile.max_num_seqs)
    ++ int_flag "--max-num-batched-tokens"
        (int_or some o.max_num_batched_tokens profile.max_num_batched_tokens)
    ++ switch "--enforce-eager" profile.enforce_eager
    ++ switch "--language-model-only" profile.language_model_only
    ++ text_flag "--quantization" profile.quantization
    ++ text_flag "--kv-cache-dtype" profile.kv_cache_dtype
    ++ name_flag "--served-model-name" o.served_model_name
    ++ (if o.enable_mtp then "--speculative-config" ∷ speculative_config host profile ∷ [] else [])

-- `_with_venv`
unfoldable pub with_venv : String → Option String → String
with_venv command none = command
with_venv command (some String.[]) = command
with_venv command (some venv) = "source " <> shlex_quote venv <> "/bin/activate && " <> command

-- The program that `_ray_wait_command` hands to python3
unfoldable pub ray_wait_code : String → ℤ → ℕ → String
unfolding repr_str
ray_wait_code head_ip ray_port expected_nodes =
    "import ray, sys, time\n"
    <> "ray.init(address="
    <> repr_str (head_ip <> ":" <> int_text ray_port)
    <> ", ignore_reinit_error=True)\n"
    <> "deadline = time.time() + 180\n"
    <> "while time.time() < deadline:\n"
    <> "    alive = [node for node in ray.nodes() if node.get('Alive')]\n"
    <> "    if len(alive) >= "
    <> decimal expected_nodes
    <> ":\n"
    <> "        print(f'ray_ready alive_nodes={len(alive)}')\n"
    <> "        ray.shutdown()\n"
    <> "        sys.exit(0)\n"
    <> "    time.sleep(2)\n"
    <> "alive = [node for node in ray.nodes() if node.get('Alive')]\n"
    <> "print(f'ray_not_ready alive_nodes={len(alive)}')\n"
    <> "ray.shutdown()\n"
    <> "sys.exit(1)\n"

-- `_ray_wait_command`
unfoldable pub ray_wait_command : String → ℤ → ℕ → String
unfolding ray_wait_code
ray_wait_command head_ip ray_port expected_nodes =
    "python3 -c " <> shlex_quote (ray_wait_code head_ip ray_port expected_nodes)

abbrev pub default_cluster_vllm_runtime_env : List String
default_cluster_vllm_runtime_env =
    "VLLM_WORKER_MULTIPROC_METHOD=spawn" ∷ "SAFETENSORS_FAST_GPU=1" ∷ "NVIDIA_TF32_OVERRIDE=1"
    ∷ "VLLM_LOGGING_LEVEL=INFO" ∷ []

-- What the commands of one plan share
pub record Shared : Type 0 where
  pub tensor_parallel_size : ℤ
  pub environment : List String
  pub head_ip : String
  pub ray_port : ℤ
  pub runtime_id : String
  pub venv : Option String

unfoldable pub head_command : Shared → ClusterNode → ClusterLaunchCommand
unfolding with_venv env_prefix cluster_log_preamble
head_command s node = record {
  target = node.name;
  role = "ray-head";
  rank = 0;
  command =
      with_venv
        (cluster_log_preamble s.environment s.runtime_id
          <> env_prefix s.environment
          <> "ray start --head --node-ip-address="
          <> shlex_quote s.head_ip
          <> " --port="
          <> int_text s.ray_port)
        s.venv;
}

unfoldable pub worker_command : Shared → ℕ → ClusterNode → ClusterLaunchCommand
unfolding with_venv env_prefix cluster_log_preamble
worker_command s rank node = record {
  target = node.name;
  role = "ray-worker";
  rank = rank;
  command =
      with_venv
        (cluster_log_preamble s.environment s.runtime_id
          <> env_prefix s.environment
          <> "ray start --address="
          <> shlex_quote s.head_ip
          <> ":"
          <> int_text s.ray_port
          <> " --node-ip-address="
          <> shlex_quote node.fabric_ip)
        s.venv;
}

-- `for rank, node in enumerate(nodes[1:], start=rank)`
unfoldable pub worker_commands : Shared → ℕ → List ClusterNode → List ClusterLaunchCommand
unfolding worker_command
worker_commands s rank [] = []
worker_commands s rank (node ∷ nodes) =
    worker_command s rank node ∷ worker_commands s (suc rank) nodes

unfoldable pub serve_command :
    Shared → ClusterNode → ℕ → List String → List String → ClusterLaunchCommand
unfolding with_venv env_prefix cluster_log_preamble ray_wait_command shlex_join
serve_command s node expected_nodes serve_environment serve_args = record {
  target = node.name;
  role = "vllm-serve";
  rank = 0;
  command =
      with_venv
        (cluster_log_preamble s.environment s.runtime_id
          <> "ray status --address="
          <> shlex_quote s.head_ip
          <> ":"
          <> int_text s.ray_port
          <> " && "
          <> ray_wait_command s.head_ip s.ray_port expected_nodes
          <> " && "
          <> env_prefix serve_environment
          <> shlex_join serve_args)
        s.venv;
}

-- `_build_commands`, with the list of what it yields
unfoldable pub build_commands :
    Host
    → ModelProfile
    → ServeOptions
    → Shared
    → List ClusterNode
    → Outcome (List ClusterLaunchCommand)
unfolding head_command worker_commands serve_command normalize_env_assignments build_vllm_serve_args
build_commands host profile options s [] = raised no_index
build_commands host profile options s (head ∷ workers) =
    normalize_env_assignments (s.environment ++ default_cluster_vllm_runtime_env)
    >>= λ serve_environment. ok (
        head_command s head ∷ worker_commands s 1 workers
        ++ serve_command s head (suc (length workers)) serve_environment
            (build_vllm_serve_args host profile s.tensor_parallel_size "0.0.0.0" options)
          ∷ [])
