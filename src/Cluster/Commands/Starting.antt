-- ===== src/Cluster/Commands/Starting.antt =====
-- What the commands of a plan start, as a shell reads them.
use gemma_4_31b_mtp_v_llm_se.Prelude.{
  ℕ, suc, String, ◌≡◌, refl, some, List, [], ◌∷◌, map, PairByPair,
}
use gemma_4_31b_mtp_v_llm_se.Prelude.Text.{codes}
use gemma_4_31b_mtp_v_llm_se.Cluster.Shell.{shlex_quote, shlex_join, int_text}
use gemma_4_31b_mtp_v_llm_se.Cluster.Shell.Words.{shell_words}
use gemma_4_31b_mtp_v_llm_se.Cluster.Shell.RoundTrip.{shell_words-join}
use gemma_4_31b_mtp_v_llm_se.Cluster.Serial.{Host}
use gemma_4_31b_mtp_v_llm_se.Cluster.Topology.{ClusterNode}
use gemma_4_31b_mtp_v_llm_se.Cluster.Environment.{env_prefix, cluster_log_preamble}
use gemma_4_31b_mtp_v_llm_se.Cluster.Commands.{
  ModelProfile, ServeOptions, Shared, ClusterLaunchCommand, with_venv, ray_wait_code, text_or,
  head_command, worker_command, worker_commands, serve_command, build_vllm_serve_args,
}
use gemma_4_31b_mtp_v_llm_se.Cluster.Commands.Reading.{quote-words}
use Prim.Native.String.{◌++◌ as ◌<>◌}

-- Behind the virtual environment and the settings of the log
abbrev RunsBehind : Shared → ClusterLaunchCommand → String → Type 0
RunsBehind s c line =
    c.command ≡ with_venv (cluster_log_preamble s.environment s.runtime_id <> line) s.venv

-- `text` is the word as a shell reads it.
abbrev IsWord : String → String → Type 0
IsWord text word = shell_words text ≡ some (codes word ∷ [])

-- `ray start --head` on the address of the head
abbrev pub StartsHead : Shared → ClusterLaunchCommand → Type 0
StartsHead s c =
    (ip : String) × IsWord ip s.head_ip
    × RunsBehind s c (
        env_prefix s.environment
        <> ("ray start --head --node-ip-address=" <> (ip <> (" --port=" <> int_text s.ray_port))))

-- `ray start` that joins the head, on the address of the node
abbrev pub StartsWorker : Shared → ClusterNode → ClusterLaunchCommand → Type 0
StartsWorker s node c =
    (ip : String) × (own : String) × IsWord ip s.head_ip
    × IsWord own node.fabric_ip
    × RunsBehind s c (
        env_prefix s.environment
        <> ("ray start --address="
            <> (ip <> (":" <> (int_text s.ray_port <> (" --node-ip-address=" <> own))))))

-- The words that start the server
abbrev pub ServeWords : ModelProfile → Shared → ServeOptions → List String → Type 0
ServeWords profile s o args =
    (rest : List String) × (args
      ≡ o.vllm_bin
        ∷ "serve"
        ∷ text_or o.model_path profile.target
        ∷ "--host"
        ∷ "0.0.0.0"
        ∷ "--port"
        ∷ int_text o.port
        ∷ "--tensor-parallel-size"
        ∷ int_text s.tensor_parallel_size
        ∷ "--distributed-executor-backend"
        ∷ "ray"
        ∷ rest)

-- Once Ray is up on as many nodes, the server is started with the environment.
abbrev pub StartsServer :
    ModelProfile → Shared → ServeOptions → ℕ → List String → ClusterLaunchCommand → Type 0
StartsServer profile s o count environment c =
    (ip : String) × (code : String) × (line : String) × (args : List String) × IsWord ip s.head_ip
    × IsWord code (ray_wait_code s.head_ip s.ray_port count)
    × (shell_words line ≡ some (map codes args))
    × ServeWords profile s o args
    × RunsBehind s c (
        "ray status --address="
        <> (ip
            <> (":"
                <> (int_text s.ray_port
                    <> (" && "
                        <> (("python3 -c " <> code)
                            <> (" && " <> (env_prefix environment <> line))))))))

pub head_command-StartsHead : (s : Shared) (node : ClusterNode) → StartsHead s (head_command s node)
head_command-StartsHead s node =
    (shlex_quote s.head_ip, quote-words s.head_ip, unfold head_command in refl)

worker_command-StartsWorker :
    (s : Shared) (rank : ℕ) (node : ClusterNode) → StartsWorker s node (worker_command s rank node)
worker_command-StartsWorker s rank node = (
  shlex_quote s.head_ip,
  shlex_quote node.fabric_ip,
  quote-words s.head_ip,
  quote-words node.fabric_ip,
  unfold worker_command in refl,
)

pub worker_commands-StartsWorker :
    (s : Shared) (rank : ℕ) (nodes : List ClusterNode)
    → PairByPair (StartsWorker s) nodes (worker_commands s rank nodes)
unfolding worker_commands
worker_commands-StartsWorker s rank [] = tt
worker_commands-StartsWorker s rank (node ∷ nodes) =
    (worker_command-StartsWorker s rank node, worker_commands-StartsWorker s (suc rank) nodes)

build_vllm_serve_args-ServeWords :
    (host : Host) (profile : ModelProfile) (s : Shared) (o : ServeOptions)
    → ServeWords profile s o (build_vllm_serve_args host profile s.tensor_parallel_size "0.0.0.0" o)
unfolding build_vllm_serve_args
build_vllm_serve_args-ServeWords host profile s o = (_, refl)

pub serve_command-StartsServer :
    (host : Host) (profile : ModelProfile) (s : Shared) (o : ServeOptions) (node : ClusterNode)
    (count : ℕ) (environment : List String)
    → StartsServer profile s o count environment (
        serve_command s node count environment
          (build_vllm_serve_args host profile s.tensor_parallel_size "0.0.0.0" o))
serve_command-StartsServer host profile s o node count environment =
    let args = build_vllm_serve_args host profile s.tensor_parallel_size "0.0.0.0" o in
    (
      shlex_quote s.head_ip,
      shlex_quote (ray_wait_code s.head_ip s.ray_port count),
      shlex_join args,
      args,
      quote-words s.head_ip,
      quote-words (ray_wait_code s.head_ip s.ray_port count),
      shell_words-join args,
      build_vllm_serve_args-ServeWords host profile s o,
      unfold serve_command in refl,
    )
