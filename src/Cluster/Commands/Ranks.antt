-- ===== src/Cluster/Commands/Ranks.antt =====
-- Which node each command of a plan is for, in which role and with which rank.
use gemma_4_31b_mtp_v_llm_se.Prelude.{
  ℕ, suc, String, ◌≡◌, refl, ap, ◌∙◌, List, [], ◌∷◌, ◌++◌, map, All-append, length,
}
use gemma_4_31b_mtp_v_llm_se.Cluster.Outcome.{ok}
use gemma_4_31b_mtp_v_llm_se.Cluster.Serial.{Host}
use gemma_4_31b_mtp_v_llm_se.Cluster.Topology.{ClusterNode}
use gemma_4_31b_mtp_v_llm_se.Cluster.Environment.{is_assignment, normalize_env_assignments}
use gemma_4_31b_mtp_v_llm_se.Cluster.Environment.Normalize.{AreAssignments, normalize_total}
use gemma_4_31b_mtp_v_llm_se.Cluster.Commands.{
  ModelProfile, ServeOptions, Shared, ClusterLaunchCommand, default_cluster_vllm_runtime_env,
  head_command, worker_commands, serve_command, build_vllm_serve_args, build_commands,
}

pub record Outline : Type 0 where
  pub target : String
  pub role : String
  pub rank : ℕ

abbrev pub outline : ClusterLaunchCommand → Outline
outline c = record { target = c.target; role = c.role; rank = c.rank }

abbrev at : String → ClusterNode → ℕ → Outline
at role node rank = record { target = node.name; role = role; rank = rank }

abbrev pub numbered : ℕ → List ClusterNode → List Outline
numbered rank [] = []
numbered rank (node ∷ nodes) = at "ray-worker" node rank ∷ numbered (suc rank) nodes

-- First the head starts, then the workers in the order of their ranks, then the server on the head.
abbrev pub plan_outline : List ClusterNode → List Outline
plan_outline [] = []
plan_outline (head ∷ workers) =
    at "ray-head" head 0 ∷ numbered 1 workers ++ at "vllm-serve" head 0 ∷ []

map-append {ℓ κ} :
    {A : Type ℓ} {B : Type κ} (f : A → B) (xs ys : List A) → map f (xs ++ ys) ≡ map f xs ++ map f ys
map-append f [] ys = refl
map-append f (x ∷ xs) ys = ap (λ r. f x ∷ r) (map-append f xs ys)

worker_commands-numbered :
    (s : Shared) (rank : ℕ) (nodes : List ClusterNode)
    → map outline (worker_commands s rank nodes) ≡ numbered rank nodes
unfolding worker_commands
worker_commands-numbered s rank [] = refl
worker_commands-numbered s rank (node ∷ nodes) =
    ap (λ r. at "ray-worker" node rank ∷ r) (worker_commands-numbered s (suc rank) nodes)

runtime_env-AreAssignments : AreAssignments default_cluster_vllm_runtime_env
unfolding is_assignment
runtime_env-AreAssignments = (refl, (refl, (refl, (refl, tt))))

build_commands_step :
    (host : Host) (profile : ModelProfile) (options : ServeOptions) (s : Shared)
    (head : ClusterNode) (workers : List ClusterNode) (serve_environment : List String)
    → normalize_env_assignments (s.environment ++ default_cluster_vllm_runtime_env)
      ≡ ok serve_environment
    → build_commands host profile options s (head ∷ workers)
      ≡ ok (
          head_command s head ∷ worker_commands s 1 workers
          ++ serve_command s head
              (suc (length workers))
              serve_environment
              (build_vllm_serve_args host profile s.tensor_parallel_size "0.0.0.0" options)
            ∷ [])
unfolding build_commands
build_commands_step host profile options s head workers serve_environment e = rw e refl

commands-outline :
    (s : Shared) (head : ClusterNode) (workers : List ClusterNode) (count : ℕ)
    (environment args : List String)
    → map outline (
        head_command s head ∷ worker_commands s 1 workers
        ++ serve_command s head count environment args ∷ [])
      ≡ plan_outline (head ∷ workers)
unfolding head_command serve_command
commands-outline s head workers count environment args =
    ap (λ r. at "ray-head" head 0 ∷ r)
      (map-append outline (worker_commands s 1 workers)
          (serve_command s head count environment args ∷ [])
        ∙ ap (λ r. r ++ at "vllm-serve" head 0 ∷ []) (worker_commands-numbered s 1 workers))

-- With an environment of assignments the commands are built.
pub build_commands_total :
    (host : Host) (profile : ModelProfile) (options : ServeOptions) (s : Shared)
    (head : ClusterNode) (workers : List ClusterNode)
    → AreAssignments s.environment
    → (environment : List String) × (commands : List ClusterLaunchCommand)
      × (normalize_env_assignments (s.environment ++ default_cluster_vllm_runtime_env)
          ≡ ok environment)
      × (commands
          ≡ head_command s head ∷ worker_commands s 1 workers
            ++ serve_command s head
                (suc (length workers))
                environment
                (build_vllm_serve_args host profile s.tensor_parallel_size "0.0.0.0" options)
              ∷ [])
      × (build_commands host profile options s (head ∷ workers) ≡ ok commands)
      × (map outline commands ≡ plan_outline (head ∷ workers))
build_commands_total host profile options s head workers h =
    let (environment, (e, n)) =
      normalize_total (s.environment ++ default_cluster_vllm_runtime_env) (
        All-append _ s.environment default_cluster_vllm_runtime_env h runtime_env-AreAssignments) in
    (
      environment,
      _,
      e,
      refl,
      build_commands_step host profile options s head workers environment e,
      commands-outline s head workers (suc (length workers)) environment
          (build_vllm_serve_args host profile s.tensor_parallel_size "0.0.0.0" options),
    )
