-- ===== src/Cluster/Execution/Follows.antt =====
-- The commands that carry out a plan, one for each of its commands.
use gemma_4_31b_mtp_v_llm_se.Prelude.{
  ℕ, suc, String, Bool, true, false, ◌≡◌, refl, sym, ◌∙◌, subst, Option, none, some, List, [], ◌∷◌,
  map, All, All-append, All-weaken, PairByPair, eq_refl, if◌then◌else◌,
}
use gemma_4_31b_mtp_v_llm_se.Cluster.Outcome.{ok, each, each_total}
use gemma_4_31b_mtp_v_llm_se.Cluster.Topology.{ClusterNode}
use gemma_4_31b_mtp_v_llm_se.Cluster.Environment.{lookup}
use gemma_4_31b_mtp_v_llm_se.Cluster.Environment.Latest.{is_some, or_later}
use gemma_4_31b_mtp_v_llm_se.Cluster.Commands.{ClusterLaunchCommand}
use gemma_4_31b_mtp_v_llm_se.Cluster.Commands.Ranks.{Outline, outline, numbered, plan_outline}
use gemma_4_31b_mtp_v_llm_se.Cluster.Plan.{ClusterLaunchPlan, PlanOptions}
use gemma_4_31b_mtp_v_llm_se.Cluster.Plan.Built.{IsPlan}
use gemma_4_31b_mtp_v_llm_se.Cluster.Execution.{
  ClusterExecutionCommand, SshOptions, host_of, with_user, execution_command, execute_one,
  execution_hosts, is_host_field, build_cluster_execution_commands,
}
use gemma_4_31b_mtp_v_llm_se.Cluster.Execution.Hosts.{address, host_named, execution_hosts_lem}
use text.Mathlib.Text.{◌==◌ as str_eq}
use gemma_4_31b_mtp_v_llm_se.Cluster.Execution.Remote.{
  Runs, Connects, remote_command-Runs, ssh_argv-Connects,
}

-- How a command on a host follows a command of the plan
pub record Follows (o : SshOptions) (nodes : List ClusterNode) (c : ClusterLaunchCommand)
    (e : ClusterExecutionCommand) : Type 0 where
  pub same_target : e.target ≡ c.target
  pub same_role : e.role ≡ c.role
  pub same_rank : e.rank ≡ c.rank
  pub logs_in :
      (host : String) × ((host_named o.ssh_host_field c.target nodes ≡ some host)
        × (e.ssh_host ≡ with_user o.ssh_user host))
  pub detaches : e.background ≡ str_eq c.role "vllm-serve"
  pub logs : is_some e.log_path ≡ e.background
  pub runs : Runs c e.log_path e.remote_command
  pub connects : Connects o e.ssh_host e.remote_command e.argv

some_if : (b : Bool) (text : String) → is_some (if b then some text else none) ≡ b
some_if true text = refl
some_if false text = refl

execution_command-Follows :
    (o : SshOptions) (run_root runtime_id : String) (nodes : List ClusterNode)
    (c : ClusterLaunchCommand) (host : String)
    → host_named o.ssh_host_field c.target nodes ≡ some host
    → Follows o nodes c (execution_command o run_root runtime_id c host)
unfolding execution_command
execution_command-Follows o run_root runtime_id nodes c host h = record {
  same_target = refl;
  same_role = refl;
  same_rank = refl;
  logs_in = (host, (h, refl));
  detaches = refl;
  logs = some_if (str_eq c.role "vllm-serve") _;
  runs = remote_command-Runs run_root runtime_id c;
  connects = ssh_argv-Connects o _ _;
}

-- The target of each command is the name of a node.
abbrev pub Named : String → List ClusterNode → String → Type 0
Named host_field nodes name = (host : String) × (host_named host_field name nodes ≡ some host)

later_some :
    (o : Option String) (now : String) → (host : String) × (or_later o (some now) ≡ some host)
later_some none now = (now, refl)
later_some (some host) now = (host, refl)

Named-head :
    (host_field : String) (node : ClusterNode) (nodes : List ClusterNode)
    → Named host_field (node ∷ nodes) node.name
Named-head host_field node nodes =
    rw (eq_refl node.name)
      (later_some (host_named host_field node.name nodes) (address host_field node))

Named-tail :
    (host_field : String) (node : ClusterNode) (nodes : List ClusterNode) (name : String)
    → Named host_field nodes name
    → Named host_field (node ∷ nodes) name
Named-tail host_field node nodes name (host, e) = (host, rw e refl)

pub nodes-Named :
    (host_field : String) (nodes : List ClusterNode)
    → All (λ node. Named host_field nodes node.name) nodes
nodes-Named host_field [] = tt
nodes-Named host_field (node ∷ nodes) = (
  Named-head host_field node nodes,
  All-weaken (λ (n : ClusterNode). Named host_field nodes n.name) _ nodes
      (λ n m. Named-tail host_field node nodes n.name m) (nodes-Named host_field nodes),
)

numbered-All :
    (P : String → Type 0) (rank : ℕ) (nodes : List ClusterNode)
    → All (λ (node : ClusterNode). P node.name) nodes
    → All (λ (x : Outline). P x.target) (numbered rank nodes)
numbered-All P rank [] h = tt
numbered-All P rank (node ∷ nodes) (p, h) = (p, numbered-All P (suc rank) nodes h)

outline-All :
    (P : String → Type 0) (nodes : List ClusterNode)
    → All (λ (node : ClusterNode). P node.name) nodes
    → All (λ (x : Outline). P x.target) (plan_outline nodes)
outline-All P [] h = tt
outline-All P (head ∷ workers) (p, h) =
    (p, All-append _ (numbered 1 workers) _ (numbered-All P 1 workers h) (p, tt))

All-of_map {ℓ κ} :
    {A : Type ℓ} {B : Type κ} (P : B → Type 0) (f : A → B) (xs : List A)
    → All P (map f xs)
    → All (λ x. P (f x)) xs
All-of_map P f [] h = tt
All-of_map P f (x ∷ xs) (p, h) = (p, All-of_map P f xs h)

execute_step :
    (o : SshOptions) (run_root runtime_id : String) (hosts : List (String × String))
    (c : ClusterLaunchCommand) (host : String)
    → lookup c.target hosts ≡ some host
    → execute_one o run_root runtime_id hosts c
      ≡ ok (execution_command o run_root runtime_id c host)
unfolding execute_one host_of
execute_step o run_root runtime_id hosts c host e = rw e refl

build_step :
    (plan : ClusterLaunchPlan) (o : SshOptions) (run_root : String) (hosts : List (String × String))
    → is_host_field o.ssh_host_field ≡ true
    → execution_hosts plan o.ssh_host_field ≡ ok hosts
    → build_cluster_execution_commands plan o run_root
      ≡ each (execute_one o run_root plan.runtime_id hosts) plan.commands
unfolding build_cluster_execution_commands
build_step plan o run_root hosts e f = rw (e, f) refl

-- For a plan that was built for the nodes, and logging in by name or by address, there is one
-- command for each of the plan's, in their order: with the same target, role and rank, on the host
-- of the target, which `ssh` logs in to, with a line that the host's shell reads as the remote command.
-- That is the plan's command where it does not serve; where it serves, it is detached, and a shell of its
-- own reads the plan's command as it was written, with its output in the log.
pub build_cluster_execution_commands-Follows :
    (options : PlanOptions) (nodes : List ClusterNode) (plan : ClusterLaunchPlan) (o : SshOptions)
    (run_root : String)
    → IsPlan options nodes plan
    → is_host_field o.ssh_host_field ≡ true
    → (commands : List ClusterExecutionCommand) × ((build_cluster_execution_commands plan o run_root
          ≡ ok commands)
        × PairByPair (Follows o nodes) plan.commands commands)
build_cluster_execution_commands-Follows options nodes plan o run_root is h =
    let (hosts, (e, found)) = execution_hosts_lem plan nodes o.ssh_host_field is.lists_nodes in
    let named =
      outline-All (Named o.ssh_host_field nodes) nodes (nodes-Named o.ssh_host_field nodes) in
    let targets =
      All-of_map (λ (x : Outline). Named o.ssh_host_field nodes x.target) outline plan.commands
        (subst (All (λ (x : Outline). Named o.ssh_host_field nodes x.target)) (sym is.ordered)
          named) in
    let (commands, (f, follows)) =
      each_total (Follows o nodes) (execute_one o run_root plan.runtime_id hosts) plan.commands (
        All-weaken (λ (c : ClusterLaunchCommand). Named o.ssh_host_field nodes c.target) _
          plan.commands
          (λ c n. (
            execution_command o run_root plan.runtime_id c n.0,
            (
              execute_step o run_root plan.runtime_id hosts c n.0 (found c.target ∙ n.1),
              execution_command-Follows o run_root plan.runtime_id nodes c n.0 n.1,
            ),
          ))
          targets) in
    (commands, (build_step plan o run_root hosts h e ∙ f, follows))
