-- ===== src/Cluster/Execution/Rollback.antt =====
-- The commands that take a plan back.
use gemma_4_31b_mtp_v_llm_se.Prelude.{
  ℕ, suc, String, true, ◌≡◌, refl, ap, ◌∙◌, some, List, [], ◌∷◌, ◌++◌, map, All, All-append,
  PairByPair,
}
use gemma_4_31b_mtp_v_llm_se.Json.{list, get, get_or_null}
use gemma_4_31b_mtp_v_llm_se.Cluster.Outcome.{ok}
use gemma_4_31b_mtp_v_llm_se.Cluster.Topology.{ClusterNode}
use gemma_4_31b_mtp_v_llm_se.Cluster.Environment.{lookup}
use gemma_4_31b_mtp_v_llm_se.Cluster.Execution.Remote.{Connects, ssh_argv-Connects}
use gemma_4_31b_mtp_v_llm_se.Cluster.Plan.{ClusterLaunchPlan, PlanOptions, node_items}
use gemma_4_31b_mtp_v_llm_se.Cluster.Plan.Built.{IsPlan}
use gemma_4_31b_mtp_v_llm_se.Cluster.Execution.{
  ClusterExecutionCommand, SshOptions, host_of, with_user, name_of, rollback_command, rollback_loop,
  rollback_of, reverse_items, append_items, execution_hosts, is_host_field,
  build_cluster_rollback_commands,
}
use gemma_4_31b_mtp_v_llm_se.Cluster.Execution.Hosts.{
  host_named, execution_hosts_lem, get_or_null-some,
}
use gemma_4_31b_mtp_v_llm_se.Cluster.Execution.Follows.{Named, nodes-Named}

-- The nodes, the last one first
abbrev pub backwards : List ClusterNode → List ClusterNode
backwards [] = []
backwards (node ∷ nodes) = backwards nodes ++ node ∷ []

-- A command that stops Ray on the host of the node
pub record Stops (o : SshOptions) (nodes : List ClusterNode) (node : ClusterNode)
    (e : ClusterExecutionCommand) : Type 0 where
  pub stops_target : e.target ≡ node.name
  pub stops_role : e.role ≡ "rollback-ray-stop"
  pub stops_at :
      (host : String) × ((host_named o.ssh_host_field node.name nodes ≡ some host)
        × (e.ssh_host ≡ with_user o.ssh_user host))
  pub stops_ray : e.remote_command ≡ "ray stop --force"
  pub stops_over : Connects o e.ssh_host "ray stop --force" e.argv

-- The numbers from `rank` on, one for each node
abbrev pub counting : ℕ → List ClusterNode → List ℕ
counting rank [] = []
counting rank (node ∷ nodes) = rank ∷ counting (suc rank) nodes

append-node_items :
    (nodes more : List ClusterNode)
    → append_items (node_items nodes) (node_items more) ≡ node_items (nodes ++ more)
unfolding append_items node_items
append-node_items [] more = refl
append-node_items (node ∷ nodes) more = rw (append-node_items nodes more) refl

reverse-node_items :
    (nodes : List ClusterNode) → reverse_items (node_items nodes) ≡ node_items (backwards nodes)
unfolding reverse_items node_items
reverse-node_items [] = refl
reverse-node_items (node ∷ nodes) =
    rw (reverse-node_items nodes) (append-node_items (backwards nodes) (node ∷ []))

backwards-All :
    (P : ClusterNode → Type 0) (nodes : List ClusterNode) → All P nodes → All P (backwards nodes)
backwards-All P [] h = tt
backwards-All P (node ∷ nodes) (p, h) =
    All-append P (backwards nodes) (node ∷ []) (backwards-All P nodes h) (p, tt)

loop_end :
    (o : SshOptions) (hosts : List (String × String)) (rank : ℕ)
    → rollback_loop o hosts rank (node_items []) ≡ ok []
unfolding rollback_loop node_items
loop_end o hosts rank = refl

loop_step :
    (o : SshOptions) (hosts : List (String × String)) (rank : ℕ) (node : ClusterNode)
    (rest : List ClusterNode) (host : String) (commands : List ClusterExecutionCommand)
    → lookup node.name hosts ≡ some host
    → rollback_loop o hosts (suc rank) (node_items rest) ≡ ok commands
    → rollback_loop o hosts rank (node_items (node ∷ rest))
      ≡ ok (rollback_command o rank node.name host ∷ commands)
unfolding rollback_loop node_items name_of get_or_null get host_of
loop_step o hosts rank node rest host commands e f = rw (e, f) refl

rollback_command-Stops :
    (o : SshOptions) (nodes : List ClusterNode) (node : ClusterNode) (rank : ℕ) (host : String)
    → host_named o.ssh_host_field node.name nodes ≡ some host
    → Stops o nodes node (rollback_command o rank node.name host)
unfolding rollback_command
rollback_command-Stops o nodes node rank host h = record {
  stops_target = refl;
  stops_role = refl;
  stops_at = (host, (h, refl));
  stops_ray = refl;
  stops_over = ssh_argv-Connects o _ _;
}

rollback_loop_total :
    (o : SshOptions) (hosts : List (String × String)) (nodes : List ClusterNode)
    → ((name : String) → lookup name hosts ≡ host_named o.ssh_host_field name nodes)
    → (rank : ℕ) (rest : List ClusterNode)
    → All (λ (node : ClusterNode). Named o.ssh_host_field nodes node.name) rest
    → (commands : List ClusterExecutionCommand) × ((rollback_loop o hosts rank (node_items rest)
          ≡ ok commands)
        × ((map (λ (e : ClusterExecutionCommand). e.rank) commands ≡ counting rank rest)
            × PairByPair (Stops o nodes) rest commands))
unfolding rollback_command
rollback_loop_total o hosts nodes found rank [] h = ([], (loop_end o hosts rank, (refl, tt)))
rollback_loop_total o hosts nodes found rank (node ∷ rest) ((host, e), h) =
    let (commands, (f, (ranks, stops))) =
      rollback_loop_total o hosts nodes found (suc rank) rest h in
    (
      rollback_command o rank node.name host ∷ commands,
      (
        loop_step o hosts rank node rest host commands (found node.name ∙ e) f,
        (ap (λ r. rank ∷ r) ranks, (rollback_command-Stops o nodes node rank host e, stops)),
      ),
    )

rollback-list :
    (o : SshOptions) (hosts : List (String × String)) (nodes : List ClusterNode)
    → rollback_of o hosts (list (node_items nodes))
      ≡ rollback_loop o hosts 0 (node_items (backwards nodes))
unfolding rollback_of
rollback-list o hosts nodes = ap (rollback_loop o hosts 0) (reverse-node_items nodes)

rollback_step :
    (plan : ClusterLaunchPlan) (o : SshOptions) (nodes : List ClusterNode)
    (hosts : List (String × String))
    → get "nodes" plan.topology ≡ some (list (node_items nodes))
    → is_host_field o.ssh_host_field ≡ true
    → execution_hosts plan o.ssh_host_field ≡ ok hosts
    → build_cluster_rollback_commands plan o
      ≡ rollback_loop o hosts 0 (node_items (backwards nodes))
unfolding build_cluster_rollback_commands
rollback_step plan o nodes hosts e f g =
    rw (f, g)
      (ap (rollback_of o hosts) (get_or_null-some "nodes" plan.topology _ e)
        ∙ rollback-list o hosts nodes)

-- For a plan that was built for the nodes, and logging in by name or by address, there is one
-- command for each node, the last node first and ranked by their turns from 0, in which `ssh` logs in to
-- the host of the node with a line that its shell reads as `ray stop --force`.
pub build_cluster_rollback_commands-Stops :
    (options : PlanOptions) (nodes : List ClusterNode) (plan : ClusterLaunchPlan) (o : SshOptions)
    → IsPlan options nodes plan
    → is_host_field o.ssh_host_field ≡ true
    → (commands : List ClusterExecutionCommand) × ((build_cluster_rollback_commands plan o
          ≡ ok commands)
        × ((map (λ (e : ClusterExecutionCommand). e.rank) commands ≡ counting 0 (backwards nodes))
            × PairByPair (Stops o nodes) (backwards nodes) commands))
build_cluster_rollback_commands-Stops options nodes plan o is h =
    let (hosts, (e, found)) = execution_hosts_lem plan nodes o.ssh_host_field is.lists_nodes in
    let named =
      backwards-All (λ (n : ClusterNode). Named o.ssh_host_field nodes n.name) nodes
        (nodes-Named o.ssh_host_field nodes) in
    let (commands, (f, r)) = rollback_loop_total o hosts nodes found 0 (backwards nodes) named in
    (commands, (rollback_step plan o nodes hosts is.lists_nodes h e ∙ f, r))
