-- ===== src/Cluster/Execution.antt =====
-- `build_cluster_execution_commands` and `build_cluster_rollback_commands` of cluster.py.
pub mod Hosts
pub mod Remote
pub mod Follows
pub mod Rollback
use gemma_4_31b_mtp_v_llm_se.Prelude.{
  ℕ, zero, suc, String, Bool, true, false, not, ◌&&◌, ◌||◌, Option, none, some, List, [], ◌∷◌, ◌++◌,
  ◌==◌, any, is_empty, if◌then◌else◌,
}
use gemma_4_31b_mtp_v_llm_se.Prelude.Text.{codes, starts_with}
use gemma_4_31b_mtp_v_llm_se.Json.{
  ℤ, pos, Value, Items, Fields, null, str, int, bool, dict, list, no_entries, entry, no_items, item,
  get_or_null,
}
use gemma_4_31b_mtp_v_llm_se.Cluster.Outcome.{
  Outcome, ok, raised, ◌>>=◌, each, nodes_not_a_list, node_not_a_mapping, node_without_name,
  node_without_name_and_fabric_ip, unknown_ssh_host_field, no_key,
}
use gemma_4_31b_mtp_v_llm_se.Cluster.Shell.{shlex_quote}
use gemma_4_31b_mtp_v_llm_se.Cluster.Serial.{join}
use gemma_4_31b_mtp_v_llm_se.Cluster.Paths.{
  split_slashes, path_parts, path_root, path_text, all_but_last, last_part, stem_of, rstrip_slashes,
}
use gemma_4_31b_mtp_v_llm_se.Cluster.Environment.{set_key, lookup}
use gemma_4_31b_mtp_v_llm_se.Cluster.Commands.{ClusterLaunchCommand}
use gemma_4_31b_mtp_v_llm_se.Cluster.Plan.{ClusterLaunchPlan, str_items}
use Prim.Native.Char.{code}
use Prim.Native.String.{◌++◌ as ◌<>◌}
use text.Mathlib.Text.{◌==◌ as str_eq}

pub record ClusterExecutionCommand : Type 0 where
  pub target : String
  pub role : String
  pub rank : ℕ
  pub ssh_host : String
  pub argv : List String
  pub remote_command : String
  pub background : Bool
  pub log_path : Option String

abbrev log_entry : Option String → Fields
log_entry none = no_entries
log_entry (some path) = entry "log_path" (str path) no_entries

-- `ClusterExecutionCommand.to_dict`
unfoldable pub execution_to_dict : ClusterExecutionCommand → Value
unfolding str_items
execution_to_dict c = dict (
    entry "target" (str c.target) (
      entry "role" (str c.role) (
        entry "rank" (int (pos c.rank)) (
          entry "ssh_host" (str c.ssh_host) (
            entry "argv" (list (str_items c.argv)) (
              entry "remote_command" (str c.remote_command)
                (entry "background" (bool c.background) (log_entry c.log_path))))))))

abbrev pub default_cluster_ssh_options : List String
default_cluster_ssh_options =
    "-n" ∷ "-o" ∷ "BatchMode=yes" ∷ "-o" ∷ "ConnectTimeout=8" ∷ "-o" ∷ "ConnectionAttempts=1" ∷ []

pub record SshOptions : Type 0 where
  pub ssh_bin : String
  pub ssh_user : Option String
  pub ssh_options : List String
  pub ssh_host_field : String

-- `ssh_options or DEFAULT_CLUSTER_SSH_OPTIONS`
abbrev pub options_or : List String → List String
options_or [] = default_cluster_ssh_options
options_or options = options

unfoldable pub add_host :
    String → Value → Value → List (String × String) → Outcome (List (String × String))
unfolding set_key
add_host host_field (str name) (str fabric_ip) hosts =
    ok (set_key name (if str_eq host_field "name" then name else fabric_ip) hosts)
add_host host_field name fabric_ip hosts = raised node_without_name_and_fabric_ip

-- The loop of `_execution_hosts`, from the hosts so far
unfoldable pub add_hosts :
    String → Items → List (String × String) → Outcome (List (String × String))
unfolding add_host get_or_null
add_hosts host_field no_items hosts = ok hosts
add_hosts host_field (item (dict raw) raws) hosts =
    add_host host_field (get_or_null "name" raw) (get_or_null "fabric_ip" raw) hosts
    >>= add_hosts host_field raws
add_hosts host_field (item v raws) hosts = raised node_not_a_mapping

unfoldable pub hosts_of : String → Value → Outcome (List (String × String))
unfolding add_hosts
hosts_of host_field (list raws) = add_hosts host_field raws []
hosts_of host_field v = raised nodes_not_a_list

-- `_execution_hosts`
unfoldable pub execution_hosts : ClusterLaunchPlan → String → Outcome (List (String × String))
unfolding hosts_of get_or_null
execution_hosts plan host_field = hosts_of host_field (get_or_null "nodes" plan.topology)

-- `node_hosts[target]`
unfoldable pub host_of : String → Option String → Outcome String
host_of target none = raised (no_key target)
host_of target (some host) = ok host

-- `f"{ssh_user}@{ssh_host}"`, if there is a user
unfoldable pub with_user : Option String → String → String
with_user none host = host
with_user (some String.[]) host = host
with_user (some user) host = user <> "@" <> host

-- `_background_remote_command`. The last part of the path is not empty, as it ends in ".log".
unfoldable pub background_remote_command : String → String → String
unfolding path_text path_root path_parts split_slashes all_but_last last_part stem_of
background_remote_command command log_path =
    let root = path_root log_path in
    let parts = path_parts (split_slashes log_path) in
    let log_dir = path_text root (all_but_last parts) in
    let log_stem = stem_of (last_part parts) in
    let pid_path = path_text root (all_but_last parts ++ (log_stem <> ".pid") ∷ []) in
    "mkdir -p "
    <> shlex_quote log_dir
    <> " && if [ -e "
    <> shlex_quote log_path
    <> " ]; then mv "
    <> shlex_quote log_path
    <> " "
    <> shlex_quote log_dir
    <> "/"
    <> shlex_quote log_stem
    <> "-$(date -u +%Y%m%dT%H%M%SZ).log; fi; nohup setsid bash -lc "
    <> shlex_quote command
    <> " > "
    <> shlex_quote log_path
    <> " 2>&1 < /dev/null & echo $! > "
    <> shlex_quote pid_path
    <> "; disown; cat "
    <> shlex_quote pid_path

-- `_ssh_argv`
unfoldable pub ssh_argv : SshOptions → String → String → List String
ssh_argv o host remote_command =
    (o.ssh_bin ∷ options_or o.ssh_options)
    ++ (host ∷ ("bash -lc " <> shlex_quote remote_command) ∷ [])

unfoldable pub log_path_of : String → String → ClusterLaunchCommand → String
unfolding rstrip_slashes
log_path_of run_root runtime_id c =
    rstrip_slashes run_root <> "/" <> runtime_id <> "/" <> c.role <> "." <> c.target <> ".log"

abbrev pub is_background : ClusterLaunchCommand → Bool
is_background c = str_eq c.role "vllm-serve"

-- The command that is run on the host
unfoldable pub remote_command_of : String → String → ClusterLaunchCommand → String
unfolding log_path_of background_remote_command
remote_command_of run_root runtime_id c =
    if is_background c
    then background_remote_command c.command (log_path_of run_root runtime_id c)
    else c.command

unfoldable pub execution_command :
    SshOptions → String → String → ClusterLaunchCommand → String → ClusterExecutionCommand
unfolding remote_command_of log_path_of ssh_argv with_user
execution_command o run_root runtime_id c host = record {
  target = c.target;
  role = c.role;
  rank = c.rank;
  ssh_host = with_user o.ssh_user host;
  argv = ssh_argv o (with_user o.ssh_user host) (remote_command_of run_root runtime_id c);
  remote_command = remote_command_of run_root runtime_id c;
  background = is_background c;
  log_path = if is_background c then some (log_path_of run_root runtime_id c) else none;
}

-- One turn of the loop over the plan's commands
unfoldable pub execute_one :
    SshOptions
    → String
    → String
    → List (String × String)
    → ClusterLaunchCommand
    → Outcome ClusterExecutionCommand
unfolding host_of lookup execution_command
execute_one o run_root runtime_id hosts c = host_of c.target (lookup c.target hosts) >>= λ host.
    ok (execution_command o run_root runtime_id c host)

abbrev pub is_host_field : String → Bool
is_host_field host_field = str_eq host_field "name" || str_eq host_field "fabric-ip"

-- `build_cluster_execution_commands`
unfoldable pub build_cluster_execution_commands :
    ClusterLaunchPlan → SshOptions → String → Outcome (List ClusterExecutionCommand)
unfolding execution_hosts execute_one
build_cluster_execution_commands plan o run_root =
    if is_host_field o.ssh_host_field
    then (execution_hosts plan o.ssh_host_field >>= λ hosts.
        each (execute_one o run_root plan.runtime_id hosts) plan.commands)
    else raised unknown_ssh_host_field

unfoldable pub rollback_command : SshOptions → ℕ → String → String → ClusterExecutionCommand
unfolding ssh_argv with_user
rollback_command o rank target host = record {
  target = target;
  role = "rollback-ray-stop";
  rank = rank;
  ssh_host = with_user o.ssh_user host;
  argv = ssh_argv o (with_user o.ssh_user host) "ray stop --force";
  remote_command = "ray stop --force";
  background = false;
  log_path = none;
}

unfoldable pub name_of : Value → Outcome String
unfolding get_or_null
name_of (dict raw) = elim (get_or_null "name" raw) [
  | str name ↦ ok name
  | _ ↦ raised node_without_name
]
name_of v = raised node_not_a_mapping

unfoldable pub append_items : Items → Items → Items
append_items no_items more = more
append_items (item v vs) more = item v (append_items vs more)

-- `reversed(raw_nodes)`
unfoldable pub reverse_items : Items → Items
unfolding append_items
reverse_items no_items = no_items
reverse_items (item v vs) = append_items (reverse_items vs) (item v no_items)

unfoldable pub rollback_loop :
    SshOptions → List (String × String) → ℕ → Items → Outcome (List ClusterExecutionCommand)
unfolding name_of host_of lookup rollback_command
rollback_loop o hosts rank no_items = ok []
rollback_loop o hosts rank (item raw raws) = name_of raw >>= λ target.
    host_of target (lookup target hosts) >>= λ host.
    rollback_loop o hosts (suc rank) raws >>= λ commands.
    ok (rollback_command o rank target host ∷ commands)

unfoldable pub rollback_of :
    SshOptions → List (String × String) → Value → Outcome (List ClusterExecutionCommand)
unfolding rollback_loop reverse_items
rollback_of o hosts (list raws) = rollback_loop o hosts 0 (reverse_items raws)
rollback_of o hosts v = raised nodes_not_a_list

-- `build_cluster_rollback_commands`
unfoldable pub build_cluster_rollback_commands :
    ClusterLaunchPlan → SshOptions → Outcome (List ClusterExecutionCommand)
unfolding execution_hosts rollback_of get_or_null
build_cluster_rollback_commands plan o =
    if is_host_field o.ssh_host_field
    then (execution_hosts plan o.ssh_host_field >>= λ hosts.
        rollback_of o hosts (get_or_null "nodes" plan.topology))
    else raised unknown_ssh_host_field
