-- ===== src/Cluster/Execution/Remote.antt =====
-- What `ssh` is run with, and what the shell of the host runs.
use gemma_4_31b_mtp_v_llm_se.Prelude.{
  String, Bool, true, false, ◌≡◌, refl, ap, sym, ◌++◌, ◌∙◌, Option, none, some, List, [], ◌∷◌,
  if◌then◌else◌,
}
use gemma_4_31b_mtp_v_llm_se.Prelude.Text.{codes}
use gemma_4_31b_mtp_v_llm_se.Cluster.Shell.Words.{shell_words}
use gemma_4_31b_mtp_v_llm_se.Cluster.Commands.{ClusterLaunchCommand}
use gemma_4_31b_mtp_v_llm_se.Cluster.Commands.Reading.{bash_line-words, quote-words}
use gemma_4_31b_mtp_v_llm_se.Cluster.Shell.{shlex_quote}
use gemma_4_31b_mtp_v_llm_se.Cluster.Paths.{
  split_slashes, path_parts, path_root, path_text, all_but_last, last_part, stem_of,
}
use text.Mathlib.TextLemmas.{nil-append, append_assoc as string_assoc}
use Prim.Native.String.{◌++◌ as ◌<>◌}
use gemma_4_31b_mtp_v_llm_se.Cluster.Execution.{
  SshOptions, options_or, ssh_argv, background_remote_command, log_path_of, remote_command_of,
  is_background,
}

-- A command that is not detached is run as it is. A detached one is started by a shell of its own that
-- reads it as the plan wrote it, behind `nohup setsid`, and its output goes to the log.
abbrev pub Runs : ClusterLaunchCommand → Option String → String → Type 0
Runs c none remote = remote ≡ c.command
Runs c (some path) remote =
    (before : String) × (quoted : String) × (out : String) × (after : String) × (remote
      ≡ before
        <> ("-$(date -u +%Y%m%dT%H%M%SZ).log; fi; nohup setsid bash -lc "
            <> (quoted <> (" > " <> (out <> (" 2>&1 < /dev/null & echo $! > " <> after))))))
    × (shell_words quoted ≡ some (codes c.command ∷ []))
    × (shell_words out ≡ some (codes path ∷ []))

-- The program, its options, the host to log in to, and a line that the host's shell reads as the
-- words bash, -lc and the remote command
abbrev pub Connects : SshOptions → String → String → List String → Type 0
Connects o host remote argv =
    (line : String) × (argv ≡ (o.ssh_bin ∷ options_or o.ssh_options) ++ (host ∷ line ∷ []))
    × (shell_words line ≡ some (codes "bash" ∷ codes "-lc" ∷ codes remote ∷ []))

-- Texts in front of another
abbrev glue : List String → String → String
glue [] rest = rest
glue (text ∷ texts) rest = text <> glue texts rest

glue-append : (texts : List String) (rest : String) → glue texts rest ≡ glue texts "" <> rest
glue-append [] rest = sym (nil-append rest)
glue-append (text ∷ texts) rest =
    ap (λ t. text <> t) (glue-append texts rest) ∙ sym (string_assoc text (glue texts "") rest)

background-Runs :
    (c : ClusterLaunchCommand) (path : String)
    → Runs c (some path) (background_remote_command c.command path)
unfolding background_remote_command
background-Runs c path =
    let root = path_root path in
    let parts = path_parts (split_slashes path) in
    let log_dir = path_text root (all_but_last parts) in
    let log_stem = stem_of (last_part parts) in
    let pid_path = path_text root (all_but_last parts ++ (log_stem <> ".pid") ∷ []) in
    let before : List String =
      "mkdir -p "
      ∷ shlex_quote log_dir
      ∷ " && if [ -e "
      ∷ shlex_quote path
      ∷ " ]; then mv "
      ∷ shlex_quote path
      ∷ " "
      ∷ shlex_quote log_dir
      ∷ "/"
      ∷ shlex_quote log_stem
      ∷ [] in
    (
      glue before "",
      shlex_quote c.command,
      shlex_quote path,
      shlex_quote pid_path <> ("; disown; cat " <> shlex_quote pid_path),
      glue-append before _,
      quote-words c.command,
      quote-words path,
    )

if-Runs :
    (c : ClusterLaunchCommand) (b : Bool) (path remote : String)
    → Runs c (some path) remote
    → Runs c (if b then some path else none) (if b then remote else c.command)
if-Runs c true path remote h = h
if-Runs c false path remote h = refl

pub remote_command-Runs :
    (run_root runtime_id : String) (c : ClusterLaunchCommand)
    → Runs c
        (if is_background c then some (log_path_of run_root runtime_id c) else none)
        (remote_command_of run_root runtime_id c)
remote_command-Runs run_root runtime_id c =
    unfold remote_command_of in
    if-Runs c (is_background c) (log_path_of run_root runtime_id c)
      (background_remote_command c.command (log_path_of run_root runtime_id c))
      (background-Runs c (log_path_of run_root runtime_id c))

pub ssh_argv-Connects :
    (o : SshOptions) (host remote : String) → Connects o host remote (ssh_argv o host remote)
ssh_argv-Connects o host remote =
    ("bash -lc " <> shlex_quote remote, unfold ssh_argv in refl, bash_line-words remote)
