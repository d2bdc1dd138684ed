-- ===== src/Cluster/Environment.antt =====
-- `normalize_env_assignments`, `transport_environment`, `_env_prefix` and `_cluster_log_preamble`
-- of cluster.py.
pub mod Latest
pub mod Normalize
pub mod Transport
use gemma_4_31b_mtp_v_llm_se.Prelude.{
  String, Bool, true, false, not, ◌&&◌, Option, none, some, List, [], ◌∷◌, ◌++◌, ◌==◌, any,
  is_empty, if◌then◌else◌,
}
use gemma_4_31b_mtp_v_llm_se.Prelude.Text.{codes, starts_with}
use gemma_4_31b_mtp_v_llm_se.Cluster.Outcome.{
  Outcome, ok, raised, ◌>>=◌, not_an_assignment, unsupported_transport, no_key,
}
use gemma_4_31b_mtp_v_llm_se.Cluster.Shell.{shlex_join}
use Prim.Native.Char.{code}
use Prim.Native.String.{◌++◌ as ◌<>◌}
use text.Mathlib.Text.{◌==◌ as str_eq}

-- `"=" in item`
unfoldable pub has_equals : String → Bool
has_equals String.[] = false
has_equals (String.◌∷◌ c s) = let rest = has_equals s in if code c == b'=' then true else rest

-- `item.split("=", 1)[0]`
unfoldable pub key_of : String → String
key_of String.[] = ""
key_of (String.◌∷◌ c s) = let rest = key_of s in if code c == b'=' then "" else String.◌∷◌ c rest

-- `"=" in item and not item.startswith("=")`
unfoldable pub is_assignment : String → Bool
unfolding has_equals starts_with
is_assignment item = has_equals item && not (starts_with (codes item) (codes "="))

unfoldable pub member : String → List String → Bool
member key keys = any (str_eq key) keys

unfoldable pub lookup : String → List (String × String) → Option String
lookup key [] = none
lookup key ((k, item) ∷ rest) = if str_eq key k then some item else lookup key rest

-- `by_key[key] = item`
unfoldable pub set_key : String → String → List (String × String) → List (String × String)
set_key key item [] = (key, item) ∷ []
set_key key item ((k, old) ∷ rest) =
    let later = set_key key item rest in if str_eq key k then (k, item) ∷ rest else (k, old) ∷ later

pub record Assignments : Type 0 where
  pub by_key : List (String × String)
  pub order : List String

-- One turn of the loop, for an item that passed the check
unfoldable pub assign : String → Assignments → Assignments
unfolding key_of member set_key
assign item a = record {
  by_key = set_key (key_of item) item a.by_key;
  order = if member (key_of item) a.order then a.order else a.order ++ key_of item ∷ [];
}

unfoldable pub assign_all : List String → Assignments → Outcome Assignments
unfolding assign is_assignment
assign_all [] a = ok a
assign_all (item ∷ items) a =
    let rest = assign_all items (assign item a) in
    if is_assignment item then rest else raised (not_an_assignment item)

-- `by_key[key]`
unfoldable pub item_of : String → Option String → Outcome String
item_of key none = raised (no_key key)
item_of key (some item) = ok item

-- `[by_key[key] for key in order]`
unfoldable pub in_order : List (String × String) → List String → Outcome (List String)
unfolding item_of lookup
in_order by_key [] = ok []
in_order by_key (key ∷ keys) =
    item_of key (lookup key by_key) >>= λ item. in_order by_key keys >>= λ items. ok (item ∷ items)

unfoldable pub normalize_env_assignments : List String → Outcome (List String)
unfolding assign_all in_order
normalize_env_assignments items =
    assign_all items (record { by_key = []; order = [] }) >>= λ a. in_order a.by_key a.order

abbrev pub default_cluster_run_root : String
default_cluster_run_root = "artifacts/cluster-runs"

-- `if fabric_iface: items.extend(...)`
unfoldable pub iface_items : Option String → List String
iface_items none = []
iface_items (some String.[]) = []
iface_items (some iface) = ("NCCL_SOCKET_IFNAME=" <> iface) ∷ ("GLOO_SOCKET_IFNAME=" <> iface) ∷ []

-- `${GEMMA4_MTP_RUN_ROOT:-artifacts/cluster-runs}/{runtime_id}/nccl`
unfoldable pub nccl_dir : String → String
nccl_dir runtime_id =
    "${GEMMA4_MTP_RUN_ROOT:-" <> default_cluster_run_root <> "}/" <> runtime_id <> "/nccl"

abbrev pub roce_items : String → String → List String
roce_items fabric_cidr runtime_id =
    "NCCL_IB_DISABLE=0"
    ∷ "NCCL_IB_ADDR_FAMILY=AF_INET"
    ∷ ("NCCL_IB_ADDR_RANGE=" <> fabric_cidr)
    ∷ "NCCL_IB_ROCE_VERSION_NUM=2"
    ∷ "NCCL_DEBUG=INFO"
    ∷ "NCCL_DEBUG_SUBSYS=INIT,NET,COLL,PROXY"
    ∷ ("GEMMA4_MTP_RUNTIME_ID=" <> runtime_id)
    ∷ ("NCCL_DEBUG_FILE=" <> nccl_dir runtime_id <> "/nccl.%h.%p.log")
    ∷ []

-- What the transport profile sets, at the end of the items
unfoldable pub profile_items : String → String → String → List String
unfolding nccl_dir
profile_items transport_profile fabric_cidr runtime_id =
    if str_eq transport_profile "socket"
    then "NCCL_IB_DISABLE=1" ∷ []
    else if str_eq transport_profile "roce-a"
    then roce_items fabric_cidr runtime_id
    else []

abbrev pub supported_transport_profiles : List String
supported_transport_profiles = "socket" ∷ "roce-a" ∷ []

-- `extra_env or []`
abbrev pub items_or_none : Option (List String) → List String
items_or_none none = []
items_or_none (some items) = items

unfoldable pub transport_environment :
    String → Option String → String → String → Option (List String) → Outcome (List String)
unfolding member iface_items profile_items normalize_env_assignments
transport_environment transport_profile fabric_iface fabric_cidr runtime_id extra_env =
    if member transport_profile supported_transport_profiles
    then normalize_env_assignments (
        iface_items fabric_iface
        ++ (items_or_none extra_env ++ profile_items transport_profile fabric_cidr runtime_id))
    else raised (unsupported_transport transport_profile)

-- `_env_prefix`
unfoldable pub env_prefix : List String → String
unfolding shlex_join
env_prefix [] = ""
env_prefix (item ∷ items) = "env " <> shlex_join (item ∷ items) <> " "

-- `_cluster_log_preamble`
unfoldable pub cluster_log_preamble : List String → String → String
unfolding nccl_dir starts_with
cluster_log_preamble environment runtime_id =
    if any (λ item. starts_with (codes item) (codes "NCCL_DEBUG_FILE=")) environment
    then "mkdir -p " <> nccl_dir runtime_id <> " && "
    else ""
