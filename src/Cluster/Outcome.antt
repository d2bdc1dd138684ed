-- ===== src/Cluster/Outcome.antt =====
-- What the functions of cluster.py return or raise. Every error is a `ValueError` but `no_key`, the
-- `KeyError` of a dictionary, and `no_index`, the `IndexError` of a tuple.
use gemma_4_31b_mtp_v_llm_se.Prelude.{String, ◌≡◌, refl, List, [], ◌∷◌, All, PairByPair}

pub data ClusterError : Type 0 where
  node_count_below_two : ClusterError
  too_few_nodes : (topology_id : String) → ClusterError
  no_fabric_ip : (name : String) → ClusterError
  no_positive_gpus : (name : String) → ClusterError
  not_an_assignment : (item : String) → ClusterError
  unsupported_transport : (transport_profile : String) → ClusterError
  entry_not_a_mapping label_not_a_string gpus_per_node_not_positive : ClusterError
  nodes_not_a_list node_not_a_mapping node_name_empty node_without_name : ClusterError
  node_without_name_and_fabric_ip unknown_ssh_host_field : ClusterError
  no_key : String → ClusterError
  no_index : ClusterError

pub data Outcome {ℓ} (A : Type ℓ) : Type ℓ where
  ok : A → Outcome A
  raised : ClusterError → Outcome A

module _ {ℓ κ} {A : Type ℓ} {B : Type κ} where
  infixl 1 ◌>>=◌
  abbrev pub ◌>>=◌ : Outcome A → (A → Outcome B) → Outcome B
  ok a >>= next = next a
  raised error >>= next = raised error

-- A function on each element, in order, up to the first that raises
module _ {ℓ κ} {A : Type ℓ} {B : Type κ} where
  abbrev pub each : (A → Outcome B) → List A → Outcome (List B)
  each f [] = ok []
  each f (x ∷ xs) = f x >>= λ y. each f xs >>= λ ys. ok (y ∷ ys)

pub ok-injective {ℓ} : {A : Type ℓ} {a b : A} → ok a ≡ ok b → a ≡ b
ok-injective e = cc

-- Where the function returns on each element, `each` returns what it returns.
pub each_total {ℓ κ} :
    {A : Type ℓ} {B : Type κ} (R : A → B → Type 0) (f : A → Outcome B) (xs : List A)
    → All (λ x. (y : B) × ((f x ≡ ok y) × R x y)) xs
    → (ys : List B) × ((each f xs ≡ ok ys) × PairByPair R xs ys)
each_total R f [] h = ([], (refl, tt))
each_total R f (x ∷ xs) ((y, (e, r)), h) =
    let (ys, (es, rs)) = each_total R f xs h in (y ∷ ys, (rw (e, es) refl, (r, rs)))
