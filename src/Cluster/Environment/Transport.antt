-- ===== src/Cluster/Environment/Transport.antt =====
-- What `transport_environment` returns: the profile's settings win, then the operator's, then the
-- interface's.
use gemma_4_31b_mtp_v_llm_se.Prelude.{
  String, true, false, ◌≡◌, refl, sym, subst, ◌∙◌, Option, none, some, List, [], ◌∷◌, ◌++◌, arith,
  All, All-append, All-weaken, map, eq_refl, if-either,
}
use gemma_4_31b_mtp_v_llm_se.Prelude.Text.{starts_with}
use gemma_4_31b_mtp_v_llm_se.Cluster.Environment.{
  has_equals, key_of, is_assignment, member, iface_items, roce_items, profile_items, items_or_none,
  supported_transport_profiles, transport_environment, normalize_env_assignments, nccl_dir,
}
use gemma_4_31b_mtp_v_llm_se.Cluster.Environment.Latest.{assigned, or_later, Distinct}
use gemma_4_31b_mtp_v_llm_se.Cluster.Environment.Normalize.{
  AreAssignments, IsNormal, normalize_total,
}
use gemma_4_31b_mtp_v_llm_se.Cluster.Outcome.{ok}
use Prim.Native.String.{◌++◌ as ◌<>◌}
use text.Mathlib.Text.{◌==◌ as str_eq}
use text.Mathlib.TextLemmas.{cons-append}

has_equals-append : (s t : String) → has_equals s ≡ true → has_equals (s <> t) ≡ true
unfolding has_equals
has_equals-append String.[] t h = cc
has_equals-append (String.◌∷◌ c s) t h =
    rw (cons-append c s t) (ground (arith, has_equals-append s t))

key_of-append : (s t : String) → has_equals s ≡ true → key_of (s <> t) ≡ key_of s
unfolding has_equals key_of
key_of-append String.[] t h = cc
key_of-append (String.◌∷◌ c s) t h = rw (cons-append c s t) (ground (arith, key_of-append s t))

is_assignment-append : (s t : String) → is_assignment s ≡ true → is_assignment (s <> t) ≡ true
is_assignment-append String.[] t h = absurd (unfold is_assignment in unfold has_equals in cc)
is_assignment-append (String.◌∷◌ c s) t h = rw (cons-append c s t) (
    unfold is_assignment in
    unfold starts_with in ground (arith, has_equals-append (String.◌∷◌ c s) t, cons-append c s t))

or_later-none : (o : Option String) → o ≡ or_later o none
or_later-none none = refl
or_later-none (some item) = refl

assigned-append :
    (k : String) (items more : List String)
    → assigned k (items ++ more) ≡ or_later (assigned k more) (assigned k items)
unfolding assigned
assigned-append k [] more = or_later-none (assigned k more)
assigned-append k (item ∷ items) more = ground (arith, assigned-append k items more)

not-assigned :
    (key : String) (items : List String)
    → member key (map key_of items) ≡ false
    → assigned key items ≡ none
unfolding assigned member
not-assigned key [] h = refl
not-assigned key (item ∷ items) h = ground (arith, not-assigned key items)

-- Where no key stands twice, each item is the last one of its key.
assigned_of_Distinct :
    (items : List String)
    → Distinct (map key_of items)
    → All (λ item. assigned (key_of item) items ≡ some item) items
unfolding assigned
assigned_of_Distinct [] d = tt
assigned_of_Distinct (item ∷ items) (p, d) = (
  ground (arith, eq_refl (key_of item), not-assigned (key_of item) items p),
  All-weaken (λ other. assigned (key_of other) items ≡ some other) _ items (λ other e. rw e refl)
      (assigned_of_Distinct items d),
)

iface_items-AreAssignments : (iface : Option String) → AreAssignments (iface_items iface)
unfolding iface_items
iface_items-AreAssignments none = tt
iface_items-AreAssignments (some String.[]) = tt
iface_items-AreAssignments (some (String.◌∷◌ c s)) = (
  is_assignment-append "NCCL_SOCKET_IFNAME=" (String.◌∷◌ c s) (unfold is_assignment in refl),
  (is_assignment-append "GLOO_SOCKET_IFNAME=" (String.◌∷◌ c s) (unfold is_assignment in refl), tt),
)

roce_items-AreAssignments : (cidr runtime_id : String) → AreAssignments (roce_items cidr runtime_id)
roce_items-AreAssignments cidr runtime_id = (
  unfold is_assignment in refl,
  (
    unfold is_assignment in refl,
    (
      is_assignment-append "NCCL_IB_ADDR_RANGE=" cidr (unfold is_assignment in refl),
      (
        unfold is_assignment in refl,
        (
          unfold is_assignment in refl,
          (
            unfold is_assignment in refl,
            (
              is_assignment-append "GEMMA4_MTP_RUNTIME_ID=" runtime_id
                  (unfold is_assignment in refl),
              (
                is_assignment-append "NCCL_DEBUG_FILE=" (nccl_dir runtime_id <> "/nccl.%h.%p.log")
                    (unfold is_assignment in refl),
                tt,
              ),
            ),
          ),
        ),
      ),
    ),
  ),
)

roce_items-keys :
    (cidr runtime_id : String)
    → map key_of (roce_items cidr runtime_id)
      ≡ "NCCL_IB_DISABLE" ∷ "NCCL_IB_ADDR_FAMILY" ∷ "NCCL_IB_ADDR_RANGE"
        ∷ "NCCL_IB_ROCE_VERSION_NUM" ∷ "NCCL_DEBUG" ∷ "NCCL_DEBUG_SUBSYS" ∷ "GEMMA4_MTP_RUNTIME_ID"
        ∷ "NCCL_DEBUG_FILE" ∷ []
unfolding key_of has_equals
roce_items-keys cidr runtime_id =
    rw
      (
        key_of-append "NCCL_IB_ADDR_RANGE=" cidr refl,
        key_of-append "GEMMA4_MTP_RUNTIME_ID=" runtime_id refl,
        key_of-append "NCCL_DEBUG_FILE=" (nccl_dir runtime_id <> "/nccl.%h.%p.log") refl,
      )
      refl

roce_items-Distinct :
    (cidr runtime_id : String) → Distinct (map key_of (roce_items cidr runtime_id))
unfolding member
roce_items-Distinct cidr runtime_id =
    subst Distinct (sym (roce_items-keys cidr runtime_id))
      (refl, (refl, (refl, (refl, (refl, (refl, (refl, (refl, tt))))))))

socket-AreAssignments : AreAssignments ("NCCL_IB_DISABLE=1" ∷ [])
unfolding is_assignment
socket-AreAssignments = (refl, tt)

socket-Distinct : Distinct (map key_of ("NCCL_IB_DISABLE=1" ∷ []))
unfolding key_of member
socket-Distinct = (refl, tt)

profile_items-either :
    (P : List String → Type 0) (transport cidr runtime_id : String)
    → P ("NCCL_IB_DISABLE=1" ∷ [])
    → P (roce_items cidr runtime_id)
    → P []
    → P (profile_items transport cidr runtime_id)
unfolding profile_items
profile_items-either P transport cidr runtime_id p q r =
    if-either P (str_eq transport "socket") _ _ p (if-either P (str_eq transport "roce-a") _ _ q r)

-- What the environment holds: each setting of the profile, whatever else assigns its key; then the
-- operator's last setting of a key; then the interface's. No key stands twice.
pub record IsTransport (fixed given iface : List String) (environment : List String) : Type 0 where
  pub keeps_profile : All (λ item. assigned (key_of item) environment ≡ some item) fixed
  pub ranks :
      (key : String)
      → assigned key environment
        ≡ or_later (or_later (assigned key fixed) (assigned key given)) (assigned key iface)
  pub each_once : Distinct (map key_of environment)
  pub checks : AreAssignments environment

normal-IsTransport :
    (fixed given iface environment : List String)
    → Distinct (map key_of fixed)
    → IsNormal (iface ++ (given ++ fixed)) environment
    → IsTransport fixed given iface environment
normal-IsTransport fixed given iface environment d n = record {
  keeps_profile =
      All-weaken (λ item. assigned (key_of item) fixed ≡ some item) _ fixed
        (λ item e. rw (rank (key_of item), e) refl) (assigned_of_Distinct fixed d);
  ranks = rank;
  each_once = n.once;
  checks = n.kept_checks;
}
  where
    rank :
        (key : String)
        → assigned key environment
          ≡ or_later (or_later (assigned key fixed) (assigned key given)) (assigned key iface)
    rank key =
        rw
          (
            n.latest key,
            assigned-append key iface (given ++ fixed),
            assigned-append key given fixed,
          )
          refl

transport_step :
    (transport : String) (iface : Option String) (cidr runtime_id : String)
    (extra : Option (List String))
    → member transport supported_transport_profiles ≡ true
    → transport_environment transport iface cidr runtime_id extra
      ≡ normalize_env_assignments
          (iface_items iface ++ (items_or_none extra ++ profile_items transport cidr runtime_id))
unfolding transport_environment
transport_step transport iface cidr runtime_id extra h = rw h refl

-- With a supported profile and extra items that are all `KEY=VALUE`, an environment is returned
-- that holds each setting of the profile, whatever the other items assign to its key; then the
-- last of the extra items for a key; then the settings of the interface. No key stands twice.
pub transport_environment-IsTransport :
    (transport : String) (iface : Option String) (cidr runtime_id : String)
    (extra : Option (List String))
    → member transport supported_transport_profiles ≡ true
    → AreAssignments (items_or_none extra)
    → (environment : List String) × ((transport_environment transport iface cidr runtime_id extra
          ≡ ok environment)
        × IsTransport
            (profile_items transport cidr runtime_id)
            (items_or_none extra)
            (iface_items iface)
            environment)
transport_environment-IsTransport transport iface cidr runtime_id extra h k =
    let fixed = profile_items transport cidr runtime_id in
    let (environment, (e, n)) =
      normalize_total (iface_items iface ++ (items_or_none extra ++ fixed)) (
        All-append _ (iface_items iface) (items_or_none extra ++ fixed)
          (iface_items-AreAssignments iface)
          (All-append _ (items_or_none extra) fixed k (
            profile_items-either AreAssignments transport cidr runtime_id socket-AreAssignments
              (roce_items-AreAssignments cidr runtime_id) tt))) in
    (
      environment,
      (
        transport_step transport iface cidr runtime_id extra h ∙ e,
        normal-IsTransport fixed (items_or_none extra) (iface_items iface) environment
            (profile_items-either (λ items. Distinct (map key_of items)) transport cidr runtime_id
              socket-Distinct (roce_items-Distinct cidr runtime_id) tt)
            n,
      ),
    )
