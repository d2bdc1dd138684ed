-- ===== src/Cluster/Environment/Latest.antt =====
-- Lemmas on keys: membership, dictionaries, and the last assignment of a key in a list.
use gemma_4_31b_mtp_v_llm_se.Prelude.{
  String, Bool, true, false, ◌||◌, ◌≡◌, refl, sym, ap, subst, ◌∙◌, inl, inr, Option, none, some,
  List, [], ◌∷◌, ◌++◌, arith, All, eq_iff, Bool-cases, if◌then◌else◌,
}
use gemma_4_31b_mtp_v_llm_se.Cluster.Environment.{
  Assignments, key_of, is_assignment, member, lookup, set_key, assign, assign_all,
}
use gemma_4_31b_mtp_v_llm_se.Cluster.Outcome.{ok, raised, ok-injective, not_an_assignment}
use text.Mathlib.Text.{◌==◌ as str_eq}

abbrev pub or_later : Option String → Option String → Option String
or_later (some later) now = some later
or_later none now = now

-- The last item that assigns the key, which is the one that a process started with `env` sees
unfoldable pub assigned : String → List String → Option String
unfolding key_of
assigned key [] = none
assigned key (item ∷ items) =
    or_later (assigned key items) (if str_eq key (key_of item) then some item else none)

abbrev pub is_some {ℓ} : {A : Type ℓ} → Option A → Bool
is_some none = false
is_some (some a) = true

-- No key stands twice.
abbrev pub Distinct : List String → Type 0
Distinct [] = Unit
Distinct (key ∷ keys) = (member key keys ≡ false) × Distinct keys

pub lookup-set_key :
    (k key item : String) (d : List (String × String))
    → lookup k (set_key key item d) ≡ (if str_eq k key then some item else lookup k d)
unfolding lookup set_key
lookup-set_key k key item [] = refl
lookup-set_key k key item ((j, old) ∷ d) =
    ground (arith, eq_iff k key, eq_iff key j, eq_iff k j, lookup-set_key k key item d)

pub member-concat :
    (k key : String) (keys : List String)
    → member k (keys ++ key ∷ []) ≡ (member k keys || str_eq k key)
unfolding member
member-concat k key [] = ground arith
member-concat k key (j ∷ keys) = ground (arith, member-concat k key keys)

str_eq-sym : (s t : String) → str_eq s t ≡ str_eq t s
str_eq-sym s t = ground (arith, eq_iff s t, eq_iff t s)

pub Distinct-concat :
    (key : String) (keys : List String)
    → Distinct keys
    → member key keys ≡ false
    → Distinct (keys ++ key ∷ [])
unfolding member
Distinct-concat key [] d h = (refl, tt)
Distinct-concat key (j ∷ keys) (p, d) h = (
  ground (arith, member-concat j key keys, str_eq-sym key j),
  Distinct-concat key keys d (ground arith),
)

-- What holds of the loop of `normalize_env_assignments` between two turns
pub record Consistent (a : Assignments) : Type 0 where
  pub same_keys : (k : String) → member k a.order ≡ is_some (lookup k a.by_key)
  pub own_key : (k item : String) → lookup k a.by_key ≡ some item → key_of item ≡ k
  pub checked : (k item : String) → lookup k a.by_key ≡ some item → is_assignment item ≡ true
  pub distinct : Distinct a.order

lookup-assign :
    (k item : String) (a : Assignments)
    → lookup k (assign item a).by_key
      ≡ (if str_eq k (key_of item) then some item else lookup k a.by_key)
unfolding assign
lookup-assign k item a = lookup-set_key k (key_of item) item a.by_key

pub assign-Consistent :
    (item : String) (a : Assignments)
    → is_assignment item ≡ true
    → Consistent a
    → Consistent (assign item a)
unfolding assign
assign-Consistent item a h c = record {
  same_keys = λ k. ground (
    arith,
    c.same_keys k,
    c.same_keys (key_of item),
    member-concat k (key_of item) a.order,
    lookup-assign k item a,
    eq_iff k (key_of item),
  );
  own_key = λ k other e.
      ground (arith, lookup-assign k item a, c.own_key k other, eq_iff k (key_of item));
  checked = λ k other e. ground (arith, lookup-assign k item a, c.checked k other);
  distinct = elim (Bool-cases (member (key_of item) a.order)) [
    | inl m ↦ rw m c.distinct
    | inr m ↦ rw m (Distinct-concat (key_of item) a.order c.distinct m)
  ];
}

pub start-Consistent : Consistent (record { by_key = []; order = [] })
unfolding lookup member
start-Consistent = record {
  same_keys = λ k. refl;
  own_key = λ k item e. cc;
  checked = λ k item e. cc;
  distinct = tt;
}

pub assign_all_step :
    (item : String) (items : List String) (a : Assignments)
    → is_assignment item ≡ true
    → assign_all (item ∷ items) a ≡ assign_all items (assign item a)
unfolding assign_all
assign_all_step item items a h = rw h refl

pub assign_all_stop :
    (item : String) (items : List String) (a : Assignments)
    → is_assignment item ≡ false
    → assign_all (item ∷ items) a ≡ raised (not_an_assignment item)
unfolding assign_all
assign_all_stop item items a h = rw h refl

assign_all-nil : (a b : Assignments) → assign_all [] a ≡ ok b → a ≡ b
unfolding assign_all
assign_all-nil a b e = ok-injective e

assign_all-cons :
    (item : String) (items : List String) (a b : Assignments)
    → assign_all (item ∷ items) a ≡ ok b
    → (is_assignment item ≡ true) × (assign_all items (assign item a) ≡ ok b)
assign_all-cons item items a b e = elim (Bool-cases (is_assignment item)) [
  | inl h ↦ (h, cc (e, assign_all_step item items a h))
  | inr h ↦ absurd (cc (e, assign_all_stop item items a h))
]

pub assign_all-Consistent :
    (items : List String) (a b : Assignments)
    → assign_all items a ≡ ok b
    → Consistent a
    → Consistent b
assign_all-Consistent [] a b e c = subst Consistent (assign_all-nil a b e) c
assign_all-Consistent (item ∷ items) a b e c =
    let (h, rest) = assign_all-cons item items a b e in
    assign_all-Consistent items (assign item a) b rest (assign-Consistent item a h c)

pub lookup-assign_all :
    (k : String) (items : List String) (a b : Assignments)
    → assign_all items a ≡ ok b
    → lookup k b.by_key ≡ or_later (assigned k items) (lookup k a.by_key)
unfolding assigned
lookup-assign_all k [] a b e =
    ap (λ (s : Assignments). lookup k s.by_key) (sym (assign_all-nil a b e))
lookup-assign_all k (item ∷ items) a b e =
    let (h, rest) = assign_all-cons item items a b e in
    ground (arith, lookup-assign_all k items (assign item a) b rest, lookup-assign k item a)

-- Without an item that is no assignment the loop does not raise.
pub assign_all_total :
    (items : List String) (a : Assignments)
    → All (λ item. is_assignment item ≡ true) items
    → (b : Assignments) × (assign_all items a ≡ ok b)
assign_all_total [] a h = (a, unfold assign_all in refl)
assign_all_total (item ∷ items) a (p, h) =
    let (b, e) = assign_all_total items (assign item a) h in (b, assign_all_step item items a p ∙ e)
