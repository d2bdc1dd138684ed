-- ===== src/Cluster/Environment/Normalize.antt =====
-- What `normalize_env_assignments` returns and when it raises.
use gemma_4_31b_mtp_v_llm_se.Prelude.{
  String, true, false, ◌≡◌, refl, sym, ap, ◌∙◌, inl, inr, Option, none, some, List, [], ◌∷◌, arith,
  All, map, eq_iff, eq_refl, Bool-cases, Option-cases, if◌then◌else◌,
}
use gemma_4_31b_mtp_v_llm_se.Cluster.Environment.{
  Assignments, key_of, is_assignment, member, lookup, assign, assign_all, in_order,
  normalize_env_assignments,
}
use gemma_4_31b_mtp_v_llm_se.Cluster.Environment.Latest.{
  assigned, is_some, Distinct, Consistent, start-Consistent, assign_all_step, assign_all_stop,
  assign_all_total, assign_all-Consistent, lookup-assign_all,
}
use gemma_4_31b_mtp_v_llm_se.Cluster.Outcome.{Outcome, ok, raised, not_an_assignment}
use mathlib.Core.Option.{some-injective}

abbrev pub AreAssignments : List String → Type 0
AreAssignments items = All (λ item. is_assignment item ≡ true) items

-- Each key stands once, with the item that assigns it last.
pub record IsNormal (items result : List String) : Type 0 where
  pub once : Distinct (map key_of result)
  pub latest : (key : String) → assigned key result ≡ assigned key items
  pub kept_checks : AreAssignments result

record Ordered (d : List (String × String)) (keys result : List String) : Type 0 where
  keys_of : map key_of result ≡ keys
  found : (k : String) → assigned k result ≡ (if member k keys then lookup k d else none)
  each_checked : AreAssignments result

in_order-cons :
    (d : List (String × String)) (key item : String) (keys items : List String)
    → lookup key d ≡ some item
    → in_order d keys ≡ ok items
    → in_order d (key ∷ keys) ≡ ok (item ∷ items)
unfolding in_order
in_order-cons d key item keys items e f = rw (e, f) refl

is_some-some : (o : Option String) → is_some o ≡ true → (item : String) × (o ≡ some item)
is_some-some none p = cc
is_some-some (some item) p = (item, refl)

Ordered-nil : (d : List (String × String)) → Ordered d [] []
Ordered-nil d = record {
  keys_of = refl;
  found = λ k. unfold assigned in unfold member in refl;
  each_checked = tt;
}

Ordered-cons :
    (a : Assignments) (key item : String) (keys result : List String)
    → Consistent a
    → lookup key a.by_key ≡ some item
    → Ordered a.by_key keys result
    → Ordered a.by_key (key ∷ keys) (item ∷ result)
unfolding assigned member
Ordered-cons a key item keys result c e o = record {
  keys_of = rw (c.own_key key item e, o.keys_of) refl;
  found = λ k. ground (arith, o.found k, c.own_key key item e, eq_iff k key);
  each_checked = (c.checked key item e, o.each_checked);
}

in_order-Ordered :
    (a : Assignments) (keys : List String)
    → Consistent a
    → All (λ k. is_some (lookup k a.by_key) ≡ true) keys
    → (result : List String) × ((in_order a.by_key keys ≡ ok result) × Ordered a.by_key keys result)
in_order-Ordered a [] c h = ([], (unfold in_order in refl, Ordered-nil a.by_key))
in_order-Ordered a (key ∷ keys) c (p, h) =
    let (item, e) = is_some-some (lookup key a.by_key) p in
    let (result, (r, o)) = in_order-Ordered a keys c h in
    (
      item ∷ result,
      (in_order-cons a.by_key key item keys result e r, Ordered-cons a key item keys result c e o),
    )

All-members :
    (P : String → Type 0) (keys : List String)
    → ((k : String) → member k keys ≡ true → P k)
    → All P keys
unfolding member
All-members P [] h = tt
All-members P (key ∷ keys) h =
    (h key (ground (arith, eq_refl key)), All-members P keys (λ k m. h k (ground arith)))

abbrev start : Assignments
start = record { by_key = []; order = [] }

normalize_step :
    (items : List String) (a : Assignments) (result : List String)
    → assign_all items start ≡ ok a
    → in_order a.by_key a.order ≡ ok result
    → normalize_env_assignments items ≡ ok result
unfolding normalize_env_assignments
normalize_step items a result e r = rw (e, r) refl

Ordered-IsNormal :
    (items : List String) (a : Assignments) (result : List String)
    → assign_all items start ≡ ok a
    → Consistent a
    → Ordered a.by_key a.order result
    → IsNormal items result
Ordered-IsNormal items a result e c o = record {
  once = rw o.keys_of c.distinct;
  latest = λ k.
      unfold lookup in
      ground (arith, o.found k, c.same_keys k, lookup-assign_all k items start a e);
  kept_checks = o.each_checked;
}

-- Without an item that is no assignment there is a result, and it is normal.
pub normalize_total :
    (items : List String)
    → AreAssignments items
    → (result : List String) × ((normalize_env_assignments items ≡ ok result)
        × IsNormal items result)
normalize_total items h =
    let (a, e) = assign_all_total items start h in
    let c = assign_all-Consistent items start a e start-Consistent in
    let (result, (r, o)) =
      in_order-Ordered a a.order c (All-members _ a.order (λ k m. sym (c.same_keys k) ∙ m)) in
    (result, (normalize_step items a result e r, Ordered-IsNormal items a result e c o))

-- The first item that is no assignment
abbrev pub first_wrong : List String → Option String
first_wrong [] = none
first_wrong (item ∷ items) = if is_assignment item then first_wrong items else some item

-- What a call may return or raise, for the items that it is given
pub data IsNormalized (items : List String) : Outcome (List String) → Type 0 where
  normalized :
      {result : List String}
      → first_wrong items ≡ none
      → IsNormal items result
      → IsNormalized items (ok result)
  refused :
      {item : String}
      → first_wrong items ≡ some item
      → IsNormalized items (raised (not_an_assignment item))

first_wrong-stop :
    (item : String) (items : List String)
    → is_assignment item ≡ false
    → first_wrong (item ∷ items) ≡ some item
first_wrong-stop item items h = rw h refl

first_wrong_step :
    (item : String) (items : List String)
    → is_assignment item ≡ true
    → first_wrong (item ∷ items) ≡ first_wrong items
first_wrong_step item items h = rw h refl

right-AreAssignments : (items : List String) → first_wrong items ≡ none → AreAssignments items
right-AreAssignments [] e = tt
right-AreAssignments (item ∷ items) e = elim (Bool-cases (is_assignment item)) [
  | inl h ↦ (h, right-AreAssignments items (sym (first_wrong_step item items h) ∙ e))
  | inr h ↦ absurd (cc (e, first_wrong-stop item items h))
]

assign_all-wrong :
    (item : String) (items : List String) (a : Assignments)
    → first_wrong items ≡ some item
    → assign_all items a ≡ raised (not_an_assignment item)
assign_all-wrong item [] a e = cc
assign_all-wrong item (next ∷ items) a e = elim (Bool-cases (is_assignment next)) [
  | inl h ↦
      assign_all_step next items a h
      ∙ assign_all-wrong item items (assign next a) (sym (first_wrong_step next items h) ∙ e)
  | inr h ↦
      assign_all_stop next items a h
      ∙ ap (λ i. raised (not_an_assignment i))
          (some-injective next item (sym (first_wrong-stop next items h) ∙ e))
]

normalize_stop :
    (items : List String) (item : String)
    → assign_all items start ≡ raised (not_an_assignment item)
    → normalize_env_assignments items ≡ raised (not_an_assignment item)
unfolding normalize_env_assignments
normalize_stop items item e = rw e refl

-- If every item is `KEY=VALUE` with a key, the call returns, and of each key that is assigned the
-- result holds exactly the last item and no other; otherwise it raises for the first that is not.
pub normalize_env_assignments_lem :
    (items : List String) → IsNormalized items (normalize_env_assignments items)
normalize_env_assignments_lem items = elim (Option-cases (first_wrong items)) [
  | inl e ↦
      let (result, (r, n)) = normalize_total items (right-AreAssignments items e) in
      rw r (normalized e n)
  | inr (item, e) ↦ rw (normalize_stop items item (assign_all-wrong item items start e)) (refused e)
]
