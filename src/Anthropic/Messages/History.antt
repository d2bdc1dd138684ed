-- ===== src/Anthropic/Messages/History.antt =====
-- The messages that the body for the backend holds.
use gemma_4_31b_mtp_v_llm_se.Prelude.{
  String, ◌≡◌, refl, Option, List, [], ◌∷◌, if◌then◌else◌, Bool-cases, inl, inr,
}
use gemma_4_31b_mtp_v_llm_se.Prelude.Text.{Text}
use gemma_4_31b_mtp_v_llm_se.Json.{Value, Items, no_items, item, Fields, get_or_null, list, dict}
use gemma_4_31b_mtp_v_llm_se.Anthropic.Messages.{
  Message, with_role, role_of, content_to_text, content_of, message_of, messages_of, raw_messages,
  build_messages, and_then, with_system,
}
use text.Mathlib.Text.{◌==◌ as str_eq}
use gemma_4_31b_mtp_v_llm_se.Anthropic.Messages.Cleaned.{Gives, IsCleaned, sanitized-IsCleaned}

-- A content of a role: cleaned where it is an assistant's, and else its text
abbrev pub IsContent : (Value → Text) → String → Value → Text → Type 0
IsContent str_of role v content =
    if str_eq role "assistant"
    then IsCleaned str_of v content
    else content ≡ content_to_text str_of v

content_of-IsContent :
    (str_of : Value → Text) (role : String) (v : Value)
    → Gives (IsContent str_of role v) (content_of str_of role v)
unfolding content_of
content_of-IsContent str_of role v = elim (Bool-cases (str_eq role "assistant")) [
  | inl e ↦ rw e (sanitized-IsCleaned str_of v)
  | inr e ↦ rw e (content_to_text str_of v, refl, refl)
]

-- The message that a dictionary is converted to
abbrev pub IsMessage : (Value → Text) → Fields → Message → Type 0
IsMessage str_of fields m =
    (m.role ≡ role_of str_of (get_or_null "role" fields))
    × IsContent str_of m.role (get_or_null "content" fields) m.content

-- One message for each dictionary, in their order
abbrev pub AreMessages : (Value → Text) → Items → List Message → Type 0
AreMessages str_of no_items [] = Unit
AreMessages str_of no_items (m ∷ ms) = ⊥
AreMessages str_of (item (dict fields) vs) [] = ⊥
AreMessages str_of (item (dict fields) vs) (m ∷ ms) =
    IsMessage str_of fields m × AreMessages str_of vs ms
AreMessages str_of (item v vs) ms = AreMessages str_of vs ms

abbrev pub AreOf : (Value → Text) → Value → List Message → Type 0
AreOf str_of (list vs) ms = AreMessages str_of vs ms
AreOf str_of v ms = ms ≡ []

-- The text of the system, if there is any, comes first.
abbrev pub AreBehind : (Value → Text) → Text → Value → List Message → Type 0
AreBehind str_of [] v ms = AreOf str_of v ms
AreBehind str_of (c ∷ cs) v ms =
    (rest : List Message) × (ms ≡ record { role = "system"; content = c ∷ cs } ∷ rest)
    × AreOf str_of v rest

-- The messages that a payload is converted to
abbrev pub AreConverted : (Value → Text) → Fields → List Message → Type 0
AreConverted str_of payload ms =
    AreBehind str_of (content_to_text str_of (get_or_null "system" payload))
      (get_or_null "messages" payload) ms

with_role-IsMessage :
    (str_of : Value → Text) (fields : Fields) (role : String) (o : Option Text)
    → role ≡ role_of str_of (get_or_null "role" fields)
    → Gives (IsContent str_of role (get_or_null "content" fields)) o
    → Gives (IsMessage str_of fields) (with_role role o)
with_role-IsMessage str_of fields role o e (content, f, h) =
    rw f (record { role = role; content = content }, refl, (e, h))

message_of-IsMessage :
    (str_of : Value → Text) (fields : Fields)
    → Gives (IsMessage str_of fields) (message_of str_of fields)
unfolding message_of
message_of-IsMessage str_of fields =
    let role = role_of str_of (get_or_null "role" fields) in
    with_role-IsMessage str_of fields role (content_of str_of role (get_or_null "content" fields))
      refl (content_of-IsContent str_of role (get_or_null "content" fields))

and_then-AreMessages :
    (str_of : Value → Text) (fields : Fields) (vs : Items) (m : Option Message)
    (ms : Option (List Message))
    → Gives (IsMessage str_of fields) m
    → Gives (AreMessages str_of vs) ms
    → Gives (AreMessages str_of (item (dict fields) vs)) (and_then m ms)
and_then-AreMessages str_of fields vs m ms (x, e, h) (xs, f, k) = rw (e, f) (x ∷ xs, refl, (h, k))

messages_of-AreMessages :
    (str_of : Value → Text) (vs : Items) → Gives (AreMessages str_of vs) (messages_of str_of vs)
unfolding messages_of
messages_of-AreMessages str_of no_items = ([], refl, tt)
messages_of-AreMessages str_of (item (dict fields) vs) =
    and_then-AreMessages str_of fields vs (message_of str_of fields) (messages_of str_of vs)
      (message_of-IsMessage str_of fields) (messages_of-AreMessages str_of vs)
messages_of-AreMessages str_of (item v vs) = messages_of-AreMessages str_of vs

raw_messages-AreOf :
    (str_of : Value → Text) (v : Value) → Gives (AreOf str_of v) (raw_messages str_of v)
unfolding raw_messages
raw_messages-AreOf str_of (list vs) = messages_of-AreMessages str_of vs
raw_messages-AreOf str_of v = ([], refl, refl)

with_system-AreBehind :
    (str_of : Value → Text) (system : Text) (v : Value) (ms : Option (List Message))
    → Gives (AreOf str_of v) ms
    → Gives (AreBehind str_of system v) (with_system system ms)
with_system-AreBehind str_of [] v ms h = h
with_system-AreBehind str_of (c ∷ cs) v ms (xs, e, h) = rw e (_, refl, (xs, refl, h))

pub build_messages-AreConverted :
    (str_of : Value → Text) (payload : Fields)
    → Gives (AreConverted str_of payload) (build_messages str_of payload)
unfolding build_messages
build_messages-AreConverted str_of payload =
    with_system-AreBehind str_of (content_to_text str_of (get_or_null "system" payload))
      (get_or_null "messages" payload) (raw_messages str_of (get_or_null "messages" payload))
      (raw_messages-AreOf str_of (get_or_null "messages" payload))
