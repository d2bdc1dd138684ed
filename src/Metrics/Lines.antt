-- ===== src/Metrics/Lines.antt =====
-- The lines of the metrics in src/gemma4_mtp_vllm/mtp_metrics.py: `METRIC_RE`, `_metric_kind` and
-- `_parse_labels`.
use gemma_4_31b_mtp_v_llm_se.Prelude.{
  ℕ, Bool, true, false, not, ◌&&◌, ◌||◌, Option, none, some, List, [], ◌∷◌, map, is_empty, leb,
  ◌==◌, if◌then◌else◌,
}
use gemma_4_31b_mtp_v_llm_se.Prelude.Text.{Text, codes, find, lower, strip, is_space}

unfoldable pub text_eq : Text → Text → Bool
text_eq [] [] = true
text_eq (c ∷ cs) (d ∷ ds) = c == d && text_eq cs ds
text_eq text other = false

-- `part in text`
unfoldable pub contains : Text → Text → Bool
unfolding find
contains text part = elim (find text part) [ none ↦ false | some i ↦ true ]

-- `text.endswith(part)`
unfoldable pub ends_with : Text → Text → Bool
unfolding text_eq
ends_with [] part = is_empty part
ends_with (c ∷ cs) part = text_eq (c ∷ cs) part || ends_with cs part

-- The longest start whose characters pass the test, and the rest
unfoldable pub span : (ℕ → Bool) → Text → Text × Text
span test [] = ([], [])
span test (c ∷ cs) =
    let (start, rest) = span test cs in if test c then (c ∷ start, rest) else ([], c ∷ cs)

abbrev pub prepend : ℕ → List Text → List Text
prepend c [] = (c ∷ []) ∷ []
prepend c (line ∷ lines) = (c ∷ line) ∷ lines

abbrev pub starts_line_feed : Text → Bool
starts_line_feed [] = false
starts_line_feed (c ∷ cs) = c == 10

unfoldable pub is_line_break : ℕ → Bool
is_line_break c =
    (leb 0x0a c && leb c 0x0d)
    || (leb 0x1c c && leb c 0x1e)
    || c == 0x85
    || c == 0x2028
    || c == 0x2029

-- `text.splitlines()`; a carriage return and a line feed are one break
unfoldable pub split_lines : Text → List Text
unfolding is_line_break
split_lines [] = []
split_lines (c ∷ cs) =
    let lines = split_lines cs in
    if c == 13 && starts_line_feed cs
    then lines
    else if is_line_break c
    then [] ∷ lines
    else prepend c lines

-- `text.split(",")`
unfoldable pub split_commas : Text → List Text
split_commas [] = [] ∷ []
split_commas (c ∷ cs) =
    let items = split_commas cs in if c == b',' then [] ∷ items else prepend c items

-- `text.strip('"')`
unfoldable pub trim_left : Text → Text
trim_left [] = []
trim_left (c ∷ cs) = let rest = trim_left cs in if c == b'"' then rest else c ∷ cs

unfoldable pub trim_right : Text → Text
trim_right [] = []
trim_right (c ∷ cs) =
    let rest = trim_right cs in if c == b'"' && is_empty rest then [] else c ∷ rest

unfoldable pub key_and_value : Text × Text → Option (Text × Text)
key_and_value (key, []) = none
key_and_value (key, c ∷ value) = some (key, value)

-- `item.split("=", 1)`, or `none` without an equals sign
unfoldable pub cut_equals : Text → Option (Text × Text)
unfolding key_and_value span
cut_equals text = key_and_value (span (λ c. not (c == b'=')) text)

-- One turn of `_parse_labels`
unfoldable pub add_label : Option (Text × Text) → List (Text × Text) → List (Text × Text)
unfolding strip trim_left trim_right
add_label none labels = labels
add_label (some (key, value)) labels = (strip key, trim_right (trim_left (strip value))) ∷ labels

unfoldable pub labels_of : List Text → List (Text × Text)
unfolding add_label cut_equals
labels_of [] = []
labels_of (label ∷ rest) = add_label (cut_equals label) (labels_of rest)

-- `_parse_labels`, in the order of the text; of two labels with one key the last counts
unfoldable pub parse_labels : Text → List (Text × Text)
unfolding labels_of split_commas
parse_labels raw = labels_of (split_commas raw)

abbrev pub or_this : Option Text → Option Text → Option Text
or_this (some later) this = some later
or_this none this = this

unfoldable pub label_value : Text → List (Text × Text) → Option Text
unfolding text_eq
label_value key [] = none
label_value key ((k, value) ∷ labels) =
    or_this (label_value key labels) (if text_eq k key then some value else none)

pub data Kind : Type 0 where
  rounds drafted accepted requests : Kind

-- `name.lower().replace(":", "_")`
unfoldable pub normalize : Text → Text
unfolding lower
normalize name = map (λ c. if c == b':' then b'_' else c) (lower name)

unfoldable pub kind_of : Text → Option Kind
unfolding contains ends_with
kind_of normalized =
    if ends_with normalized (codes "_created")
    then none
    else if not (contains normalized (codes "spec_decode"))
        && not (contains normalized (codes "speculative"))
    then none
    else if contains normalized (codes "accepted_tokens_per_pos")
    then none
    else if contains normalized (codes "draft_tokens") && ends_with normalized (codes "_total")
    then some drafted
    else if contains normalized (codes "accepted_tokens") && ends_with normalized (codes "_total")
    then some accepted
    else if contains normalized (codes "num_drafts") && ends_with normalized (codes "_total")
    then some rounds
    else if contains normalized (codes "request") && ends_with normalized (codes "_total")
    then some requests
    else none

-- `_metric_kind`
unfoldable pub metric_kind : Text → Option Kind
unfolding kind_of normalize
metric_kind name = kind_of (normalize name)

-- What `METRIC_RE` finds
pub record Match : Type 0 where
  pub name : Text
  pub labels : Text
  pub value : Text

unfoldable pub is_name_start : ℕ → Bool
is_name_start c = (leb b'a' c && leb c b'z') || (leb b'A' c && leb c b'Z') || c == b'_' || c == b':'

unfoldable pub is_name : ℕ → Bool
unfolding is_name_start
is_name c = is_name_start c || (leb b'0' c && leb c b'9')

unfoldable pub match_with : Text → Text → Text × Text → Option Match
match_with name labels ([], rest) = none
match_with name labels (c ∷ cs, rest) =
    some (record { name = name; labels = labels; value = c ∷ cs })

-- `\s+(?P<value>\S+)`
unfoldable pub match_value : Text → Text → Text × Text → Option Match
unfolding match_with span is_space
match_value name labels ([], rest) = none
match_value name labels (c ∷ cs, rest) = match_with name labels (span (λ d. not (is_space d)) rest)

-- Behind the opening brace; without a closing one the white space that must follow is missing
unfoldable pub match_labels : Text → Text × Text → Option Match
unfolding match_value span is_space
match_labels name (labels, []) = none
match_labels name (labels, c ∷ rest) = match_value name labels (span is_space rest)

unfoldable pub match_rest : Text × Text → Option Match
unfolding match_labels match_value span is_space
match_rest (name, []) = none
match_rest (name, c ∷ rest) =
    if c == b'{'
    then match_labels name (span (λ d. not (d == b'}')) rest)
    else match_value name [] (span is_space (c ∷ rest))

-- `METRIC_RE.match(line)`
unfoldable pub match_metric : Text → Option Match
unfolding match_rest span is_name_start is_name
match_metric [] = none
match_metric (c ∷ cs) = if is_name_start c then match_rest (span is_name (c ∷ cs)) else none

-- The kind and the value of a line that counts
pub record MetricLine : Type 0 where
  pub kind : Kind
  pub value : Text

-- `model_name is not None and labels.get("model_name") not in {None, model_name}`
unfoldable pub of_other_model : Option Text → Option Text → Bool
unfolding text_eq
of_other_model (some model_name) (some label) = not (text_eq label model_name)
of_other_model model_name label = false

unfoldable pub line_with : Option Text → Match → Option Kind → Option MetricLine
unfolding of_other_model label_value parse_labels
line_with model_name found none = none
line_with model_name found (some kind) =
    if of_other_model model_name (label_value (codes "model_name") (parse_labels found.labels))
    then none
    else some (record { kind = kind; value = found.value })

unfoldable pub line_of : Option Text → Option Match → Option MetricLine
unfolding line_with metric_kind
line_of model_name none = none
line_of model_name (some found) = line_with model_name found (metric_kind found.name)

-- A stripped line; an empty one and a comment do not match
unfoldable pub read_stripped : Option Text → Text → Option MetricLine
unfolding line_of match_metric
read_stripped model_name [] = none
read_stripped model_name (c ∷ cs) =
    if c == b'#' then none else line_of model_name (match_metric (c ∷ cs))

-- What the loop takes from a line, or `none` where it goes on to the next
unfoldable pub read_metric : Option Text → Text → Option MetricLine
unfolding read_stripped strip
read_metric model_name line = read_stripped model_name (strip line)
