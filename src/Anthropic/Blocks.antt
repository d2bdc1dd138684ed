-- ===== src/Anthropic/Blocks.antt =====
-- The events for the texts that are shown.
use gemma_4_31b_mtp_v_llm_se.Prelude.{
  ◌+◌, ◌≡◌, refl, ap, sym, ◌∙◌, Bool, true, false, not, ◌||◌, ◌&&◌, List, [], ◌∷◌, ◌++◌, map,
  is_empty, length, length-append, All, All-append, append_assoc, append-nil, arith, if◌then◌else◌,
}
use gemma_4_31b_mtp_v_llm_se.Prelude.Text.{Text}
use gemma_4_31b_mtp_v_llm_se.Sanitizer.Whole.{join}
use gemma_4_31b_mtp_v_llm_se.Anthropic.{
  Event, content_block_start, content_block_delta, Progress, emit,
}

-- The events for texts: the block is opened before the first, unless it is open already.
abbrev pub block : Bool → List Text → List Event
block started [] = []
block started (t ∷ ts) =
    (if started then [] else content_block_start ∷ [])
    ++ content_block_delta t ∷ map content_block_delta ts

abbrev pub IsShown : Text → Type 0
IsShown t = is_empty t ≡ false

-- The texts that one text is shown as: none where it is empty
abbrev pub shown : Text → List Text
shown [] = []
shown (c ∷ cs) = (c ∷ cs) ∷ []

pub join-shown :
    (text : Text) (ts : List Text) (out : Text)
    → text ++ (join ts ++ out) ≡ join (shown text ++ ts) ++ out
join-shown [] ts out = refl
join-shown (c ∷ cs) ts out = sym (append_assoc (c ∷ cs) (join ts) out)

pub append-shown : (ts : List Text) (text : Text) → join (ts ++ shown text) ≡ join ts ++ text
append-shown [] [] = refl
append-shown [] (c ∷ cs) = append-nil (c ∷ cs)
append-shown (t ∷ ts) text =
    ap (λ r. t ++ r) (append-shown ts text) ∙ sym (append_assoc t (join ts) text)

block-open : (ts : List Text) → block true ts ≡ map content_block_delta ts
block-open [] = refl
block-open (t ∷ ts) = refl

map-append :
    (xs ys : List Text)
    → map content_block_delta xs ++ map content_block_delta ys ≡ map content_block_delta (xs ++ ys)
map-append [] ys = refl
map-append (x ∷ xs) ys = ap (λ r. content_block_delta x ∷ r) (map-append xs ys)

deltas-append :
    (later : Bool) (xs ys : List Text)
    → later ≡ true
    → map content_block_delta xs ++ block later ys ≡ map content_block_delta (xs ++ ys)
deltas-append later xs ys e = rw (e, block-open ys) (map-append xs ys)

block-append :
    (started later : Bool) (xs ys : List Text)
    → later ≡ (started || not (is_empty xs))
    → block started xs ++ block later ys ≡ block started (xs ++ ys)
block-append true later [] ys e = ap (λ b. block b ys) e
block-append false later [] ys e = ap (λ b. block b ys) e
block-append true later (x ∷ xs) ys e =
    ap (λ r. content_block_delta x ∷ r) (deltas-append later xs ys e)
block-append false later (x ∷ xs) ys e =
    ap (λ r. content_block_start ∷ content_block_delta x ∷ r) (deltas-append later xs ys e)

-- What showing texts does to the events and the variables
pub record Emits (p : Progress) (texts : List Text) (events : List Event) (q : Progress)
    : Type 0 where
  pub events_are : events ≡ block p.started texts
  pub opened : q.started ≡ (p.started || not (is_empty texts))
  pub counted : q.output_tokens ≡ p.output_tokens + length texts
  pub all_shown : All IsShown texts

pub emit-Emits : (text : Text) (p : Progress) → Emits p (shown text) (emit text p).0 (emit text p).1
unfolding emit
emit-Emits [] p = record {
  events_are = refl;
  opened = ground arith;
  counted = omega arith;
  all_shown = tt;
}
emit-Emits (c ∷ cs) p = record {
  events_are = refl;
  opened = ground arith;
  counted = refl;
  all_shown = (refl, tt);
}

pub emit-same :
    (text : Text) (p : Progress)
    → ((emit text p).1.sanitizer ≡ p.sanitizer) × ((emit text p).1.reason ≡ p.reason)
unfolding emit
emit-same [] p = (refl, refl)
emit-same (c ∷ cs) p = (refl, refl)

is_empty-append : (xs ys : List Text) → is_empty (xs ++ ys) ≡ (is_empty xs && is_empty ys)
is_empty-append [] ys = refl
is_empty-append (x ∷ xs) ys = refl

pub append-Emits :
    (p q r : Progress) (xs ys : List Text) (before later : List Event)
    → Emits p xs before q
    → Emits q ys later r
    → Emits p (xs ++ ys) (before ++ later) r
append-Emits p q r xs ys before later a b = record {
  events_are = rw (a.events_are, b.events_are) (block-append p.started q.started xs ys a.opened);
  opened = ground (arith, a.opened, b.opened, is_empty-append xs ys);
  counted = omega (arith, a.counted, b.counted, length-append xs ys);
  all_shown = All-append IsShown xs ys a.all_shown b.all_shown;
}
