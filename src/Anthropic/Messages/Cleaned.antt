-- ===== src/Anthropic/Messages/Cleaned.antt =====
-- What is left of what an assistant said.
use gemma_4_31b_mtp_v_llm_se.Prelude.{
  false, ◌≡◌, refl, sym, subst, Option, none, some, List, [], ◌∷◌, All, arith,
}
use gemma_4_31b_mtp_v_llm_se.Prelude.Text.{Text, codes}
use gemma_4_31b_mtp_v_llm_se.Json.{Value, null, Items, str, list, dict}
use gemma_4_31b_mtp_v_llm_se.Sanitizer.{Sanitizer, init, feed, finish}
use gemma_4_31b_mtp_v_llm_se.Sanitizer.History.{
  visible_text_for_history, visible_text_for_history-IsTidy, IsTidy,
}
use gemma_4_31b_mtp_v_llm_se.Sanitizer.Whole.{feed_total, finish_total}
use gemma_4_31b_mtp_v_llm_se.Anthropic.Messages.{
  unless_empty, content_to_text, block_texts, shown_pieces, tidy_pieces, join_by_lines,
  sanitized_content_to_text,
}
use gemma_4_31b_mtp_v_llm_se.Prelude.{append-nil, is_empty, ◌++◌}
use gemma_4_31b_mtp_v_llm_se.Sanitizer.{sanitize_stream}
use gemma_4_31b_mtp_v_llm_se.Sanitizer.History.{tidy}
use gemma_4_31b_mtp_v_llm_se.Sanitizer.Whole.{
  sanitize_stream-nothing, sanitize_stream-feed, sanitize_stream-finish,
}

-- What a call that is to return some tidy text does
abbrev pub Tidies : Option Text → Type 0
Tidies none = ⊥
Tidies (some text) = IsTidy text

pub history-Tidies : (text : Text) → Tidies (visible_text_for_history text)
history-Tidies text =
    let (cleaned, (s, (e, t))) = visible_text_for_history-IsTidy text in subst Tidies (sym e) t

-- The call returns, and what it returns has the property.
abbrev pub Gives {ℓ} : {A : Type ℓ} → (A → Type 0) → Option A → Type ℓ
Gives {A = A} P o = (a : A) × (o ≡ some a) × P a

-- What the sanitizer shows of the text, with its white space tidied
abbrev pub Sanitizes : Text → Text → Type 0
Sanitizes text content =
    (shown : Text) × (sanitize_stream (text ∷ []) init ≡ some shown)
    × (content ≡ tidy shown)
    × IsTidy content

history-Sanitizes : (text : Text) → Gives (Sanitizes text) (visible_text_for_history text)
history-Sanitizes text =
    let (shown, (e, (f, t))) = visible_text_for_history-IsTidy text in
    (tidy shown, f, (shown, e, refl, t))

abbrev pub joined : List Text → Text
joined [] = []
joined (text ∷ texts) = text ++ joined texts

-- Pieces, none of them empty, that together are what the sanitizer shows of the texts
abbrev pub ArePieces : List Text → Sanitizer → List Text → Type 0
ArePieces texts s pieces =
    (sanitize_stream texts s ≡ some (joined pieces)) × All (λ piece. is_empty piece ≡ false) pieces

joined-unless_empty :
    (text : Text) (pieces : List Text) → joined (unless_empty text pieces) ≡ text ++ joined pieces
joined-unless_empty [] pieces = refl
joined-unless_empty (c ∷ cs) pieces = refl

All-unless_empty :
    (text : Text) (pieces : List Text)
    → All (λ piece. is_empty piece ≡ false) pieces
    → All (λ piece. is_empty piece ≡ false) (unless_empty text pieces)
All-unless_empty [] pieces h = h
All-unless_empty (c ∷ cs) pieces h = (refl, h)

pieces_end :
    (s s' : Sanitizer) (tail : Text)
    → finish s ≡ some (tail, s')
    → shown_pieces [] s ≡ some (unless_empty tail [])
unfolding shown_pieces
pieces_end s s' tail e = ground (arith, e)

pieces_step :
    (text : Text) (texts : List Text) (s s' : Sanitizer) (piece : Text) (pieces : List Text)
    → feed text s ≡ some (piece, s')
    → shown_pieces texts s' ≡ some pieces
    → shown_pieces (text ∷ texts) s ≡ some (unless_empty piece pieces)
unfolding shown_pieces
pieces_step text texts s s' piece pieces e f = ground (arith, e, f)

shown_pieces-ArePieces :
    (texts : List Text) (s : Sanitizer) → Gives (ArePieces texts s) (shown_pieces texts s)
shown_pieces-ArePieces [] s =
    let ((tail, s'), e) = finish_total s in
    (
      unless_empty tail [],
      pieces_end s s' tail e,
      (
        rw (joined-unless_empty tail [], append-nil tail) (sanitize_stream-finish s s' tail e),
        All-unless_empty tail [] tt,
      ),
    )
shown_pieces-ArePieces (text ∷ texts) s =
    let ((piece, s'), e) = feed_total text s in
    let (pieces, f, (g, h)) = shown_pieces-ArePieces texts s' in
    (
      unless_empty piece pieces,
      pieces_step text texts s s' piece pieces e f,
      (
        rw (joined-unless_empty piece pieces)
            (sanitize_stream-feed text texts s s' piece (joined pieces) e g),
        All-unless_empty piece pieces h,
      ),
    )

-- The text of a content that is sanitized: the lines that the sanitizer shows of its blocks, one
-- after the other, where it is a list, and else its text
abbrev pub IsSource : (Value → Text) → Value → Text → Type 0
IsSource str_of (list blocks) text =
    (pieces : List Text) × ArePieces (block_texts str_of blocks) init pieces
    × (text ≡ join_by_lines pieces)
IsSource str_of v text = text ≡ content_to_text str_of v

-- What an assistant said, without its thoughts
abbrev pub IsCleaned : (Value → Text) → Value → Text → Type 0
IsCleaned str_of v content = (text : Text) × IsSource str_of v text × Sanitizes text content

nothing-Sanitizes : Sanitizes [] []
nothing-Sanitizes = ([], sanitize_stream-nothing, (unfold tidy in refl), (tt, (refl, refl)))

pieces-IsCleaned :
    (str_of : Value → Text) (blocks : Items) (o : Option (List Text))
    → Gives (ArePieces (block_texts str_of blocks) init) o
    → Gives (IsCleaned str_of (list blocks)) (tidy_pieces o)
unfolding tidy_pieces
pieces-IsCleaned str_of blocks o (pieces, e, h) =
    let (content, f, t) = history-Sanitizes (join_by_lines pieces) in
    rw e (content, f, (join_by_lines pieces, (pieces, h, refl), t))

of_source :
    (text : Text) (o : Option Text)
    → Gives (Sanitizes text) o
    → Gives (λ content. (t : Text) × (t ≡ text) × Sanitizes t content) o
of_source text o (content, e, h) = (content, e, (text, refl, h))

pub sanitized-IsCleaned :
    (str_of : Value → Text) (v : Value)
    → Gives (IsCleaned str_of v) (sanitized_content_to_text str_of v)
unfolding sanitized_content_to_text content_to_text
sanitized-IsCleaned str_of null = ([], refl, ([], refl, nothing-Sanitizes))
sanitized-IsCleaned str_of (str s) = of_source (codes s) _ (history-Sanitizes (codes s))
sanitized-IsCleaned str_of (list blocks) =
    pieces-IsCleaned str_of blocks (shown_pieces (block_texts str_of blocks) init)
      (shown_pieces-ArePieces (block_texts str_of blocks) init)
sanitized-IsCleaned str_of (dict block) = of_source _ _ (history-Sanitizes _)
sanitized-IsCleaned str_of v = of_source (str_of v) _ (history-Sanitizes (str_of v))
