-- ===== src/Sanitizer/Whole.antt =====
-- The stream of a whole answer: feeding its chunks, and finishing.

use gemma_4_31b_mtp_v_llm_se.Prelude.{
  ℕ, suc, ◌≡◌, refl, true, false, some, List, [], ◌∷◌, ◌++◌, arith, length, All-append,
  All-of_append, ◌≢◌, append_assoc, append-nil,
}
use gemma_4_31b_mtp_v_llm_se.Prelude.Text.{Text}
use gemma_4_31b_mtp_v_llm_se.Sanitizer.{drain_round}
use gemma_4_31b_mtp_v_llm_se.Sanitizer.{Sanitizer, init, drain, feed, finish, sanitize_stream}
use gemma_4_31b_mtp_v_llm_se.Sanitizer.Search.{IsAligned}
use gemma_4_31b_mtp_v_llm_se.Sanitizer.Scan.{scan}
use gemma_4_31b_mtp_v_llm_se.Sanitizer.Refine.{finish-eq-scan}
use gemma_4_31b_mtp_v_llm_se.Sanitizer.Stream.{drain_loop-Streams}
use gemma_4_31b_mtp_v_llm_se.Sanitizer.Termination.{drain_total}

abbrev pub join : List Text → Text
join [] = []
join (chunk ∷ chunks) = chunk ++ join chunks

pub feed_total : (text : Text) (s : Sanitizer) → (r : Text × Sanitizer) × (feed text s ≡ some r)
unfolding feed
feed_total [] s = (([], s), refl)
feed_total (c ∷ cs) s = drain_total false (record s { buffer = s.buffer ++ c ∷ cs })

pub finish_total : (s : Sanitizer) → (r : Text × Sanitizer) × (finish s ≡ some r)
unfolding finish
finish_total s = drain_total true s

pub sanitize_stream-feed :
    (chunk : Text) (chunks : List Text) (s s' : Sanitizer) (out rest : Text)
    → feed chunk s ≡ some (out, s')
    → sanitize_stream chunks s' ≡ some rest
    → sanitize_stream (chunk ∷ chunks) s ≡ some (out ++ rest)
unfolding sanitize_stream
sanitize_stream-feed chunk chunks s s' out rest e h = ground (arith, e, h)

pub sanitize_stream-finish :
    (s s' : Sanitizer) (out : Text) → finish s ≡ some (out, s') → sanitize_stream [] s ≡ some out
unfolding sanitize_stream
sanitize_stream-finish s s' out e = rw e

pub sanitize_stream-nothing : sanitize_stream ([] ∷ []) init ≡ some []
unfolding sanitize_stream feed finish drain drain_round
sanitize_stream-nothing = refl

feed-Streams :
    (chunk more : Text) (s : Sanitizer)
    → IsAligned (s.buffer ++ chunk)
    → (out : Text) × (s' : Sanitizer) × (feed chunk s ≡ some (out, s'))
      × IsAligned s'.buffer
      × (scan s.hidden ((s.buffer ++ chunk) ++ more) ≡ out ++ scan s'.hidden (s'.buffer ++ more))
unfolding feed drain
feed-Streams [] more s a = ([], s, refl, rw append-nil at a, rw append-nil)
feed-Streams (c ∷ cs) more s a =
    let t : Sanitizer = record s { buffer = s.buffer ++ c ∷ cs } in
    let ((out, s'), e) = drain_total false t in
    let (aligned, same) = drain_loop-Streams more (suc (length t.buffer)) t out s' e a in
    (out, s', e, aligned, same)

-- From any state: the stream shows what the reference scan shows of the buffered text and all the
-- text that is fed after it.
pub sanitize_stream_from :
    (chunks : List Text) (s : Sanitizer)
    → IsAligned s.buffer
    → IsAligned (join chunks)
    → sanitize_stream chunks s ≡ some (scan s.hidden (s.buffer ++ join chunks))
unfolding sanitize_stream
sanitize_stream_from [] s a h = let (s', e, _) = finish-eq-scan s a in rw (e, append-nil)
sanitize_stream_from (chunk ∷ chunks) s a h =
    let (p, q) = All-of_append (λ (c : ℕ). c ≢ 0x130) chunk (join chunks) h in
    let (out, s', e, aligned, same) =
      feed-Streams chunk (join chunks) s (All-append (λ c. c ≢ 0x130) s.buffer chunk a p) in
    ground (
      arith,
      e,
      sanitize_stream_from chunks s' aligned q,
      same,
      append_assoc s.buffer chunk (join chunks),
    )

-- However a text without U+0130 is cut into chunks, a new sanitizer shows exactly what the
-- reference scan of the whole text shows.
pub sanitize_stream-eq-scan :
    (chunks : List Text)
    → IsAligned (join chunks)
    → sanitize_stream chunks init ≡ some (scan false (join chunks))
sanitize_stream-eq-scan chunks h = sanitize_stream_from chunks init tt h
