-- ===== src/Sanitizer/Extend.antt =====
-- What stands at the start of the buffer, once more text has come behind it.
use gemma_4_31b_mtp_v_llm_se.Prelude.{
  ◌≤◌, ◌≡◌, refl, Bool, true, false, some, none, List, [], ◌∷◌, ◌++◌, arith, length, drop, All, inl,
  inr, Bool-cases,
}
use gemma_4_31b_mtp_v_llm_se.Prelude.Text.{Text, starts_with, lower}
use gemma_4_31b_mtp_v_llm_se.Sanitizer.{
  channel_thought, channel_final, channel_close, html_starts, html_closes, visible_markers,
  hidden_markers, consume_visible, consume_close, consume_hidden, html_start, html_start_among,
  html_tag_boundary,
}
use gemma_4_31b_mtp_v_llm_se.Sanitizer.Search.{IsAligned}
use gemma_4_31b_mtp_v_llm_se.Sanitizer.Termination.{consume_visible-none}
use gemma_4_31b_mtp_v_llm_se.Sanitizer.Prefix.{
  starts_with-append, starts_with-both, starts_with-lower,
}
use gemma_4_31b_mtp_v_llm_se.Sanitizer.Starts.{
  starts_with-le, drop-append_le, length-lower, IsNoStart, starts_with-append_no,
  starts_with-lower-append_no, starts_with-lower-append, Clash, AllClash, channel_clash,
  html_close_clash, final_html-Clash, close_html-Clash, IsLower, html_closes-IsLower,
  html_starts-IsLower,
}

consume_close-Clash :
    (b rest more m : Text) (ms : List Text)
    → All (Clash m) ms
    → consume_close b ms ≡ some rest
    → starts_with (lower (b ++ more)) m ≡ false
unfolding consume_close
consume_close-Clash b rest more m [] h e = cc
consume_close-Clash b rest more m (n ∷ ns) ((p, q), h) e =
    elim (Bool-cases (starts_with (lower b) n)) [
      | inl starts ↦
          starts_with-both (lower (b ++ more)) n m q p (starts_with-lower-append b n more starts)
      | inr other ↦ consume_close-Clash b rest more m ns h (ground arith)
    ]

consume_close-append :
    (b rest more : Text) (ms : List Text)
    → IsAligned b
    → AllClash ms
    → consume_close b ms ≡ some rest
    → consume_close (b ++ more) ms ≡ some (rest ++ more)
unfolding consume_close
consume_close-append b rest more [] a clash e = cc
consume_close-append b rest more (m ∷ ms) a (here, clash) e =
    elim (Bool-cases (starts_with (lower b) m)) [
      | inl starts ↦
          let fits : length m ≤ length b =
            omega (arith, starts_with-le (lower b) m starts, length-lower b a) in
          ground
            (arith, starts_with-lower-append b m more starts, drop-append_le (length m) b more fits)
      | inr other ↦
          let later : consume_close b ms ≡ some rest = ground arith in
          ground (
            arith,
            consume_close-append b rest more ms a clash later,
            consume_close-Clash b rest more m ms here later,
          )
    ]

-- A cut at the start of the buffer is not changed by more text,
starts_with-of_lower :
    (t m : Text) → starts_with (lower t) (lower m) ≡ false → starts_with t m ≡ false
starts_with-of_lower t m h = elim (Bool-cases (starts_with t m)) [
  | inl starts ↦ absurd (ground (arith, starts_with-lower t m starts))
  | inr other ↦ other
]

drop-append_starts :
    (t m more : Text)
    → starts_with t m ≡ true
    → drop (length m) (t ++ more) ≡ drop (length m) t ++ more
drop-append_starts t m more h = drop-append_le (length m) t more (starts_with-le t m h)

pub consume_hidden-append :
    (b rest more : Text)
    → IsAligned b
    → consume_hidden b ≡ some rest
    → consume_hidden (b ++ more) ≡ some (rest ++ more)
unfolding consume_hidden
consume_hidden-append b rest more a e = elim (Bool-cases (starts_with b channel_final)) [
  | inl starts ↦ ground (
    arith,
    starts_with-append b channel_final more starts,
    drop-append_starts b channel_final more starts,
  )
  | inr other ↦ elim (Bool-cases (starts_with b channel_close)) [
    | inl starts ↦
        let extended = starts_with-append b channel_close more starts in
        let (_, ((clash, _), _)) = channel_clash in
        ground (
          arith,
          extended,
          drop-append_starts b channel_close more starts,
          starts_with-both (b ++ more) channel_close channel_final clash.1 clash.0 extended,
        )
    | inr neither ↦
        let close : consume_close b html_closes ≡ some rest = ground arith in
        ground (
          arith,
          consume_close-append b rest more html_closes a html_close_clash close,
          starts_with-of_lower (b ++ more) channel_final (
              consume_close-Clash b rest more (lower channel_final) html_closes final_html-Clash
                close),
          starts_with-of_lower (b ++ more) channel_close (
              consume_close-Clash b rest more (lower channel_close) html_closes close_html-Clash
                close),
        )
  ]
]

pub consume_visible-append :
    (b rest more : Text) (hidden : Bool)
    → consume_visible b ≡ some (rest, hidden)
    → consume_visible (b ++ more) ≡ some (rest ++ more, hidden)
unfolding consume_visible
consume_visible-append b rest more hidden e = elim (Bool-cases (starts_with b channel_thought)) [
  | inl starts ↦ ground (
    arith,
    starts_with-append b channel_thought more starts,
    drop-append_starts b channel_thought more starts,
  )
  | inr other ↦ elim (Bool-cases (starts_with b channel_final)) [
    | inl starts ↦
        let extended = starts_with-append b channel_final more starts in
        let ((clash, _), _) = channel_clash in
        ground (
          arith,
          extended,
          drop-append_starts b channel_final more starts,
          starts_with-both (b ++ more) channel_final channel_thought clash.1 clash.0 extended,
        )
    | inr neither ↦
        let starts : starts_with b channel_close ≡ true = ground arith in
        let extended = starts_with-append b channel_close more starts in
        let ((_, (clash, _)), ((clash', _), _)) = channel_clash in
        ground (
          arith,
          extended,
          drop-append_starts b channel_close more starts,
          starts_with-both (b ++ more) channel_close channel_thought clash.1 clash.0 extended,
          starts_with-both (b ++ more) channel_close channel_final clash'.1 clash'.0 extended,
        )
  ]
]

-- and neither is it that nothing is cut there, if the buffer begins no marker.
consume_close-none_append :
    (b more : Text) (ms : List Text)
    → IsAligned b
    → All IsLower ms
    → All (IsNoStart b) ms
    → consume_close b ms ≡ none
    → consume_close (b ++ more) ms ≡ none
unfolding consume_close
consume_close-none_append b more [] a low h e = refl
consume_close-none_append b more (m ∷ ms) a (low, lows) (h, hs) e = ground (
  arith,
  consume_close-none_append b more ms a lows hs,
  starts_with-lower-append_no b m more a low h,
)

pub consume_hidden-none_append :
    (b more : Text)
    → IsAligned b
    → All (IsNoStart b) hidden_markers
    → consume_hidden b ≡ none
    → consume_hidden (b ++ more) ≡ none
unfolding consume_hidden hidden_markers
consume_hidden-none_append b more a (final, (close, html)) e = ground (
  arith,
  starts_with-append_no b channel_final more final,
  starts_with-append_no b channel_close more close,
  consume_close-none_append b more html_closes a html_closes-IsLower html,
)

pub consume_visible-none_append :
    (b more : Text)
    → All (IsNoStart b) visible_markers
    → consume_visible b ≡ none
    → consume_visible (b ++ more) ≡ none
unfolding consume_visible visible_markers
consume_visible-none_append b more (thought, (final, (close, _))) e =
    let (p, (q, (r, _))) = consume_visible-none b e in
    rw (
      starts_with-append_no b channel_thought more thought p,
      starts_with-append_no b channel_final more final q,
      starts_with-append_no b channel_close more close r,
    )

html_tag_boundary-append :
    (t more : Text) → html_tag_boundary t ≡ false → html_tag_boundary (t ++ more) ≡ false
unfolding html_tag_boundary
html_tag_boundary-append [] more h = cc
html_tag_boundary-append (c ∷ t) more h = h

html_start_among-append_no :
    (b more : Text) (ms : List Text)
    → IsAligned b
    → All IsLower ms
    → All (IsNoStart b) ms
    → html_start_among b ms ≡ false
    → html_start_among (b ++ more) ms ≡ false
unfolding html_start_among
html_start_among-append_no b more [] a low h e = refl
html_start_among-append_no b more (m ∷ ms) a (low, lows) (h, hs) e =
    let rest = html_start_among-append_no b more ms a lows hs (ground arith) in
    elim (Bool-cases (starts_with (lower b) m)) [
      | inr other ↦ ground (arith, rest, starts_with-lower-append_no b m more a low h other)
      | inl starts ↦
          let fits : length m ≤ length b =
            omega (arith, starts_with-le (lower b) m starts, length-lower b a) in
          ground (
            arith,
            rest,
            drop-append_le (length m) b more fits,
            html_tag_boundary-append (drop (length m) b) more,
          )
    ]

pub html_start-append_no :
    (b more : Text)
    → IsAligned b
    → All (IsNoStart b) html_starts
    → html_start b ≡ false
    → html_start (b ++ more) ≡ false
unfolding html_start
html_start-append_no b more a h e =
    html_start_among-append_no b more html_starts a html_starts-IsLower h e
