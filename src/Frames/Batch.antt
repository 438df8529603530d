-- ===== src/Frames/Batch.antt =====
-- A batch of frames through the writer of internal/transport/frame_rw.go.
use red_lease.Prelude.{
  ℕ, ◌+◌, ◌-◌, ◌≤◌, ◌≡◌, refl, ap, sym, ◌∙◌, arith, false, List, [], ◌∷◌, ◌++◌, Option, none, some,
  ltb, ◌==◌, length, take, append_nil, append_assoc, length-append, All, Bool-cases, inl, inr,
}
use red_lease.Frames.{
  FrameWriter, takes_all, WriteError, flush_buffer, flush, write_frame, after_flush, buffer_frame,
  little_endian, max_frame_bytes, connection_write_buffer_bytes,
}

-- A size-prefixed buffer within the limit.
pub record IsFrame (f : List ℕ) : Type 0 where
  pub long : 8 ≤ length f
  pub short : length f ≤ max_frame_bytes
  pub sized : 4 + little_endian (take 4 f) ≡ length f

abbrev pub concat : List (List ℕ) → List ℕ
concat [] = []
concat (f ∷ rest) = f ++ concat rest

abbrev pub new_writer : FrameWriter
new_writer = record { buffered = []; failed = false; sent = [] }

-- A batch of frames and the flush that follows it.
abbrev pub next_frames :
    Option WriteError × FrameWriter
    → Option WriteError × FrameWriter
    → Option WriteError × FrameWriter
next_frames (some e, w) later = (some e, w)
next_frames (none, w) later = later

next_frames-none :
    (r later : Option WriteError × FrameWriter) → r.0 ≡ none → next_frames r later ≡ later
next_frames-none (some e, w) later h = absurd (ground (arith, h))
next_frames-none (none, w) later h = refl

unfoldable pub send_frames : FrameWriter → List (List ℕ) → Option WriteError × FrameWriter
send_frames w [] = flush w takes_all
send_frames w (f ∷ rest) =
    let r = buffer_frame w f takes_all in let later = send_frames r.1 rest in next_frames r later

-- The writer accepts frames, and what it has sent and holds grows by them.
buffer_frame-keeps :
    (w : FrameWriter) (f : List ℕ)
    → w.failed ≡ false
    → length w.buffered ≤ connection_write_buffer_bytes
    → IsFrame f
    → let r = buffer_frame w f takes_all in
      (r.0 ≡ none)
      × (r.1.failed ≡ false)
      × (length r.1.buffered ≤ connection_write_buffer_bytes)
      × (r.1.sent ++ r.1.buffered ≡ (w.sent ++ w.buffered) ++ f)
unfolding buffer_frame flush after_flush write_frame flush_buffer
buffer_frame-keeps w f ok fits frame =
    let fit : ltb connection_write_buffer_bytes (length f) ≡ false = ground (arith, frame.short) in
    elim (Bool-cases (ltb (connection_write_buffer_bytes - length w.buffered) (length f))) [
      | inl tight ↦
          let some_there : (length w.buffered == 0) ≡ false = ground (arith, tight, frame.short) in
          simp (fit, tight, some_there, ok) (refl, refl, omega (arith, frame.short), refl)
      | inr loose ↦
          simp (fit, loose, ok)
            (
              refl,
              refl,
              ground (arith, loose, length-append w.buffered f),
              sym (append_assoc w.sent w.buffered f),
            )
    ]

nothing : (xs : List ℕ) → length xs ≡ 0 → xs ≡ []
nothing [] e = refl
nothing (x ∷ xs) e = absurd (omega (arith, e))

pub send_frames-sends :
    (w : FrameWriter) (fs : List (List ℕ))
    → w.failed ≡ false
    → length w.buffered ≤ connection_write_buffer_bytes
    → All IsFrame fs
    → let r = send_frames w fs in (r.0 ≡ none) × (r.1.sent ≡ (w.sent ++ w.buffered) ++ concat fs)
unfolding send_frames flush
send_frames-sends w [] ok fits all = elim (Bool-cases (length w.buffered == 0)) [
  | inl empty ↦
      simp (empty, flush)
        (
          refl,
          sym (
              append_nil (w.sent ++ w.buffered)
              ∙ ap (λ l. w.sent ++ l) (nothing w.buffered (ground (arith, empty)))
              ∙ append_nil w.sent),
        )
  | inr full ↦ simp (full, ok, flush, flush_buffer) (refl, sym (append_nil (w.sent ++ w.buffered)))
]
send_frames-sends w (f ∷ rest) ok fits (frame, all) =
    let (good, still, room, grown) = buffer_frame-keeps w f ok fits frame in
    let (sent, arrived) = send_frames-sends (buffer_frame w f takes_all).1 rest still room all in
    rw
      (next_frames-none (buffer_frame w f takes_all)
        (send_frames (buffer_frame w f takes_all).1 rest) good)
      (
        sent,
        arrived
            ∙ ap (λ l. l ++ concat rest) grown
            ∙ append_assoc (w.sent ++ w.buffered) f (concat rest),
      )
