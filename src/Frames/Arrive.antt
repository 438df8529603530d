-- ===== src/Frames/Arrive.antt =====
-- Frames of internal/transport/frame_rw.go arrive as they were sent, up to where the connection ends.
use red_lease.Prelude.{
  ℕ, suc, ◌<◌, ◌≡◌, refl, ap, arith, true, List, ◌++◌, none, some, ◌==◌, if◌then◌else◌, length,
  take, All,
}
use red_lease.Frames.{end_of_file, unexpected_end}
use red_lease.Frames.Batch.{IsFrame, new_writer, send_frames, send_frames-sends}
use red_lease.Frames.Stream.{read_frames, read_frames-whole}

-- For size-prefixed frames within the limits: a batch of them is buffered and flushed without an
-- error over a connection that takes all bytes, whatever batches the size of the buffer makes of
-- it; a reader whose connection ends m bytes into the next frame reads exactly those frames, and
-- then reports the end of the stream when m is 0 and an unexpected end otherwise.
pub frames_arrive :
    (fs : List (List ℕ)) (f : List ℕ) (m : ℕ)
    → All IsFrame fs
    → IsFrame f
    → m < length f
    → let w = send_frames new_writer fs in
      (w.0 ≡ none)
      × (read_frames
            (suc (length fs))
            (record { input = w.1.sent ++ take m f; pending_bytes = 0; ends = true })
          ≡ (fs, some (if m == 0 then end_of_file else unexpected_end)))
frames_arrive fs f m all frame lt =
    let (accepted, sent) = send_frames-sends new_writer fs refl (omega arith) all in
    (accepted, read_frames-whole fs f m _ all frame lt refl (ap (λ l. l ++ take m f) sent))
