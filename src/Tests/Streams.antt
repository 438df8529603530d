-- ===== src/Tests/Streams.antt =====
-- Frames of internal/transport/frame_rw.go at concrete bytes.
use red_lease.Prelude.{ℕ, ◌≡◌, refl, arith, List, [], ◌∷◌, ◌++◌, none, some, true, take}
use red_lease.Frames.{
  takes, takes_all, buffer_frame, little_endian, unexpected_end, malformed_frame, read_frame, flush,
}
use red_lease.Frames.Batch.{IsFrame, new_writer, send_frames}
use red_lease.Frames.Stream.{read_frames}
use red_lease.Frames.Arrive.{frames_arrive}

abbrev small : List ℕ
small = 4 ∷ 0 ∷ 0 ∷ 0 ∷ 9 ∷ 8 ∷ 7 ∷ 6 ∷ []

small-IsFrame : IsFrame small
unfolding little_endian
small-IsFrame = record { long = omega arith; short = omega arith; sized = refl }

-- Two frames, and five bytes of a third one before the connection ends.
frames_arrive_example :
    ((send_frames new_writer (small ∷ small ∷ [])).0 ≡ none)
    × (read_frames 3 (record {
      input = (send_frames new_writer (small ∷ small ∷ [])).1.sent ++ take 5 small;
      pending_bytes = 0;
      ends = true;
    })
        ≡ (small ∷ small ∷ [], some unexpected_end))
frames_arrive_example =
    frames_arrive (small ∷ small ∷ []) small 5 (small-IsFrame, (small-IsFrame, tt)) small-IsFrame
      (omega arith)

-- A prefix that promises more than the limit.
too_long :
    (read_frame (record { input = 0 ∷ 4 ∷ 0 ∷ 0 ∷ 1 ∷ []; pending_bytes = 0; ends = true })).1
    ≡ some malformed_frame
unfolding read_frame
too_long = refl

-- A batch of which the connection takes three bytes.
half_sent : (flush (buffer_frame new_writer small takes_all).1 (takes 3)).1.sent ≡ 4 ∷ 0 ∷ 0 ∷ []
unfolding flush buffer_frame
half_sent = refl
