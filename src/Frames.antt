-- ===== src/Frames.antt =====
-- internal/transport/frame_rw.go: frames in the stream of bytes of a connection. A byte is a number below 256,
-- and the buffers are those of bufio: the writer's holds the bytes that are not sent, and the reader's is a
-- window on what is still to come.
pub mod Batch
pub mod Stream
pub mod Arrive
use red_lease.Prelude.{
  ℕ, zero, suc, ◌+◌, ◌-◌, ◌*◌, ◌≡◌, Bool, true, false, not, ◌&&◌, ◌||◌, List, [], ◌∷◌, ◌++◌, Option,
  none, some, ltb, ◌==◌, if◌then◌else◌, length, take, drop,
}

abbrev pub max_frame_bytes : ℕ
max_frame_bytes = 1024

abbrev pub connection_write_buffer_bytes : ℕ
connection_write_buffer_bytes = 64 * 1024

pub record FrameWriter : Type 0 where
  pub buffered : List ℕ
  pub failed : Bool
  pub sent : List ℕ

-- What the connection does with a batch: it has no deadline, takes all bytes, or fails after some.
pub data Outcome : Type 0 where
  no_deadline takes_all : Outcome
  takes : ℕ → Outcome

-- An error of BufferFrame or Flush.
pub data WriteError : Type 0 where
  frame_too_large deadline_failed write_failed : WriteError

-- The error of bufio.Writer stays.
unfoldable pub flush_buffer : FrameWriter → Outcome → Option WriteError × FrameWriter
flush_buffer w no_deadline = (some deadline_failed, w)
flush_buffer w takes_all = (none, record w { buffered = []; sent = w.sent ++ w.buffered })
flush_buffer w (takes n) = (
  some write_failed,
  record w { buffered = drop n w.buffered; sent = w.sent ++ take n w.buffered; failed = true },
)

unfoldable pub flush : FrameWriter → Outcome → Option WriteError × FrameWriter
unfolding flush_buffer
flush w o =
    if length w.buffered == 0
    then (none, w)
    else if w.failed
    then (some write_failed, w)
    else flush_buffer w o

-- `w.buffer.Write(frame)` on a frame that fits.
unfoldable pub write_frame : FrameWriter → List ℕ → Option WriteError × FrameWriter
write_frame w frame =
    if w.failed then (some write_failed, w) else (none, record w { buffered = w.buffered ++ frame })

unfoldable pub after_flush :
    List ℕ → Option WriteError × FrameWriter → Option WriteError × FrameWriter
unfolding write_frame
after_flush frame (some e, w) = (some e, w)
after_flush frame (none, w) = write_frame w frame

unfoldable pub buffer_frame : FrameWriter → List ℕ → Outcome → Option WriteError × FrameWriter
unfolding flush after_flush write_frame
buffer_frame w frame o =
    if ltb connection_write_buffer_bytes (length frame)
    then (some frame_too_large, w)
    else if ltb (connection_write_buffer_bytes - length w.buffered) (length frame)
    then after_flush frame (flush w o)
    else write_frame w frame

-- `input` is what the connection will give, and `ends` whether it ends then, or fails.
pub record FrameReader : Type 0 where
  pub input : List ℕ
  pub pending_bytes : ℕ
  pub ends : Bool

pub data ReadError : Type 0 where
  end_of_file unexpected_end read_failed malformed_frame : ReadError

unfoldable pub frame_read_error : List ℕ → Bool → ReadError
frame_read_error partial true = if length partial == 0 then end_of_file else unexpected_end
frame_read_error partial false = read_failed

-- binary.LittleEndian.Uint32
unfoldable pub little_endian : List ℕ → ℕ
little_endian [] = 0
little_endian (b ∷ rest) = b + 256 * little_endian rest

-- The second half of ReadFrame, from the size of the payload on.
unfoldable pub read_payload : FrameReader → ℕ → Option (List ℕ) × Option ReadError × FrameReader
unfolding frame_read_error
read_payload r payload_size =
    let frame_size = 4 + payload_size in
    if ltb payload_size 4 || ltb (max_frame_bytes - 4) payload_size
    then (none, some malformed_frame, r)
    else if ltb (length r.input) frame_size
    then (none, some (frame_read_error r.input r.ends), r)
    else (some (take frame_size r.input), none, record r { pending_bytes = frame_size })

unfoldable pub read_frame : FrameReader → Option (List ℕ) × Option ReadError × FrameReader
unfolding read_payload little_endian frame_read_error
read_frame r =
    let q = record r { input = drop r.pending_bytes r.input; pending_bytes = 0 } in
    if ltb (length q.input) 4
    then (none, some (frame_read_error q.input q.ends), q)
    else read_payload q (little_endian (take 4 q.input))
