-- ===== src/Frames/Stream.antt =====
-- A stream of frames through the reader of internal/transport/frame_rw.go.
use red_lease.Prelude.{
  ℕ, zero, suc, ◌≤◌, ◌<◌, ◌≡◌, refl, ap, ◌∙◌, arith, true, false, ◌||◌, List, [], ◌∷◌, ◌++◌, Option,
  none, some, ltb, ◌==◌, if◌then◌else◌, length, take, drop, take-append, take-length, drop-length,
  append_assoc, length-append, All, dec_lt,
}
use red_lease.Frames.{
  FrameReader, ReadError, end_of_file, unexpected_end, frame_read_error, little_endian,
  read_payload, read_frame,
}
use red_lease.Frames.Batch.{IsFrame, concat}

abbrev pub Read : Type 0
Read = Option (List ℕ) × Option ReadError × FrameReader

abbrev pub collected : Read → List (List ℕ) × Option ReadError → List (List ℕ) × Option ReadError
collected (none, error, q) later = ([], error)
collected (some f, error, q) later = (f ∷ later.0, later.1)

collected-none :
    (x : Read) (later : List (List ℕ) × Option ReadError) (e : Option ReadError)
    → x.0 ≡ none
    → x.1 ≡ e
    → collected x later ≡ ([], e)
collected-none (none, error, q) later e h i = ap (λ o. ([], o)) i
collected-none (some f, error, q) later e h i = absurd (ground (arith, h))

-- The frames until the first error.
unfoldable pub read_frames : ℕ → FrameReader → List (List ℕ) × Option ReadError
read_frames zero r = ([], none)
read_frames (suc n) r = let x = read_frame r in let later = read_frames n x.2 in collected x later

length-take-le : (n : ℕ) (xs : List ℕ) → n ≤ length xs → length (take n xs) ≡ n
length-take-le zero xs le = refl
length-take-le (suc n) [] le = absurd (omega arith)
length-take-le (suc n) (x ∷ xs) le = omega (arith, length-take-le n xs (omega (arith, le)))

take-take : (m n : ℕ) (xs : List ℕ) → n ≤ m → take n (take m xs) ≡ take n xs
take-take m zero xs le = refl
take-take zero (suc n) xs le = absurd (omega arith)
take-take (suc m) (suc n) [] le = refl
take-take (suc m) (suc n) (x ∷ xs) le = ap (λ l. x ∷ l) (take-take m n xs (omega (arith, le)))

-- Reading a whole frame.
read_frame-whole :
    (r : FrameReader) (f rest : List ℕ)
    → IsFrame f
    → drop r.pending_bytes r.input ≡ f ++ rest
    → read_frame r
      ≡ (some f, none, record { input = f ++ rest; pending_bytes = length f; ends = r.ends })
unfolding read_frame read_payload
read_frame-whole r f rest frame at =
    let size = take-append 4 f rest (omega (arith, frame.long)) in
    let whole = take-length f rest in
    let start : ltb (length (f ++ rest)) 4 ≡ false =
      ground (arith, frame.long, length-append f rest) in
    let valid : (ltb (little_endian (take 4 f)) 4 || ltb 1020 (little_endian (take 4 f))) ≡ false =
      ground (arith, frame.long, frame.short, frame.sized) in
    let all_there : ltb (length (f ++ rest)) (length f) ≡ false =
      ground (arith, length-append f rest) in
    simp (at, start, size, valid, frame.sized, all_there, whole) refl

-- Reading what is left of a frame at the end of the connection.
read_frame-cut :
    (r : FrameReader) (f : List ℕ) (m : ℕ)
    → IsFrame f
    → m < length f
    → r.ends ≡ true
    → drop r.pending_bytes r.input ≡ take m f
    → (read_frame r).0 ≡ none
      × ((read_frame r).1 ≡ some (if m == 0 then end_of_file else unexpected_end))
unfolding read_frame read_payload frame_read_error
read_frame-cut r f m frame lt ends at =
    let long = length-take-le m f (omega (arith, lt)) in
    elim (dec_lt m 4) [
      | yes few ↦
          let start : ltb m 4 ≡ true = ground (arith, few) in
          simp (at, long, start, ends) (refl, refl)
      | no some_size ↦
          let start : ltb m 4 ≡ false = ground (arith, some_size) in
          let size = take-take m 4 f (omega (arith, some_size)) in
          let valid : (ltb (little_endian (take 4 f)) 4 || ltb 1020 (little_endian (take 4 f)))
              ≡ false =
            ground (arith, frame.long, frame.short, frame.sized) in
          let missing : ltb m (length f) ≡ true = ground (arith, lt) in
          simp (at, long, start, size, valid, frame.sized, missing, ends) (refl, refl)
    ]

abbrev ending : ℕ → ReadError
ending m = if m == 0 then end_of_file else unexpected_end

pub read_frames-whole :
    (fs : List (List ℕ)) (f : List ℕ) (m : ℕ) (r : FrameReader)
    → All IsFrame fs
    → IsFrame f
    → m < length f
    → r.ends ≡ true
    → drop r.pending_bytes r.input ≡ concat fs ++ take m f
    → read_frames (suc (length fs)) r ≡ (fs, some (ending m))
unfolding read_frames
read_frames-whole [] f m r all frame lt ends at =
    let (none_left, why) = read_frame-cut r f m frame lt ends at in
    collected-none (read_frame r) ([], none) (some (ending m)) none_left why
read_frames-whole (g ∷ rest) f m r (good, all) frame lt ends at =
    let whole =
      read_frame-whole r g (concat rest ++ take m f) good
        (at ∙ append_assoc g (concat rest) (take m f)) in
    let later =
      read_frames-whole rest f m
        (record { input = g ++ (concat rest ++ take m f); pending_bytes = length g; ends = r.ends })
        all frame lt ends (drop-length g (concat rest ++ take m f)) in
    ap (λ x. collected x (read_frames (suc (length rest)) x.2)) whole
    ∙ ap (λ l. (g ∷ l.0, l.1)) later
