-- ===== src/Frame/Length.antt =====
-- `getByteLength` of packages/raknet/src/shared/proto/types/frame.ts against the bytes that
-- `Frame.write` writes.
use baltica.Base.{ℕ, ◌≤◌, ◌<◌, ◌≡◌, refl}
use baltica.Base.{Bool, true, false, List, [], ◌∷◌, ◌++◌, arith}
use baltica.Base.Tests.{if◌then◌else◌}
use baltica.Base.Lists.{length, length-append}
use baltica.Stream.{Width, BinaryStream, Laws, byte_count}
use baltica.Frame.{Frame, get_byte_length, total_byte_length, put_if, write_frame, write_frames}

module _ (io : BinaryStream) (laws : Laws io) where
  length-put_if :
      (b : Bool) (w : Width) (n : ℕ) → length (put_if io b w n) ≡ (if b then byte_count w else 0)
  unfolding put_if
  length-put_if true w n = laws.length-put w n
  length-put_if false w n = refl

  -- `getByteLength` is the number of bytes that the frame takes on the wire.
  pub length-write_frame : (f : Frame) → length (write_frame io f) ≡ get_byte_length f
  unfolding write_frame get_byte_length
  length-write_frame f =
      simp (length-append, length-put_if, laws.length-put, laws.write_lem) (ground arith)

  pub length-write_frames : (fs : List Frame) → length (write_frames io fs) ≡ total_byte_length fs
  unfolding write_frames total_byte_length
  length-write_frames [] = refl
  length-write_frames (f ∷ fs) = simp (length-append, length-write_frame, length-write_frames fs)

  get_byte_length-pos : (f : Frame) → 3 ≤ get_byte_length f
  unfolding get_byte_length
  get_byte_length-pos f = omega arith

  pub length-le-write_frames : (fs : List Frame) → length fs ≤ length (write_frames io fs)
  unfolding write_frames
  length-le-write_frames [] = omega arith
  length-le-write_frames (f ∷ fs) = omega (
    arith,
    length-append (write_frame io f) (write_frames io fs),
    length-write_frame f,
    get_byte_length-pos f,
    length-le-write_frames fs,
  )

  feof_pos : (bytes : List ℕ) → 0 < length bytes → io.feof bytes ≡ false
  feof_pos [] h = absurd (omega arith)
  feof_pos (b ∷ bytes) h = laws.feof_cons b bytes

  pub feof-write_frame : (f : Frame) (rest : List ℕ) → io.feof (write_frame io f ++ rest) ≡ false
  feof-write_frame f rest = feof_pos _ (
      omega
        (arith, length-append (write_frame io f) rest, length-write_frame f, get_byte_length-pos f))
