-- ===== src/Stream.antt =====
-- What packages/raknet uses of `BinaryStream` of @serenityjs/binarystream, which is not part of the
-- repository. A stream that is written is the bytes written so far, and one that is read is the
-- bytes that are left; a read that throws is `none`.
pub mod Sample
pub mod Buffers
use baltica.Base.{ℕ, ◌+◌, ◌^◌, ◌≤◌, ◌<◌, ◌≡◌, Bool, true, false, Option, some, List, [], ◌∷◌, ◌++◌}
use baltica.Base.Lists.{length}

-- The fixed-width calls: writeUint8, writeUint16, writeInt16, writeUint24 (little endian),
-- writeUint32, writeUint64, writeInt64, and their readers.
pub data Width : Type 0 where
  uint8 uint16 int16 uint24_le uint32 uint64 int64 : Width

abbrev pub byte_count : Width → ℕ
byte_count Width.uint8 = 1
byte_count Width.uint16 = 2
byte_count Width.int16 = 2
byte_count Width.uint24_le = 3
byte_count Width.uint32 = 4
byte_count Width.uint64 = 8
byte_count Width.int64 = 8

-- The values that the program writes are not negative: the signed widths lose one bit.
abbrev pub limit : Width → ℕ
limit Width.uint8 = 2 ^ 8
limit Width.uint16 = 2 ^ 16
limit Width.int16 = 2 ^ 15
limit Width.uint24_le = 2 ^ 24
limit Width.uint32 = 2 ^ 32
limit Width.uint64 = 2 ^ 64
limit Width.int64 = 2 ^ 63

pub record BinaryStream : Type 0 where
  pub put : Width → ℕ → List ℕ
  pub get : Width → List ℕ → Option (ℕ × List ℕ)
  pub put_bool : Bool → List ℕ
  pub get_bool : List ℕ → Option (Bool × List ℕ)
  -- writeString16 and readString16, over the text's code units.
  pub put_string16 : List ℕ → List ℕ
  pub get_string16 : List ℕ → Option (List ℕ × List ℕ)
  -- write(buffer) and read(length).
  pub write : List ℕ → List ℕ
  pub read : ℕ → List ℕ → Option (List ℕ × List ℕ)
  pub feof : List ℕ → Bool

-- Its documented behaviour, call by call.
pub record Laws (io : BinaryStream) : Type 0 where
  pub length-put : (w : Width) (n : ℕ) → length (io.put w n) ≡ byte_count w
  pub put_uint8 : (n : ℕ) → n < 2 ^ 8 → io.put Width.uint8 n ≡ n ∷ []
  pub get-put :
      (w : Width) (n : ℕ) (rest : List ℕ)
      → n < limit w
      → io.get w (io.put w n ++ rest) ≡ some (n, rest)
  pub get_takes :
      (w : Width) (bytes : List ℕ) (n : ℕ) (rest : List ℕ)
      → io.get w bytes ≡ some (n, rest)
      → length bytes ≡ byte_count w + length rest
  pub length-put_bool : (b : Bool) → length (io.put_bool b) ≡ 1
  pub get-put_bool :
      (b : Bool) (rest : List ℕ) → io.get_bool (io.put_bool b ++ rest) ≡ some (b, rest)
  pub get-put_string16 :
      (text rest : List ℕ)
      → length text < 2 ^ 16
      → io.get_string16 (io.put_string16 text ++ rest) ≡ some (text, rest)
  pub write_lem : (buffer : List ℕ) → io.write buffer ≡ buffer
  pub read_lem :
      (buffer rest : List ℕ) → io.read (length buffer) (buffer ++ rest) ≡ some (buffer, rest)
  pub read_takes :
      (n : ℕ) (bytes buffer rest : List ℕ)
      → io.read n bytes ≡ some (buffer, rest)
      → length rest ≤ length bytes
  pub feof_nil : io.feof [] ≡ true
  pub feof_cons : (b : ℕ) (bytes : List ℕ) → io.feof (b ∷ bytes) ≡ false
