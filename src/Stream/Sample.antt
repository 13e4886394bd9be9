-- ===== src/Stream/Sample.antt =====
-- A concrete stream that behaves as documented, for runs and examples. Its integers are little
-- endian at every width, which no theorem depends on.
use baltica.Base.{ℕ, zero, suc, ◌+◌, ◌*◌, ◌/◌, ◌%◌, ◌^◌, ◌≤◌, ◌<◌, ◌≡◌, refl, ap}
use baltica.Base.{
  Bool, true, false, not, Option, none, some, List, [], ◌∷◌, ◌++◌, ◌∙◌, inl, inr, arith,
}
use baltica.Base.Tests.{◌==◌, leb, if◌then◌else◌, Option-cases}
use baltica.Base.Lists.{length, length-append, length-drop, take, drop}
use baltica.Stream.{Width, BinaryStream, Laws, byte_count, limit}

abbrev put_le : ℕ → ℕ → List ℕ
put_le zero n = []
put_le (suc k) n = (n % 256) ∷ put_le k (n / 256)

abbrev get_le : ℕ → List ℕ → Option (ℕ × List ℕ)
get_le zero bytes = some (0, bytes)
get_le (suc k) [] = none
get_le (suc k) (b ∷ bytes) = elim (get_le k bytes) [
  | none ↦ none
  | some (n, rest) ↦ some (b + 256 * n, rest)
]

abbrev to_bool : Option (ℕ × List ℕ) → Option (Bool × List ℕ)
to_bool none = none
to_bool (some (n, rest)) = some (not (n == 0), rest)

abbrev read_exactly : ℕ → List ℕ → Option (List ℕ × List ℕ)
read_exactly n bytes = if leb n (length bytes) then some (take n bytes, drop n bytes) else none

abbrev read_counted : Option (ℕ × List ℕ) → Option (List ℕ × List ℕ)
read_counted none = none
read_counted (some (n, rest)) = read_exactly n rest

abbrev is_empty : List ℕ → Bool
is_empty [] = true
is_empty (b ∷ bytes) = false

abbrev pub sample : BinaryStream
sample = record {
  put = λ w n. put_le (byte_count w) n;
  get = λ w bytes. get_le (byte_count w) bytes;
  put_bool = λ b. (if b then 1 else 0) ∷ [];
  get_bool = λ bytes. to_bool (get_le 1 bytes);
  put_string16 = λ text. put_le 2 (length text) ++ text;
  get_string16 = λ bytes. read_counted (get_le 2 bytes);
  write = λ buffer. buffer;
  read = read_exactly;
  feof = is_empty;
}

length-put_le : (k n : ℕ) → length (put_le k n) ≡ k
length-put_le zero n = refl
length-put_le (suc k) n = ap suc (length-put_le k (n / 256))

get_le-put_le :
    (k n : ℕ) (rest : List ℕ) → n < 256 ^ k → get_le k (put_le k n ++ rest) ≡ some (n, rest)
get_le-put_le zero n rest h = ground arith
get_le-put_le (suc k) n rest h = ground (arith, get_le-put_le k (n / 256) rest (omega arith))

get_le_takes :
    (k : ℕ) (bytes : List ℕ) (n : ℕ) (rest : List ℕ)
    → get_le k bytes ≡ some (n, rest)
    → length bytes ≡ k + length rest
get_le_takes zero bytes n rest e = ground arith
get_le_takes (suc k) [] n rest e = cc
get_le_takes (suc k) (b ∷ bytes) n rest e = elim (Option-cases (get_le k bytes)) [
  | inl q ↦ ground arith
  | inr ((m, r), q) ↦ ground (arith, get_le_takes k bytes m r q)
]

take_append : (xs ys : List ℕ) → take (length xs) (xs ++ ys) ≡ xs
take_append [] ys = refl
take_append (x ∷ xs) ys = ap (◌∷◌ x) (take_append xs ys)

drop_append : (xs ys : List ℕ) → drop (length xs) (xs ++ ys) ≡ ys
drop_append [] ys = refl
drop_append (x ∷ xs) ys = drop_append xs ys

read_exactly_append : (xs ys : List ℕ) → read_exactly (length xs) (xs ++ ys) ≡ some (xs, ys)
read_exactly_append xs ys =
    ground (arith, take_append xs ys, drop_append xs ys, length-append xs ys)

read_exactly_takes :
    (n : ℕ) (bytes buffer rest : List ℕ)
    → read_exactly n bytes ≡ some (buffer, rest)
    → length rest ≤ length bytes
read_exactly_takes n bytes buffer rest e = ground (arith, length-drop n bytes)

width_fits : (w : Width) (n : ℕ) → n < limit w → n < 256 ^ byte_count w
width_fits Width.uint8 n h = omega arith
width_fits Width.uint16 n h = omega arith
width_fits Width.int16 n h = omega arith
width_fits Width.uint24_le n h = omega arith
width_fits Width.uint32 n h = omega arith
width_fits Width.uint64 n h = omega arith
width_fits Width.int64 n h = omega arith

bool_back :
    (b : Bool) (rest : List ℕ) → sample.get_bool (sample.put_bool b ++ rest) ≡ some (b, rest)
bool_back true rest = refl
bool_back false rest = refl

string16_back :
    (text rest : List ℕ)
    → length text < 2 ^ 16
    → sample.get_string16 (sample.put_string16 text ++ rest) ≡ some (text, rest)
string16_back text rest h =
    ap read_counted (get_le-put_le 2 (length text) (text ++ rest) h) ∙ read_exactly_append text rest

pub sample-Laws : Laws sample
sample-Laws = record {
  length-put = λ w n. length-put_le (byte_count w) n;
  put_uint8 = λ n h. ap (λ b. b ∷ []) (omega arith);
  get-put = λ w n rest h. get_le-put_le (byte_count w) n rest (width_fits w n h);
  get_takes = λ w bytes n rest e. get_le_takes (byte_count w) bytes n rest e;
  length-put_bool = λ b. refl;
  get-put_bool = bool_back;
  get-put_string16 = string16_back;
  write_lem = λ buffer. refl;
  read_lem = read_exactly_append;
  read_takes = read_exactly_takes;
  feof_nil = refl;
  feof_cons = λ b bytes. refl;
}
