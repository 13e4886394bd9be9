-- ===== src/Stream/Buffers.antt =====
-- `buffer.subarray(1)`, what follows a packet's identifier, and `stream.offset += n`, as
-- packages/raknet uses them.
use baltica.Base.{zero, suc, ℕ, ◌≡◌, refl, List, [], ◌∷◌, ◌++◌, arith}
use baltica.Base.Lists.{length, drop}
use baltica.Stream.{byte_count, Width, BinaryStream, Laws}

abbrev pub payload : List ℕ → List ℕ
payload = drop 1

drop_one : (xs ys : List ℕ) → length xs ≡ 1 → drop 1 (xs ++ ys) ≡ ys
drop_one [] ys h = absurd (omega arith)
drop_one (x ∷ []) ys h = refl
drop_one (x ∷ z ∷ xs) ys h = absurd (omega arith)

pub payload-put :
    (io : BinaryStream)
    → Laws io
    → (n : ℕ) (bytes : List ℕ) → payload (io.put Width.uint8 n ++ bytes) ≡ bytes
payload-put io laws n bytes = drop_one _ bytes (laws.length-put Width.uint8 n)

drop-append : (k : ℕ) (xs ys : List ℕ) → length xs ≡ k → drop k (xs ++ ys) ≡ ys
drop-append zero [] ys h = refl
drop-append zero (x ∷ xs) ys h = absurd (omega arith)
drop-append (suc k) [] ys h = absurd (omega arith)
drop-append (suc k) (x ∷ xs) ys h = drop-append k xs ys (omega arith)

-- `stream.offset += n` over a field.
pub drop-put :
    (io : BinaryStream)
    → Laws io
    → (w : Width) (n : ℕ) (bytes : List ℕ) → drop (byte_count w) (io.put w n ++ bytes) ≡ bytes
drop-put io laws w n bytes = drop-append (byte_count w) _ bytes (laws.length-put w n)
