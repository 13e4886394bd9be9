-- ===== src/Acknowledgement.antt =====
-- packages/raknet/src/shared/proto/packets/online/acknowledgement.ts, with ack.ts and nack.ts.
pub mod Runs
pub mod RoundTrip
pub mod Sets
use baltica.Base.{ℕ, zero, suc, ◌+◌, ◌-◌}
use baltica.Base.{Bool, true, false, Option, none, some, List, [], ◌∷◌, ◌++◌}
use baltica.Base.Tests.{◌==◌, ltb, leb, if◌then◌else◌}
use baltica.Stream.{Width, BinaryStream}

-- `Ack.ID` and `Nack.ID`
pub data Kind : Type 0 where
  ack nack : Kind

abbrev pub packet_id : Kind → ℕ
packet_id Kind.ack = 0xc0
packet_id Kind.nack = 0xa0

-- `sequences.sort((a, b) => a - b)`
unfoldable pub insert_sorted : ℕ → List ℕ → List ℕ
insert_sorted x [] = x ∷ []
insert_sorted x (y ∷ ys) = if leb x y then x ∷ y ∷ ys else y ∷ insert_sorted x ys

unfoldable pub sort : List ℕ → List ℕ
sort [] = []
sort (x ∷ xs) = insert_sorted x (sort xs)

-- `for (let j = start; j <= end; j++) sequences.push(j)`, with the rounds counted.
unfoldable pub count_up : ℕ → ℕ → List ℕ
count_up zero start = []
count_up (suc n) start = start ∷ count_up n (start + 1)

abbrev pub interval : ℕ → ℕ → List ℕ
interval start last = count_up (last + 1 - start) start

infixl 5 ◌>>=◌
abbrev ◌>>=◌ {ℓ κ} : {A : Type ℓ} {B : Type κ} → Option A → (A → Option B) → Option B
none >>= k = none
some a >>= k = k a

module _ (io : BinaryStream) where
  open io use {put, get, put_bool, get_bool, write}

  -- What the program writes for the run from `start` to `last`.
  unfoldable pub write_record : ℕ → ℕ → List ℕ
  write_record start last =
      if start == last
      then put_bool true ++ put Width.uint24_le start
      else put_bool false ++ (put Width.uint24_le start ++ put Width.uint24_le last)

  -- `while (cursor < count)`: the list is what the cursor has not reached; the inner stream and
  -- the number of records are the result.
  unfoldable pub write_loop : ℕ → ℕ → List ℕ → List ℕ → ℕ → List ℕ × ℕ
  write_loop start last [] stream records = (stream ++ write_record start last, records + 1)
  write_loop start last (current ∷ rest) stream records =
      let extended = write_loop start current rest stream records in
      let closed =
        write_loop current current rest (stream ++ write_record start last) (records + 1) in
      let skipped = write_loop start last rest stream records in
      if current == last + 1 then extended else if ltb (last + 1) current then closed else skipped

  unfoldable pub write_records : List ℕ → List ℕ × ℕ
  write_records [] = ([], 0)
  write_records (first ∷ rest) = write_loop first first rest [] 0

  -- `serialize`
  unfoldable pub serialize : Kind → List ℕ → List ℕ
  serialize kind sequences =
      let (stream, records) = write_records (sort sequences) in
      put Width.uint8 (packet_id kind) ++ (put Width.uint16 records ++ write stream)

  -- One round of the loop of `deserialize`: the sequences that it pushes.
  unfoldable pub read_record : List ℕ → Option (List ℕ × List ℕ)
  read_record bytes = do
    (single, bytes) ← get_bool bytes
    (start, bytes) ← get Width.uint24_le bytes
    if single
        then some (start ∷ [], bytes)
        else (do (last, bytes) ← get Width.uint24_le bytes; some (interval start last, bytes))

  unfoldable pub read_records : ℕ → List ℕ → List ℕ → Option (List ℕ)
  read_records zero bytes sequences = some sequences
  read_records (suc n) bytes sequences = elim (read_record bytes) [
    | none ↦ none
    | some (more, rest) ↦ read_records n rest (sequences ++ more)
  ]

  -- `deserialize`, on what follows the identifier.
  unfoldable pub deserialize : List ℕ → Option (List ℕ)
  deserialize bytes = do (records, bytes) ← get Width.uint16 bytes; read_records records bytes []
