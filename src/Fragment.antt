-- ===== src/Fragment.antt =====
-- The cutting of a payload in `sendSplit` and its reassembly in `handleSplit`, both of
-- packages/raknet/src/shared/network-session.ts.
pub mod Chunks
pub mod Reassembly
pub mod Arrivals
use baltica.Base.{ℕ, zero, suc, ◌+◌, ◌-◌, ◌*◌, ◌/◌, min}
use baltica.Base.{Bool, true, false, Option, none, some, List, [], ◌∷◌, ◌++◌}
use baltica.Base.Tests.{◌==◌, ltb, if◌then◌else◌}
use baltica.Base.Lists.{length, take, drop}
use baltica.Base.Maps.{Map, lookup, insert, erase}
use baltica.Frame.{Frame}

-- `buffer.subarray(from, to)`
abbrev pub subarray : ℕ → ℕ → List ℕ → List ℕ
subarray from to bytes = take (to - from) (drop from bytes)

-- `payload.subarray(i * maxSize, Math.min((i + 1) * maxSize, payload.byteLength))`
abbrev pub chunk : ℕ → List ℕ → ℕ → List ℕ
chunk max_size payload i =
    subarray (i * max_size) (min ((i + 1) * max_size) (length payload)) payload

-- `Math.ceil(a / b)` at a positive b
abbrev pub ceil_div : ℕ → ℕ → ℕ
ceil_div a b = (a + b - 1) / b

-- `{ frames: Map<number, Frame>; timestamp: number }`
pub record Entry : Type 0 where
  pub frames : Map Frame
  pub timestamp : ℕ

-- `for (let i = 0; i < splitSize; i++)`, with the rounds counted: the payloads in order, or none at
-- a missing fragment.
unfoldable pub collect : ℕ → ℕ → Map Frame → List ℕ → Option (List ℕ)
collect zero i frames stream = some stream
collect (suc n) i frames stream = elim (lookup i frames) [
  | none ↦ none
  | some f ↦ collect n (i + 1) frames (stream ++ f.payload)
]

-- The frame that is handled in place of its fragments: `new Frame()` with these fields copied.
abbrev pub reassemble : Frame → List ℕ → Frame
reassemble f payload = record f {
  split_frame_index = 0;
  split_size = 0;
  split_id = 0;
  payload = payload;
}

abbrev pub entry_of : ℕ → Map Entry → ℕ → Entry
entry_of id queue now = elim (lookup id queue) [
  | none ↦ record { frames = []; timestamp = now }
  | some entry ↦ entry
]

-- What `handleSplit` does once the fragment is in the entry.
unfoldable pub settle : Frame → Map Entry → Entry → Map Entry × Option Frame
settle f queue entry =
    let stored = insert f.split_id entry queue in
    if length entry.frames == f.split_size
    then (elim (collect f.split_size 0 entry.frames []) [
      | none ↦ (erase f.split_id stored, none)
      | some payload ↦ (erase f.split_id stored, some (reassemble f payload))
    ])
    else (stored, none)

-- `handleSplit` up to the call that handles the reassembled frame: the new queue, and that frame
-- if the fragment completes one.
unfoldable pub handle_split : Frame → ℕ → Map Entry → Map Entry × Option Frame
handle_split f now queue =
    let old = entry_of f.split_id queue now in
    settle f queue (record old { frames = insert f.split_frame_index f old.frames })
