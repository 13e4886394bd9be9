-- ===== src/Bridge.antt =====
-- packages/baltica/src/bridge/bridge-player.ts: `routePacket`, which passes a packet on between a player
-- and a server.
--
-- A listener changes the context that it is given, or throws. The packet classes are a parameter: the
-- reading and writing of the class that a buffer's id names.
pub mod Routing
pub mod Players
pub mod Lifetimes
pub mod Eviction
use baltica.Base.{ℕ, Bool, true, false, not, ◌&&◌, ◌||◌, Option, none, some, List, [], ◌∷◌}
use baltica.Base.Tests.{if◌then◌else◌}
use baltica.Frame.{◌>>=◌}

-- A class: none if `deserialize` or `serialize` throws.
pub record PacketClass (P : Type 0) : Type 0 where
  pub deserialize : List ℕ → Option P
  pub serialize : P → Option (List ℕ)

-- What the context has for a packet: nothing yet, an object, or the buffer where it cannot be read.
pub data Deserialized (P : Type 0) : Type 0 where
  nothing : Deserialized P
  packet : P → Deserialized P
  raw : Deserialized P

pub record Context (P : Type 0) : Type 0 where
  pub deserialized : Deserialized P
  pub cancelled : Bool
  pub modified : Bool

pub data Destination : Type 0 where
  player client : Destination

-- What is called on the player or the client; none is an exception.
pub data Routed : Type 0 where
  dropped throws : Routed
  sent : Destination → List ℕ → Routed

abbrev pub destination : Bool → Destination
destination client_bound = if client_bound then player else client

abbrev send_out : Destination → Option (List ℕ) → Routed
send_out to none = throws
send_out to (some bytes) = sent to bytes

-- `listenerCount(event) === 0`
abbrev pub is_silent : {A : Type 0} → List A → Bool
is_silent [] = true
is_silent (listener ∷ listeners) = false

abbrev pub Listener : Type 0 → Type 0
Listener P = Context P → Option (Context P)

module _ {P : Type 0} where
  -- `ctx.packet`
  unfoldable pub read_packet : PacketClass P → List ℕ → Context P → Context P
  read_packet class buffer ctx = elim ctx.deserialized [
    | nothing ↦ record ctx {
      deserialized = elim (class.deserialize buffer) [ none ↦ raw | some p ↦ packet p ];
    }
    | other ↦ ctx
  ]

  -- `emit` to the listeners of an event.
  unfoldable pub emit : List (Listener P) → Context P → Option (Context P)
  emit [] ctx = some ctx
  emit (listener ∷ listeners) ctx = listener ctx >>= emit listeners

  abbrev pub no_context : Context P
  no_context = record { deserialized = nothing; cancelled = false; modified = false }

  -- `if (!cancelled && hasWildcard) this.emit(...)`
  unfoldable pub emit_unless_cancelled : List (Listener P) → Context P → Option (Context P)
  emit_unless_cancelled listeners ctx = if ctx.cancelled then some ctx else emit listeners ctx

  -- The three events in their order.
  unfoldable pub emit_all :
      List (Listener P) → List (Listener P) → List (Listener P) → Option (Context P)
  emit_all specific wildcard complete = do
    first ← emit specific no_context
    second ← emit_unless_cancelled wildcard first
    emit_unless_cancelled complete second

  abbrev out : PacketClass P → List ℕ → Bool → Deserialized P → Option (List ℕ)
  out class buffer true (packet p) = class.serialize p
  out class buffer true raw = none
  out class buffer _ _ = some buffer

  abbrev pub conclude : PacketClass P → List ℕ → Destination → Option (Context P) → Routed
  conclude class buffer to none = throws
  conclude class buffer to (some ctx) =
      if ctx.cancelled
      then dropped
      else send_out to (out class buffer ctx.modified ctx.deserialized)

  -- `routePacket`; no class is one that is not known.
  unfoldable pub route_packet :
      Option (PacketClass P)
      → List ℕ
      → Bool
      → List (Listener P)
      → List (Listener P)
      → List (Listener P)
      → Routed
  route_packet none buffer client_bound specific wildcard complete =
      sent (destination client_bound) buffer
  route_packet (some class) buffer client_bound specific wildcard complete =
      if is_silent specific && is_silent wildcard && is_silent complete
      then sent (destination client_bound) buffer
      else conclude class buffer (destination client_bound) (emit_all specific wildcard complete)
