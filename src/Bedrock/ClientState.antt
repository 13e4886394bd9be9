-- ===== src/Bedrock/ClientState.antt =====
-- The state of a client of packages/baltica/src/client/client.ts, and how it ends.
--
-- The listeners are those that the client registers itself: the flags of `waiting` are those that
-- serve once.
use baltica.Base.{ℕ, ◌+◌, Bool, true, false, Option, List, [], ◌∷◌, ◌++◌}
use baltica.Base.Tests.{if◌then◌else◌}
use baltica.Base.Texts.{Text, is_empty}
use baltica.Serializer.{PacketCompressor}
use baltica.Json.{Json, Items, nil, cons}
use baltica.Bedrock.LoginOptions.{LoginData}
use baltica.Outbound.{Priority}

pub data ClientEvent : Type 0 where
  spawn connect : ClientEvent
  disconnect : Text → ClientEvent

-- What `connect()` promises.
pub data Promise : Type 0 where
  not_asked pending resolved : Promise
  rejected : Text → Promise

-- The listeners that serve once.
pub record Waiting : Type 0 where
  pub handshake : Bool
  pub packs_info : Bool
  pub pack_stack : Bool
  pub start_game : Bool
  -- The listener of `connect()` for `SetLocalPlayerAsInitializedPacket`.
  pub initialized : Bool

pub record Client (C D : Type 0) : Type 0 where
  pub compressor : PacketCompressor C D
  pub key : List ℕ
  pub login_data : LoginData
  pub offline : Bool
  pub view_distance : ℕ
  pub stop_past_login : Bool
  -- The runtime id of the last `StartGamePacket`.
  pub start_game_data : Option ℕ
  pub is_disconnected : Bool
  -- Whether the listeners are there; `removeAllListeners` removes them all.
  pub listening : Bool
  pub waiting : Waiting
  pub promise : Promise
  pub sent : List (List ℕ × Priority)
  pub events : List ClientEvent
  -- How often `raknet.close()` and `raknet.disconnect()` have been called.
  pub raknet_closes : ℕ
  pub raknet_disconnects : ℕ
  -- The timer of `disconnect`.
  pub closing : Bool

-- `ProtocolList[CurrentVersionConst]`
abbrev pub current_protocol : ℕ
current_protocol = 944

unfoldable pub non_empty : List Text → Items
non_empty [] = nil
non_empty (t ∷ texts) = if is_empty t then non_empty texts else cons (Json.text t) (non_empty texts)

module _ {C D : Type 0} where
  -- `emit("disconnect", reason)`: the listener of `connect()` rejects its promise.
  unfoldable pub emit_disconnect : Text → Client C D → Client C D
  emit_disconnect reason c = record c {
    events = c.events ++ ClientEvent.disconnect reason ∷ [];
    promise = elim c.promise [
      | pending ↦ if c.listening then rejected reason else pending
      | other ↦ other
    ];
  }

  -- `close`
  unfoldable pub close : Client C D → Client C D
  close c =
      let closed = record c { raknet_closes = c.raknet_closes + 1 } in
      if c.is_disconnected
      then closed
      else record closed { is_disconnected = true; listening = false }

  -- The listeners of RakNet's "disconnect" and "error", and of `DisconnectPacket`.
  unfoldable pub on_lost : Text → Client C D → Client C D
  on_lost reason c =
      if c.is_disconnected
      then c
      else close (emit_disconnect reason (record c { is_disconnected = true }))

  -- `disconnect`, up to its timer.
  unfoldable pub disconnect_client : Text → Client C D → Client C D
  disconnect_client reason c =
      if c.is_disconnected
      then c
      else record (emit_disconnect reason (record c { is_disconnected = true })) { closing = true }

  -- The timer of `disconnect`.
  unfoldable pub finish_disconnect : Client C D → Client C D
  finish_disconnect c =
      if c.closing
      then record c {
        closing = false;
        raknet_disconnects = c.raknet_disconnects + 1;
        listening = false;
      }
      else c
