-- ===== src/Bridge/Players.antt =====
-- The players of a server of the game protocol, packages/baltica/src/server/server.ts, and those of the
-- bridge around it, packages/baltica/src/bridge/bridge.ts and bridge-player.ts.
--
-- A connection's identifier is a number here. What listeners of the application do is not part of
-- the model, nor is what is logged.
use baltica.Base.{ℕ, ◌+◌, none, some, List, [], ◌∷◌, ◌++◌}
use baltica.Base.Tests.{if◌then◌else◌}
use baltica.Base.Sets.{has, add}
use baltica.Base.Maps.{Map, lookup, insert, erase}

-- A player is a new object for each "connect" of RakNet.
pub record Player : Type 0 where
  pub number : ℕ
  -- `connection.identifier`
  pub key : ℕ

pub data HubEvent : Type 0 where
  -- "playerConnect" and "disconnect" of the server, "connect" and "disconnect" of the bridge.
  player_connect player_left : Player → HubEvent
  bridge_connect bridge_left : Player → HubEvent

pub record Hub : Type 0 where
  -- `Server.players` and `Bridge.clients`
  pub players : Map Player
  pub clients : Map Player
  pub next_player : ℕ
  -- The players that have shaken hands, whose bridge players have a client.
  pub shaken : List ℕ
  -- Those whose `send` was called with a DisconnectPacket for a new connection, and those for whose
  -- clients it was.
  pub kicked : List Player
  pub told : List Player
  pub events : List HubEvent

abbrev pub new_hub : Hub
new_hub = record {
  players = [];
  clients = [];
  next_player = 0;
  shaken = [];
  kicked = [];
  told = [];
  events = [];
}

-- `if (existing) existing.send(...)`
abbrev pub kick : ℕ → Hub → Hub
kick key h = elim (lookup key h.players) [
  | none ↦ h
  | some existing ↦ record h { kicked = h.kicked ++ existing ∷ [] }
]

-- The bridge's listener for "playerConnect".
abbrev pub on_player_connect : Player → Hub → Hub
on_player_connect p h = record h {
  clients = insert p.key p h.clients;
  events = h.events ++ bridge_connect p ∷ [];
}

-- The server's listener for "connect".
unfoldable pub on_connect : ℕ → Hub → Hub
on_connect key h =
    let p : Player = record { number = h.next_player; key = key } in
    let kicked = kick key h in
    on_player_connect p (record kicked {
      players = insert key p kicked.players;
      next_player = kicked.next_player + 1;
      events = kicked.events ++ player_connect p ∷ [];
    })

-- `Server.onDisconnect`
unfoldable pub on_disconnect : Player → Hub → Hub
on_disconnect p h = record h {
  players = erase p.key h.players;
  events = h.events ++ player_left p ∷ [];
}

-- `Bridge.disconnect`
unfoldable pub disconnect : Player → Hub → Hub
disconnect p h = on_disconnect p (record h {
  told = h.told ++ p ∷ [];
  clients = erase p.key h.clients;
  events = h.events ++ bridge_left p ∷ [];
})

-- `onHandshake`: from here on the bridge listens to both sides.
abbrev pub on_handshake : Player → Hub → Hub
on_handshake p h = record h { shaken = add p.number h.shaken }

abbrev pub if_shaken : Player → (Hub → Hub) → Hub → Hub
if_shaken p f h = if has p.number h.shaken then f h else h

-- What happens: RakNet has a connection, the player shakes hands, its connection ends, or one of the
-- others of the six events comes that its bridge player listens to.
pub data Signal : Type 0 where
  connects : ℕ → Signal
  shakes connection_ends side_ends : Player → Signal

-- The listener of the server for the end of a connection comes first.
abbrev pub on_signal : Signal → Hub → Hub
on_signal (connects key) h = on_connect key h
on_signal (shakes p) h = on_handshake p h
on_signal (connection_ends p) h = if_shaken p (disconnect p) (on_disconnect p h)
on_signal (side_ends p) h = if_shaken p (disconnect p) h

unfoldable pub on_signals : List Signal → Hub → Hub
on_signals [] h = h
on_signals (signal ∷ signals) h = on_signals signals (on_signal signal h)
