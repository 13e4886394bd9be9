-- ===== src/RaknetClient.antt =====
-- packages/raknet/src/client/client.ts: a client of RakNet around its session.
--
-- The promises, callbacks and timers of the class are operations, which do nothing where they cannot
-- happen; a run is a list of them. The session is what it tells the client and what the client tells
-- it; a bind and a relay in the making, and the answer to a lookup, come as operations. `connect` is
-- called once.
pub mod Release
use baltica.Base.{ℕ, zero, suc, ◌+◌, Bool, true, false, ◌&&◌, ◌||◌, not, List, [], ◌∷◌, ◌++◌}
use baltica.Base.Tests.{ltb, if◌then◌else◌}

-- How far `bindPromise` has got: no promise yet, the lookup, the relay in the making, the socket
-- binding, and the two ends.
pub data Stage : Type 0 where
  unbound resolving negotiating binding bound failed : Stage

pub data Reason : Type 0 where
  init_failed network_error timed_out : Reason

-- What `connect()` promises: it waits for the bind, then for the session.
pub data Connecting : Type 0 where
  not_asked waiting pending resolved : Connecting
  rejected : Reason → Connecting

pub data ClientEvent : Type 0 where
  connect disconnect error : ClientEvent

pub record Client : Type 0 where
  pub proxy : Bool
  pub stage : Stage
  -- Whether `socket` or `relay` is set, and whether what was opened is still open.
  pub held : Bool
  pub socket_open : Bool
  pub closed : Bool
  -- `network.destroy()` has been called.
  pub destroyed : Bool
  -- The listeners of the constructor, and those of `connect`.
  pub listening : Bool
  pub awaiting : Bool
  pub promise : Connecting
  -- The timer of `connect`.
  pub timer : Bool
  -- The timers of `disconnect`.
  pub closing : ℕ
  -- Calls of `ping` that wait for the bind, those that wait for a pong, and those that have one.
  pub asked_pings : ℕ
  pub open_pings : ℕ
  pub answered_pings : ℕ
  -- `sendOfflineWithRetry` of the first request.
  pub requests : ℕ
  pub events : List ClientEvent

-- `new Client(options)`, with a proxy or without.
abbrev pub new_client : Bool → Client
new_client proxy = record {
  proxy = proxy;
  stage = unbound;
  held = false;
  socket_open = false;
  closed = false;
  destroyed = false;
  listening = true;
  awaiting = false;
  promise = not_asked;
  timer = false;
  closing = 0;
  asked_pings = 0;
  open_pings = 0;
  answered_pings = 0;
  requests = 0;
  events = [];
}

-- `close`
unfoldable pub close : Client → Client
close c = if c.closed then c else record c {
  closed = true;
  destroyed = true;
  listening = false;
  awaiting = false;
  open_pings = 0;
  socket_open = c.socket_open && not c.held;
  held = false;
}

-- `ensureBound`
abbrev pub ensure_bound : Client → Client
ensure_bound c = elim c.stage [ unbound ↦ record c { stage = resolving } | _ ↦ c ]

-- `init` has thrown: `close`, and `bindPromise` is refused.
abbrev pub init_fails : Client → Client
init_fails c = close (record c { stage = failed })

-- `init`, once the lookup has an address: `initProxy`, or `initDirect`.
abbrev pub address_found : Client → Client
address_found c =
    if c.proxy
    then record c { stage = negotiating }
    else record c { stage = binding; held = true; socket_open = true }

-- `connect` after the bind.
abbrev pub start_connecting : Client → Client
start_connecting c = record c {
  promise = pending;
  timer = true;
  awaiting = true;
  requests = c.requests + 1;
}

-- What the listeners of `connect` do when it ends.
abbrev pub settle : Connecting → Client → Client
settle end c = record c { promise = end; timer = false; awaiting = false }

-- The session emits "connect".
unfoldable pub on_network_connect : Client → Client
on_network_connect c =
    let told = if c.listening then record c { events = c.events ++ connect ∷ [] } else c in
    if c.awaiting then settle resolved told else told

-- The session emits "disconnect".
unfoldable pub on_network_disconnect : Client → Client
on_network_disconnect c =
    if c.listening then close (record c { events = c.events ++ disconnect ∷ [] }) else c

-- The session emits "error": the listener of `connect` is called after that of the constructor, which
-- has removed both from the map, but not from the set that is gone through.
unfoldable pub on_network_error : Client → Client
on_network_error c =
    let told = if c.listening then close (record c { events = c.events ++ error ∷ [] }) else c in
    if c.awaiting then settle (rejected network_error) (close told) else told

-- The timer of `connect`.
unfoldable pub on_timeout : Client → Client
on_timeout c = if c.timer then settle (rejected timed_out) (close c) else c

-- The timer of `disconnect`.
abbrev pub on_disconnect_timer : Client → Client
on_disconnect_timer c = elim c.closing [
  | zero ↦ c
  | suc n ↦
      let q = close (record c { closing = n }) in record q { events = q.events ++ disconnect ∷ [] }
]

pub data Operation : Type 0 where
  -- Calls by the application; `connect`'s and `ping`'s second part runs once the bind is done.
  call_connect call_ping call_disconnect call_close : Operation
  go_on_connecting go_on_pinging : Operation
  -- The lookup, the relay and the socket.
  lookup_found lookup_failed relay_made relay_failed socket_listens : Operation
  -- The session.
  network_connect network_disconnect network_error network_pong : Operation
  -- The timers.
  timeout disconnect_timer : Operation

abbrev is_at : Stage → Stage → Bool
is_at unbound unbound = true
is_at resolving resolving = true
is_at negotiating negotiating = true
is_at binding binding = true
is_at bound bound = true
is_at failed failed = true
is_at _ _ = false

abbrev waits : Connecting → Bool
waits waiting = true
waits _ = false

abbrev is_new : Connecting → Bool
is_new not_asked = true
is_new _ = false

unfoldable pub apply : Operation → Client → Client
apply call_connect c = if is_new c.promise then ensure_bound (record c { promise = waiting }) else c
apply call_ping c = ensure_bound (record c { asked_pings = c.asked_pings + 1 })
apply call_disconnect c = record c { closing = c.closing + 1 }
apply call_close c = close c
apply go_on_connecting c =
    if waits c.promise
    then elim c.stage [
      | bound ↦ start_connecting c
      | failed ↦ record c { promise = rejected init_failed }
      | _ ↦ c
    ]
    else c
apply go_on_pinging c = elim c.stage [
  | bound ↦ record c { open_pings = c.open_pings + c.asked_pings; asked_pings = 0 }
  | failed ↦ record c { asked_pings = 0 }
  | _ ↦ c
]
apply lookup_found c = if is_at c.stage resolving then address_found c else c
apply lookup_failed c = if is_at c.stage resolving then init_fails c else c
apply relay_made c =
    if is_at c.stage negotiating
    then record c { stage = bound; held = true; socket_open = true }
    else c
apply relay_failed c = if is_at c.stage negotiating then init_fails c else c
apply socket_listens c =
    if is_at c.stage binding && c.socket_open then record c { stage = bound } else c
apply network_connect c = on_network_connect c
apply network_disconnect c = on_network_disconnect c
apply network_error c = on_network_error c
apply network_pong c = record c { answered_pings = c.answered_pings + c.open_pings; open_pings = 0 }
apply timeout c = on_timeout c
apply disconnect_timer c = on_disconnect_timer c

unfoldable pub run : List Operation → Client → Client
run [] c = c
run (operation ∷ operations) c = run operations (apply operation c)
