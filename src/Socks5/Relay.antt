-- ===== src/Socks5/Relay.antt =====
-- packages/raknet/src/shared/socks5.ts: the handshake with a SOCKS5 proxy, and the relay that it gives.
--
-- What the proxy sends comes as the buffers of the "data" events, in order; what is written to it is a
-- list. A user name and a password are their bytes.
use baltica.Base.{
  ℕ, zero, suc, ◌+◌, ◌%◌, Bool, true, false, not, ◌&&◌, ◌||◌, Option, none, some, List, [], ◌∷◌,
  ◌++◌,
}
use baltica.Base.Tests.{◌==◌, if◌then◌else◌}
use baltica.Base.Lists.{length, take, drop}
use baltica.Base.Texts.{Text, codes, present}
use baltica.Address.{join, dot, colon}
use baltica.Server.{same_text}
use baltica.Socks5.{build_udp_header, read_uint16_be, read_parts, decimals, ascii}

pub data Failure : Type 0 where
  connect_failed invalid_response authentication_failed : Failure
  unsupported_method associate_failed unsupported_address bind_failed : Failure

-- How a promise fares: it resolves, rejects, throws in a listener, where nobody catches it, or waits
-- for more.
pub data Fate (A : Type 0) : Type 0 where
  resolved : A → Fate A
  rejected : Failure → Fate A
  uncaught waits : Fate A

-- What has been written, what is still to come, and the promise.
pub record Talk (A : Type 0) : Type 0 where
  pub written : List (List ℕ)
  pub rest : List (List ℕ)
  pub fate : Fate A

-- `buffer[i]`
unfoldable pub byte_at : ℕ → List ℕ → Option ℕ
byte_at n [] = none
byte_at zero (b ∷ bytes) = some b
byte_at (suc n) (b ∷ bytes) = byte_at n bytes

abbrev pub is_byte : ℕ → Option ℕ → Bool
is_byte n none = false
is_byte n (some b) = b == n

abbrev pub credentials : Option Text → Option Text → Option (Text × Text)
credentials (some username) (some password) = some (username, password)
credentials _ _ = none

-- The methods that `authenticate` offers.
abbrev pub greeting : Option (Text × Text) → List ℕ
greeting none = 0x05 ∷ 0x01 ∷ 0x00 ∷ []
greeting (some known) = 0x05 ∷ 0x02 ∷ 0x00 ∷ 0x02 ∷ []

-- The user name and the password, each after its length in a byte.
unfoldable pub auth_request : Text × Text → List ℕ
auth_request (username, password) =
    0x01 ∷ length username % 256 ∷ (username ++ length password % 256 ∷ password)

abbrev on_auth : List (List ℕ) → List (List ℕ) → Talk (Unit {0})
on_auth written [] = record { written = written; rest = []; fate = waits }
on_auth written (response ∷ rest) = record {
  written = written;
  rest = rest;
  fate = if is_byte 0x00 (byte_at 1 response) then resolved tt else rejected authentication_failed;
}

abbrev on_password : Option (Text × Text) → List (List ℕ) → List (List ℕ) → Talk (Unit {0})
on_password none written rest = record {
  written = written;
  rest = rest;
  fate = rejected unsupported_method;
}
on_password (some known) written rest = on_auth (written ++ auth_request known ∷ []) rest

abbrev on_method : Option (Text × Text) → List (List ℕ) → List ℕ → List (List ℕ) → Talk (Unit {0})
on_method known written response rest =
    if not (is_byte 0x05 (byte_at 0 response))
    then record { written = written; rest = rest; fate = rejected invalid_response }
    else if is_byte 0x00 (byte_at 1 response)
    then record { written = written; rest = rest; fate = resolved tt }
    else if is_byte 0x02 (byte_at 1 response)
    then on_password known written rest
    else record { written = written; rest = rest; fate = rejected unsupported_method }

-- `authenticate`
unfoldable pub authenticate : Option (Text × Text) → List (List ℕ) → Talk (Unit {0})
authenticate known [] = record { written = greeting known ∷ []; rest = []; fate = waits }
authenticate known (response ∷ rest) = on_method known (greeting known ∷ []) response rest

abbrev pub associate_request : List ℕ
associate_request = 0x05 ∷ 0x03 ∷ 0x00 ∷ 0x01 ∷ 0x00 ∷ 0x00 ∷ 0x00 ∷ 0x00 ∷ 0x00 ∷ 0x00 ∷ []

-- The address, or the proxy's own where it is not specified, and the port.
abbrev pub or_remote : Text → Text → Text
or_remote remote address =
    if same_text address (codes "0.0.0.0") || same_text address (codes "::")
    then remote
    else address

abbrev with_port : Text → List ℕ → Text → ℕ → Fate (Text × ℕ)
with_port remote response address offset = elim (read_uint16_be response offset) [
  | none ↦ uncaught
  | some port ↦ resolved (or_remote remote address, port)
]

-- The branches on the address type.
unfoldable pub associated_at : Text → List ℕ → ℕ → Fate (Text × ℕ)
associated_at remote response atyp =
    if atyp == 0x01
    then with_port remote response (join dot (decimals (take 4 (drop 4 response)))) 8
    else if atyp == 0x03
    then (elim (byte_at 4 response) [
      | none ↦ uncaught
      | some size ↦ with_port remote response (ascii (take size (drop 5 response))) (5 + size)
    ])
    else if atyp == 0x04
    then (elim (read_parts 8 (drop 4 response)) [
      | none ↦ uncaught
      | some parts ↦ with_port remote response (join colon parts) 20
    ])
    else rejected unsupported_address

unfoldable pub on_associated : Text → List ℕ → Fate (Text × ℕ)
on_associated remote response =
    if not (is_byte 0x05 (byte_at 0 response) && is_byte 0x00 (byte_at 1 response))
    then rejected associate_failed
    else (elim (byte_at 3 response) [
      | none ↦ rejected unsupported_address
      | some atyp ↦ associated_at remote response atyp
    ])

-- `udpAssociate`
unfoldable pub udp_associate : Text → List (List ℕ) → Talk (Text × ℕ)
udp_associate remote [] = record { written = associate_request ∷ []; rest = []; fate = waits }
udp_associate remote (response ∷ rest) = record {
  written = associate_request ∷ [];
  rest = rest;
  fate = on_associated remote response;
}

-- A relay with its sockets, and the datagrams that it has sent to the proxy's address and port.
pub record Relay : Type 0 where
  pub tcp_open : Bool
  pub udp_open : Bool
  pub closed : Bool
  pub address : Text
  pub port : ℕ
  pub sent : List (List ℕ)

-- What `createSocks5Relay` leaves: the open sockets, what was written, and its promise.
pub record Created : Type 0 where
  pub tcp : Bool
  pub udp : Bool
  pub written : List (List ℕ)
  pub fate : Fate Relay

-- What can happen outside: whether the proxy is reached and the UDP socket binds, whether the proxy
-- keeps its connection open until then, its address and what it sends. Before the UDP socket is bound
-- nothing listens to the end of that connection.
pub record Surroundings : Type 0 where
  pub reached : Bool
  pub binds : Bool
  pub lasts : Bool
  pub remote : Text
  pub replies : List (List ℕ)

abbrev pub bind_udp : Surroundings → List (List ℕ) → Text × ℕ → Created
bind_udp s written (address, port) =
    if s.binds
    then record {
      tcp = s.lasts;
      udp = true;
      written = written;
      fate = resolved (record {
        tcp_open = s.lasts;
        udp_open = true;
        closed = false;
        address = address;
        port = port;
        sent = [];
      });
    }
    else record { tcp = false; udp = false; written = written; fate = rejected bind_failed }

abbrev pub after_associate : Surroundings → List (List ℕ) → Fate (Text × ℕ) → Created
after_associate s written (resolved relay) = bind_udp s written relay
after_associate s written (rejected e) = record {
  tcp = false;
  udp = false;
  written = written;
  fate = rejected e;
}
after_associate s written uncaught = record {
  tcp = s.lasts;
  udp = false;
  written = written;
  fate = uncaught;
}
after_associate s written waits = record {
  tcp = s.lasts;
  udp = false;
  written = written;
  fate = waits;
}

abbrev pub after_authenticate : Surroundings → Talk (Unit {0}) → Fate (Unit {0}) → Created
after_authenticate s talk (resolved u) =
    let more = udp_associate s.remote talk.rest in
    after_associate s (talk.written ++ more.written) more.fate
after_authenticate s talk (rejected e) = record {
  tcp = false;
  udp = false;
  written = talk.written;
  fate = rejected e;
}
after_authenticate s talk uncaught = record {
  tcp = s.lasts;
  udp = false;
  written = talk.written;
  fate = uncaught;
}
after_authenticate s talk waits = record {
  tcp = s.lasts;
  udp = false;
  written = talk.written;
  fate = waits;
}

-- `createSocks5Relay`, with `tcpConnect`.
unfoldable pub create_socks5_relay : Option Text → Option Text → Surroundings → Created
create_socks5_relay username password s =
    if s.reached
    then (let talk = authenticate (credentials (present username) (present password)) s.replies in
        after_authenticate s talk talk.fate)
    else record { tcp = false; udp = false; written = []; fate = rejected connect_failed }

abbrev sending : Relay → List ℕ → Option (List ℕ) → Option Relay
sending r bytes none = none
sending r bytes (some header) = some (record r { sent = r.sent ++ (header ++ bytes) ∷ [] })

-- `send` of a relay; none is an exception.
unfoldable pub relay_send : List ℕ → Text → ℕ → Relay → Option Relay
relay_send bytes address port r =
    if r.closed then some r else sending r bytes (build_udp_header address port)

-- `close` of a relay.
unfoldable pub relay_close : Relay → Relay
relay_close r =
    if r.closed then r else record r { closed = true; udp_open = false; tcp_open = false }

-- The TCP connection has closed.
unfoldable pub on_tcp_close : Relay → Relay
on_tcp_close r =
    if r.closed
    then record r { tcp_open = false }
    else record r { closed = true; udp_open = false; tcp_open = false }
