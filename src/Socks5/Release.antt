-- ===== src/Socks5/Release.antt =====
-- packages/raknet/src/shared/socks5.ts: the handshake of `createSocks5Relay` with a proxy
-- that follows the protocol.
use baltica.Base.{
  ℕ, ◌+◌, ◌*◌, ◌/◌, ◌%◌, ◌<◌, ◌≡◌, refl, inl, inr, ◌&&◌, Bool, true, false, Option, none, some,
  List, [], ◌∷◌, ◌++◌, map, arith,
}
use baltica.Base.Tests.{Bool-cases, if◌then◌else◌}
use baltica.Base.Lists.{length, take, drop, take-append, drop-append, take_all}
use baltica.Base.Texts.{Text, is_empty, present}
use baltica.Address.{join, dot, decimal}
use baltica.Server.{same_text}
use baltica.Socks5.{uint16_be}
use baltica.Socks5.Relay.{
  Failure, resolved, rejected, byte_at, auth_request, authenticate, or_remote, associated_at,
  on_associated, udp_associate, Relay, create_socks5_relay,
}

-- A proxy's side of the protocol: the name and the password of a request.
abbrev password_in : Text → List ℕ → Option (Text × Text)
password_in username [] = none
password_in username (size ∷ bytes) = some (username, take size bytes)

abbrev pub read_auth : List ℕ → Option (Text × Text)
read_auth (version ∷ size ∷ bytes) = password_in (take size bytes) (drop size bytes)
read_auth _ = none

-- And its answer, if it knows one user.
abbrev pub answer_auth : Text → Text → Option (Text × Text) → List ℕ
answer_auth username password none = 1 ∷ 1 ∷ []
answer_auth username password (some (name, word)) =
    1 ∷ (if same_text name username && same_text word password then 0 else 1) ∷ []

-- A proxy reads the name and the password that `authenticate` sends, if each has less than 256 bytes.
pub read_auth-auth_request :
    (username password : Text)
    → length username < 256
    → length password < 256
    → read_auth (auth_request (username, password)) ≡ some (username, password)
unfolding auth_request
read_auth-auth_request username password hu hp =
    let eu : length username % 256 ≡ length username = omega (arith, hu) in
    let ep : length password % 256 ≡ length password = omega (arith, hp) in
    rw
      (
        eu,
        ep,
        take-append username (length password ∷ password),
        drop-append username (length password ∷ password),
        take_all (length password) password (omega arith),
      )
      refl

abbrev pub relay_of : Bool → Text → ℕ → Relay
relay_of lasts address port = record {
  tcp_open = lasts;
  udp_open = true;
  closed = false;
  address = address;
  port = port;
  sent = [];
}

-- What a proxy sends that knows a user and relays at an IPv4 address.
abbrev pub proxy_replies : Text → Text → List ℕ → List ℕ → ℕ → List (List ℕ)
proxy_replies known word request host port =
    (5 ∷ 2 ∷ [])
    ∷ answer_auth known word (read_auth request)
    ∷ (5 ∷ 0 ∷ 0 ∷ 1 ∷ (host ++ uint16_be port))
    ∷ []

present_text : (t : Text) → is_empty t ≡ false → present (some t) ≡ some t
present_text [] h = cc
present_text (c ∷ t) h = refl

-- The promise of `createSocks5Relay` with a proxy that knows one user and relays at an IPv4 address, if
-- the UDP socket binds: a relay for that user, which is not closed, whether or not the proxy has kept
-- its connection open, and a failure for any other.
pub proxy_decides :
    (username password known word remote : Text) (a b c d port : ℕ) (lasts : Bool)
    → is_empty username ≡ false
    → is_empty password ≡ false
    → length username < 256
    → length password < 256
    → port < 65536
    → let request = auth_request (username, password) in
      (create_socks5_relay (some username) (some password) (record {
        reached = true;
        binds = true;
        lasts = lasts;
        remote = remote;
        replies = proxy_replies known word request (a ∷ b ∷ c ∷ d ∷ []) port;
      })).fate
      ≡ (if same_text username known && same_text password word
          then resolved
              (relay_of lasts (or_remote remote (join dot (map decimal (a ∷ b ∷ c ∷ d ∷ [])))) port)
          else rejected Failure.authentication_failed)
unfolding create_socks5_relay authenticate byte_at udp_associate on_associated associated_at
proxy_decides username password known word remote a b c d port lasts nu np hu hp hport =
    let read = read_auth-auth_request username password hu hp in
    let same : port / 256 % 256 * 256 + port % 256 ≡ port = omega (arith, hport) in
    elim (Bool-cases (same_text username known && same_text password word)) [
      | inl e ↦ rw (present_text username nu, present_text password np, read, e, same) refl
      | inr e ↦ rw (present_text username nu, present_text password np, read, e) refl
    ]
