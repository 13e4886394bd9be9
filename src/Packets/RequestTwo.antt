-- ===== src/Packets/RequestTwo.antt =====
-- `OpenConnectionRequestTwo` of packages/raknet/src/shared/proto/packets/offline on the wire.
use baltica.Base.{
  ℕ, ◌+◌, ◌^◌, ◌<◌, ◌≡◌, refl, Bool, true, false, Option, none, some, [], ◌∷◌, ◌++◌, append-nil,
  append_assoc, arith,
}
use baltica.Base.Tests.{ltb}
use baltica.Base.Lists.{length, length-append, All}
use baltica.Stream.{Width, BinaryStream, Laws}
use baltica.Stream.Buffers.{payload, payload-put}
use baltica.Address
use baltica.Address.{
  Address, write_bytes, write_words, colon, flip, parse_int, split, join, dot, decimal,
}
use baltica.Address.RoundTrip.{ipv4, of_ipv4, IsCanonical, read-write}
use baltica.Packets.Offline.{
  OpenConnectionRequestTwo, write_open_connection_request_two, read_open_connection_request_two,
}
use baltica.Packets.OfflineRoundTrip.{read_magic-write}
use baltica.Address.Lengths.{length-write_ipv4, length-write-ge}

-- A second request, with a cookie and an answer to it or without either.
abbrev pub request_two : Address → ℕ → ℕ → Option (ℕ × Bool) → OpenConnectionRequestTwo
request_two x mtu guid none = record {
  address = x;
  mtu = mtu;
  guid = guid;
  cookie = none;
  client_supports_security = false;
}
request_two x mtu guid (some (cookie, supports)) = record {
  address = x;
  mtu = mtu;
  guid = guid;
  cookie = some cookie;
  client_supports_security = supports;
}

module _ (io : BinaryStream) (laws : Laws io) where
  -- Without a cookie the second request comes back if its address is IPv4.
  pub read_open_connection_request_two-write :
      (a b c d port mtu guid : ℕ)
      → All (λ n. n < 256) (a ∷ b ∷ c ∷ d ∷ [])
      → port < 2 ^ 16
      → mtu < 2 ^ 16
      → guid < 2 ^ 64
      → read_open_connection_request_two io (
          payload
            (write_open_connection_request_two io (request_two (ipv4 a b c d port) mtu guid none)))
        ≡ some (request_two (ipv4 a b c d port) mtu guid none)
  unfolding read_open_connection_request_two write_open_connection_request_two
  read_open_connection_request_two-write a b c d port mtu guid h hp hm hg =
      let x = ipv4 a b c d port in
      let tail = io.put Width.uint16 mtu ++ io.put Width.uint64 guid in
      let short : ltb 17 (length (Address.write io x ++ tail)) ≡ false =
        rw
          (
            length-append (Address.write io x) tail,
            length-append (io.put Width.uint16 mtu) (io.put Width.uint64 guid),
            length-write_ipv4 io laws a b c d port,
            laws.length-put,
            laws.length-put,
          )
          refl in
      rw
        (
          payload-put io laws,
          read_magic-write io laws,
          short,
          read-write io laws x _ (of_ipv4 a b c d port h hp),
          laws.get-put Width.uint16 _ _ hm,
          ← append-nil (io.put Width.uint64 guid),
          laws.get-put Width.uint64 _ _ hg,
        )
        refl

  -- With a cookie it comes back whatever its address.
  pub read_open_connection_request_two-write_cookie :
      (x : Address) (mtu guid cookie : ℕ) (supports : Bool)
      → IsCanonical x
      → mtu < 2 ^ 16
      → guid < 2 ^ 64
      → cookie < 2 ^ 32
      → read_open_connection_request_two io (
          payload (
            write_open_connection_request_two io
              (request_two x mtu guid (some (cookie, supports)))))
        ≡ some (request_two x mtu guid (some (cookie, supports)))
  unfolding read_open_connection_request_two write_open_connection_request_two
  read_open_connection_request_two-write_cookie x mtu guid cookie supports ha hm hg hc =
      let after = Address.write io x ++ (io.put Width.uint16 mtu ++ io.put Width.uint64 guid) in
      let size : length after ≡ length (Address.write io x) + (2 + 8) =
        rw
          (
            length-append (Address.write io x)
                (io.put Width.uint16 mtu ++ io.put Width.uint64 guid),
            length-append (io.put Width.uint16 mtu) (io.put Width.uint64 guid),
            laws.length-put Width.uint16 mtu,
            laws.length-put Width.uint64 guid,
          )
          refl in
      let answer = io.put Width.uint32 cookie ++ io.put_bool supports in
      let long : ltb 17 (length (answer ++ after)) ≡ true = ground (
        arith,
        length-append answer after,
        length-append (io.put Width.uint32 cookie) (io.put_bool supports),
        laws.length-put Width.uint32 cookie,
        laws.length-put_bool supports,
        size,
        length-write-ge io laws x,
      ) in
      rw
        (
          payload-put io laws,
          read_magic-write io laws,
          long,
          append_assoc,
          laws.get-put Width.uint32 _ _ hc,
          laws.get-put_bool,
          read-write io laws x _ ha,
          laws.get-put Width.uint16 _ _ hm,
          ← append-nil (io.put Width.uint64 guid),
          laws.get-put Width.uint64 _ _ hg,
        )
        refl
