-- ===== src/Packets/OfflineRoundTrip.antt =====
-- Round trips of the packets of packages/raknet/src/shared/proto/packets/offline.
use baltica.Base.{
  ℕ, zero, suc, ◌-◌, ◌^◌, ◌≤◌, ◌<◌, ◌≡◌, refl, ap, ◌∙◌, Bool, true, false, Option, none, some, List,
  [], ◌∷◌, ◌++◌, append-nil, append_assoc, arith,
}
use baltica.Base.Tests.{ltb}
use baltica.Base.Lists.{length, length-append}
use baltica.Stream.{Width, BinaryStream, Laws}
use baltica.Stream.Buffers.{payload, payload-put}
use baltica.Address.RoundTrip.{IsCanonical, read-write}
use baltica.Packets.{open_connection_request1, magic, alloc, read_magic}
use baltica.Packets.Offline.{
  UnconnectedPing, UnconnectedPong, OpenConnectionRequestOne, OpenConnectionReplyOne,
  OpenConnectionReplyTwo, write_unconnected_ping, read_unconnected_ping, write_unconnected_pong,
  read_unconnected_pong, write_open_connection_request_one, read_open_connection_request_one,
  write_open_connection_reply_one, read_open_connection_reply_one, write_open_connection_reply_two,
  read_open_connection_reply_two,
}

length-alloc : (n : ℕ) → length (alloc n) ≡ n
length-alloc zero = refl
length-alloc (suc n) = ap suc (length-alloc n)

abbrev is_some : Option ℕ → Bool
is_some none = false
is_some (some c) = true

abbrev pub CookieFits : Option ℕ → Type 0
CookieFits none = Unit {0}
CookieFits (some c) = c < 2 ^ 32

-- A first reply with a cookie, or without one and without security.
abbrev pub reply_one : ℕ → Option ℕ → ℕ → OpenConnectionReplyOne
reply_one guid cookie mtu = record {
  guid = guid;
  security = is_some cookie;
  has_cookie = is_some cookie;
  cookie = cookie;
  server_public_key = none;
  mtu = mtu;
}

module _ (io : BinaryStream) (laws : Laws io) where
  pub read_magic-write :
      (rest : List ℕ) → read_magic io (io.write magic ++ rest) ≡ some (magic, rest)
  read_magic-write rest = rw (laws.write_lem magic) (laws.read_lem magic rest)

  pub read_unconnected_ping-write :
      (p : UnconnectedPing)
      → p.timestamp < 2 ^ 63
      → p.guid < 2 ^ 64
      → read_unconnected_ping io (payload (write_unconnected_ping io p)) ≡ some p
  unfolding read_unconnected_ping write_unconnected_ping
  read_unconnected_ping-write p ht hg =
      rw
        (
          payload-put io laws,
          laws.get-put Width.int64 _ _ ht,
          read_magic-write,
          ← append-nil (io.put Width.uint64 p.guid),
          laws.get-put Width.uint64 _ _ hg,
        )
        refl

  -- An unconnected pong comes back from its bytes, if its fields fit theirs.
  pub read_unconnected_pong-write :
      (p : UnconnectedPong)
      → p.timestamp < 2 ^ 63
      → p.guid < 2 ^ 64
      → length p.message < 2 ^ 16
      → read_unconnected_pong io (payload (write_unconnected_pong io p)) ≡ some p
  unfolding read_unconnected_pong write_unconnected_pong
  read_unconnected_pong-write p ht hg hm =
      rw
        (
          payload-put io laws,
          laws.get-put Width.int64 _ _ ht,
          laws.get-put Width.uint64 _ _ hg,
          read_magic-write,
          ← append-nil (io.put_string16 p.message),
          laws.get-put_string16 _ _ hm,
        )
        refl

  abbrev start : OpenConnectionRequestOne → List ℕ
  start p =
      io.put Width.uint8 open_connection_request1
      ++ (io.write magic ++ io.put Width.uint8 p.protocol)

  length-start : (p : OpenConnectionRequestOne) → length (start p) ≡ 18
  length-start p =
      length-append (io.put Width.uint8 open_connection_request1)
        (io.write magic ++ io.put Width.uint8 p.protocol)
      ∙ rw
          (
            length-append (io.write magic) (io.put Width.uint8 p.protocol),
            laws.length-put,
            laws.length-put,
            laws.write_lem,
          )
          refl

  read_start :
      (p : OpenConnectionRequestOne) (rest : List ℕ)
      → p.protocol < 2 ^ 8
      → read_open_connection_request_one io (payload (start p ++ rest))
        ≡ some (record p { mtu = length (payload (start p ++ rest)) })
  unfolding read_open_connection_request_one
  read_start p rest hp =
      rw
        (
          append_assoc,
          payload-put io laws,
          append_assoc,
          read_magic-write,
          laws.get-put Width.uint8 _ _ hp,
        )
        refl

  length-payload : (bytes : List ℕ) → length (payload bytes) ≡ length bytes - 1
  length-payload [] = refl
  length-payload (b ∷ bytes) = omega arith

  -- The first request is as long as the MTU that it tries, and is read as one less: the identifier
  -- has been cut off before.
  pub read_open_connection_request_one-write :
      (p : OpenConnectionRequestOne)
      → 18 ≤ p.mtu
      → p.protocol < 2 ^ 8
      → (bytes : List ℕ) × (write_open_connection_request_one io p ≡ some bytes)
        × (length bytes ≡ p.mtu)
        × (read_open_connection_request_one io (payload bytes)
            ≡ some (record p { mtu = p.mtu - 1 }))
  unfolding write_open_connection_request_one
  read_open_connection_request_one-write p h hp =
      let padding = io.write (alloc (p.mtu - length (start p))) in
      let size : length (start p ++ padding) ≡ p.mtu =
        length-append (start p) padding
        ∙ rw (laws.write_lem (alloc (p.mtu - length (start p))), length-alloc, length-start p)
            (omega arith) in
      (
        start p ++ padding,
        rw (length-start p, not_below p.mtu 18 h) refl,
        size,
        read_start p padding hp
            ∙ ap (λ n. some (record p { mtu = n }))
                (length-payload (start p ++ padding) ∙ ap (λ n. n - 1) size),
      )
    where
      not_below : (a b : ℕ) → b ≤ a → ltb a b ≡ false
      not_below a b h = ground arith

  -- The first reply comes back, if it has no key, and a cookie exactly if it is secure.
  pub read_open_connection_reply_one-write :
      (guid mtu : ℕ) (cookie : Option ℕ)
      → guid < 2 ^ 64
      → mtu < 2 ^ 16
      → CookieFits cookie
      → read_open_connection_reply_one io
          (payload (write_open_connection_reply_one io (reply_one guid cookie mtu)))
        ≡ some (reply_one guid cookie mtu)
  unfolding read_open_connection_reply_one write_open_connection_reply_one
  read_open_connection_reply_one-write guid mtu none hg hm hc =
      rw
        (
          payload-put io laws,
          read_magic-write,
          laws.get-put Width.uint64 _ _ hg,
          laws.get-put_bool,
          ← append-nil (io.put Width.uint16 mtu),
          laws.get-put Width.uint16 _ _ hm,
        )
        refl
  read_open_connection_reply_one-write guid mtu (some c) hg hm hc =
      rw
        (
          payload-put io laws,
          read_magic-write,
          laws.get-put Width.uint64 _ _ hg,
          laws.get-put_bool,
          append_assoc,
          laws.get-put Width.uint32 _ _ hc,
          ← append-nil (io.put Width.uint16 mtu),
          laws.get-put Width.uint16 _ _ hm,
        )
        refl

  pub read_open_connection_reply_two-write :
      (p : OpenConnectionReplyTwo)
      → p.guid < 2 ^ 64
      → p.mtu < 2 ^ 15
      → IsCanonical p.address
      → read_open_connection_reply_two io (payload (write_open_connection_reply_two io p)) ≡ some p
  unfolding read_open_connection_reply_two write_open_connection_reply_two
  read_open_connection_reply_two-write p hg hm ha =
      rw
        (
          payload-put io laws,
          read_magic-write,
          laws.get-put Width.uint64 _ _ hg,
          read-write io laws p.address _ ha,
          laws.get-put Width.int16 _ _ hm,
          ← append-nil (io.put_bool p.encryption_enabled),
          laws.get-put_bool,
        )
        refl
