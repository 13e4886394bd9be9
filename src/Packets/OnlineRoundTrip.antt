-- ===== src/Packets/OnlineRoundTrip.antt =====
-- Round trips of the packets of packages/raknet/src/shared/proto/packets/online.
use baltica.Base.{
  ℕ, zero, suc, ◌^◌, ◌≤◌, ◌<◌, ◌≡◌, refl, ap, ◌∙◌, true, some, List, [], ◌∷◌, ◌++◌, append-nil,
  append_assoc, arith,
}
use baltica.Base.Tests.{ltb}
use baltica.Base.Lists.{length, length-append, All}
use baltica.Stream.{Width, BinaryStream, Laws}
use baltica.Stream.Buffers.{payload, payload-put}
use baltica.Address
use baltica.Address.{Address}
use baltica.Address.RoundTrip.{IsCanonical, read-write}
use baltica.Packets.Online.{
  ConnectedPing, ConnectedPong, ConnectionRequest, ConnectionRequestAccepted, NewIncomingConnection,
  write_connected_ping, read_connected_ping, write_connected_pong, read_connected_pong,
  write_connection_request, read_connection_request, write_addresses, read_addresses,
  write_connection_request_accepted, read_connection_request_accepted, write_repeatedly,
  read_repeatedly, write_new_incoming_connection, read_new_incoming_connection,
}

module _ (io : BinaryStream) (laws : Laws io) where
  pub read_connected_ping-write :
      (p : ConnectedPing)
      → p.timestamp < 2 ^ 63
      → read_connected_ping io (payload (write_connected_ping io p)) ≡ some p
  unfolding read_connected_ping write_connected_ping
  read_connected_ping-write p h =
      rw
        (
          payload-put io laws,
          ← append-nil (io.put Width.int64 p.timestamp),
          laws.get-put Width.int64 _ _ h,
        )
        refl

  pub read_connected_pong-write :
      (p : ConnectedPong)
      → p.ping_timestamp < 2 ^ 63
      → p.pong_timestamp < 2 ^ 63
      → read_connected_pong io (payload (write_connected_pong io p)) ≡ some p
  unfolding read_connected_pong write_connected_pong
  read_connected_pong-write p h h' =
      rw
        (
          payload-put io laws,
          laws.get-put Width.int64 _ _ h,
          ← append-nil (io.put Width.int64 p.pong_timestamp),
          laws.get-put Width.int64 _ _ h',
        )
        refl

  pub read_connection_request-write :
      (p : ConnectionRequest)
      → p.guid < 2 ^ 64
      → p.timestamp < 2 ^ 63
      → read_connection_request io (payload (write_connection_request io p)) ≡ some p
  unfolding read_connection_request write_connection_request
  read_connection_request-write p h h' =
      rw
        (
          payload-put io laws,
          laws.get-put Width.uint64 _ _ h,
          laws.get-put Width.int64 _ _ h',
          ← append-nil (io.put_bool p.use_security),
          laws.get-put_bool,
        )
        refl

  read_repeatedly-write :
      (n : ℕ) (last a : Address) (rest : List ℕ)
      → IsCanonical a
      → read_repeatedly io (suc n) last (write_repeatedly io (suc n) a ++ rest) ≡ some (a, rest)
  unfolding read_repeatedly write_repeatedly
  read_repeatedly-write zero last a rest h = rw (append_assoc, read-write io laws a _ h) refl
  read_repeatedly-write (suc n) last a rest h =
      rw (append_assoc, read-write io laws a _ h) (read_repeatedly-write n a a rest h)

  -- A new incoming connection comes back: its ten internal addresses are all the same.
  pub read_new_incoming_connection-write :
      (p : NewIncomingConnection)
      → IsCanonical p.address
      → IsCanonical p.internal_address
      → p.incoming_timestamp < 2 ^ 63
      → p.server_timestamp < 2 ^ 63
      → read_new_incoming_connection io (payload (write_new_incoming_connection io p)) ≡ some p
  unfolding read_new_incoming_connection write_new_incoming_connection
  read_new_incoming_connection-write p ha hi h h' =
      rw
        (
          payload-put io laws,
          read-write io laws p.address _ ha,
          read_repeatedly-write 9 p.address p.internal_address _ hi,
          laws.get-put Width.int64 _ _ h,
          ← append-nil (io.put Width.int64 p.server_timestamp),
          laws.get-put Width.int64 _ _ h',
        )
        refl

  length-write-pos : (a : Address) → 0 < length (Address.write io a)
  unfolding Address.write
  length-write-pos a =
      omega (
        arith,
        length-append (io.put Width.uint8 a.version) _,
        laws.length-put Width.uint8 a.version,
      )

  length-write_addresses : (list : List Address) → length list ≤ length (write_addresses io list)
  unfolding write_addresses
  length-write_addresses [] = omega arith
  length-write_addresses (a ∷ list) = omega (
    arith,
    length-append (Address.write io a) (write_addresses io list),
    length-write-pos a,
    length-write_addresses list,
  )

  -- While an address is still to be read, more than sixteen bytes remain.
  read_addresses-write :
      (fuel : ℕ) (list before : List Address) (rest : List ℕ)
      → All IsCanonical list
      → length list < fuel
      → length rest ≡ 16
      → read_addresses io fuel (write_addresses io list ++ rest) before
        ≡ some (before ++ list, rest)
  unfolding read_addresses write_addresses
  read_addresses-write zero list before rest h hf hr = absurd (omega arith)
  read_addresses-write (suc fuel) [] before rest h hf hr = rw (hr, append-nil) refl
  read_addresses-write (suc fuel) (a ∷ list) before rest (ha, h) hf hr =
      let bytes = write_addresses io list ++ rest in
      let more : ltb 16 (length (Address.write io a ++ bytes)) ≡ true = ground (
        arith,
        length-append (Address.write io a) bytes,
        length-append (write_addresses io list) rest,
        length-write-pos a,
      ) in
      rw (append_assoc, more, read-write io laws a bytes ha)
        (read_addresses-write fuel list (before ++ a ∷ []) rest h (omega arith) hr
          ∙ ap (λ xs. some (xs, rest)) (append_assoc before (a ∷ []) list))

  abbrev timestamps : ConnectionRequestAccepted → List ℕ
  timestamps p = io.put Width.int64 p.request_timestamp ++ io.put Width.int64 p.timestamp

  length-timestamps : (p : ConnectionRequestAccepted) → length (timestamps p) ≡ 16
  length-timestamps p = omega (
    arith,
    length-append (io.put Width.int64 p.request_timestamp) (io.put Width.int64 p.timestamp),
    laws.length-put Width.int64 p.request_timestamp,
    laws.length-put Width.int64 p.timestamp,
  )

  -- An accepted connection request comes back with all of its addresses, however many.
  pub read_connection_request_accepted-write :
      (p : ConnectionRequestAccepted)
      → IsCanonical p.address
      → All IsCanonical p.addresses
      → p.system_index < 2 ^ 16
      → p.request_timestamp < 2 ^ 63
      → p.timestamp < 2 ^ 63
      → read_connection_request_accepted io (payload (write_connection_request_accepted io p))
        ≡ some p
  unfolding read_connection_request_accepted write_connection_request_accepted
  read_connection_request_accepted-write p ha hs hi h h' =
      rw
        (
          payload-put io laws,
          read-write io laws p.address _ ha,
          laws.get-put Width.uint16 _ _ hi,
          read_addresses-write (length (write_addresses io p.addresses ++ timestamps p)) p.addresses
              [] (timestamps p) hs
              (omega (
                arith,
                length-append (write_addresses io p.addresses) (timestamps p),
                length-timestamps p,
                length-write_addresses p.addresses,
              ))
              (length-timestamps p),
          laws.get-put Width.int64 _ _ h,
          ← append-nil (io.put Width.int64 p.timestamp),
          laws.get-put Width.int64 _ _ h',
        )
        refl
