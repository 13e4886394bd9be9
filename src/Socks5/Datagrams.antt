-- ===== src/Socks5/Datagrams.antt =====
-- `buildUdpHeader` of packages/raknet/src/shared/socks5.ts against the listener that reads such a
-- header.
use baltica.Base.{
  ℕ, suc, ◌+◌, ◌*◌, ◌/◌, ◌%◌, ◌^◌, ◌<◌, ◌≡◌, refl, ap, ◌∙◌, true, some, List, [], ◌∷◌, ◌++◌, map,
  arith,
}
use baltica.Base.Tests.{==_refl, ltb}
use baltica.Base.Lists.{All}
use baltica.Base.Sets.{has}
use baltica.Address.{join, decimal, dot}
use baltica.Address.Texts.{parse_int-decimal}
use baltica.Address.Lengths.{split-ipv4}
use baltica.Socks5.{
  build_udp_header, header_bytes, receive_datagram, receive_from, payload_at, message, uint16_be,
}

has-between : (sep : ℕ) (front back : List ℕ) → has sep (front ++ sep ∷ back) ≡ true
unfolding has
has-between sep [] back = rw (==_refl sep) refl
has-between sep (c ∷ front) back = ground (arith, has-between sep front back)

has-join : (a b c d : ℕ) → has dot (join dot (map decimal (a ∷ b ∷ c ∷ d ∷ []))) ≡ true
unfolding has join
has-join a b c d = has-between dot (decimal a) _

header_bytes-decimal :
    (n : ℕ) (parts : List (List ℕ)) (k : ℕ)
    → k < 256
    → header_bytes (suc n) (decimal k ∷ parts) ≡ k ∷ header_bytes n parts
unfolding header_bytes
header_bytes-decimal n parts k h =
    rw (parse_int-decimal k h) (ap (λ x. x ∷ header_bytes n parts) (omega arith))

-- A datagram that is sent through the relay to an IPv4 address reads as one from there: the same
-- address, port and payload.
pub receive_datagram-build_udp_header :
    (a b c d port : ℕ) (bytes : List ℕ)
    → All (λ n. n < 256) (a ∷ b ∷ c ∷ d ∷ [])
    → port < 2 ^ 16
    → let address = join dot (map decimal (a ∷ b ∷ c ∷ d ∷ [])) in
      (header : List ℕ) × (build_udp_header address port ≡ some header)
      × (receive_datagram (header ++ bytes) ≡ message bytes address port)
unfolding build_udp_header receive_datagram receive_from payload_at
receive_datagram-build_udp_header a b c d port bytes h hp = (
  0 ∷ 0 ∷ 0 ∷ 1 ∷ a ∷ b ∷ c ∷ d ∷ uint16_be port,
  rw (has-join a b c d, below port hp, split-ipv4 a b c d)
      (ap (λ xs. some (0 ∷ 0 ∷ 0 ∷ 1 ∷ (xs ++ uint16_be port))) four),
  ground (arith, port_back),
)
  where
    below : (n : ℕ) → n < 2 ^ 16 → ltb n 65536 ≡ true
    below n h = ground arith

    port_back : port / 256 % 256 * 256 + port % 256 ≡ port
    port_back = omega arith

    four : header_bytes 4 (map decimal (a ∷ b ∷ c ∷ d ∷ [])) ≡ a ∷ b ∷ c ∷ d ∷ []
    four =
        header_bytes-decimal 3 _ a h.0
        ∙ ap (◌∷◌ a) (
            header_bytes-decimal 2 _ b h.1.0
            ∙ ap (◌∷◌ b) (
                header_bytes-decimal 1 _ c h.1.1.0
                ∙ ap (◌∷◌ c) (
                    header_bytes-decimal 0 [] d h.1.1.1.0
                    ∙ ap (◌∷◌ d) (unfold header_bytes in refl))))
