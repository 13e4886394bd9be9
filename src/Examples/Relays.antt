-- ===== src/Examples/Relays.antt =====
-- A datagram through a relay of packages/raknet/src/shared/socks5.ts.
use baltica.Socks5.Datagrams.{receive_datagram-build_udp_header}
use baltica.Socks5.{build_udp_header, receive_datagram, message}
use baltica.Base.Tests.{if◌then◌else◌}
use baltica.Base.Texts.{codes}
use baltica.Server.{same_text}
use baltica.Socks5.Relay.{
  Failure, resolved, rejected, Surroundings, auth_request, or_remote, create_socks5_relay,
}
use baltica.Socks5.Release.{proxy_replies, relay_of, proxy_decides}
use baltica.Base.{ℕ, ◌≡◌, refl, true, ◌&&◌, some, List, [], ◌∷◌, ◌++◌, map, arith}
use baltica.Address.{join, decimal, dot}

-- A proxy that knows the user `a` with the password `b`.
abbrev with_password : Surroundings
with_password = record {
  reached = true;
  binds = true;
  lasts = true;
  remote = codes "10.0.0.1";
  replies =
      proxy_replies (97 ∷ []) (98 ∷ []) (auth_request ((97 ∷ []), (98 ∷ []))) (127 ∷ 0 ∷ 0 ∷ 1 ∷ [])
        1080;
}

proxy_decides_example :
    (create_socks5_relay (some (97 ∷ [])) (some (98 ∷ [])) with_password).fate ≡ (
      if same_text (97 ∷ []) (97 ∷ []) && same_text (98 ∷ []) (98 ∷ [])
      then resolved (
          relay_of true
            (or_remote (codes "10.0.0.1") (join dot (map decimal (127 ∷ 0 ∷ 0 ∷ 1 ∷ []))))
            1080)
      else rejected Failure.authentication_failed)
proxy_decides_example =
    proxy_decides (97 ∷ []) (98 ∷ []) (97 ∷ []) (98 ∷ []) (codes "10.0.0.1") 127 0 0 1 1080 true
      refl refl (omega arith) (omega arith) (omega arith)

receive_datagram-build_udp_header_example :
    (header : List ℕ) × (build_udp_header (join dot (map decimal (127 ∷ 0 ∷ 0 ∷ 1 ∷ []))) 19132
      ≡ some header)
    × (receive_datagram (header ++ 5 ∷ [])
        ≡ message (5 ∷ []) (join dot (map decimal (127 ∷ 0 ∷ 0 ∷ 1 ∷ []))) 19132)
receive_datagram-build_udp_header_example =
    receive_datagram-build_udp_header 127 0 0 1 19132 (5 ∷ [])
      (omega arith, (omega arith, (omega arith, (omega arith, tt)))) (omega arith)
