-- ===== src/Address/Lengths.antt =====
-- The number of bytes of an address of packages/raknet/src/shared/proto/types/address.ts.
use baltica.Base.{ℕ, ◌≤◌, ◌≡◌, refl, List, [], ◌∷◌, ◌++◌, map, arith}
use baltica.Base.Tests.{if_cases, ◌==◌, if◌then◌else◌}
use baltica.Base.Lists.{length, length-append, take}
use baltica.Stream.{Width, BinaryStream, Laws}
use baltica.Address
use baltica.Address.{
  Address, write_bytes, write_words, colon, flip, parse_int, split, join, dot, decimal,
}
use baltica.Address.Texts.{split-join, decimal-IsPart}
use baltica.Address.RoundTrip.{decimal-All, ipv4}

pub split-ipv4 :
    (a b c d : ℕ)
    → split dot (join dot (map decimal (a ∷ b ∷ c ∷ d ∷ []))) ≡ map decimal (a ∷ b ∷ c ∷ d ∷ [])
split-ipv4 a b c d =
    split-join dot (decimal a) (map decimal (b ∷ c ∷ d ∷ [])) (decimal-IsPart a)
      (decimal-All (b ∷ c ∷ d ∷ []))

module _ (io : BinaryStream) (laws : Laws io) where
  length-write_bytes : (parts : List (List ℕ)) → length (write_bytes io parts) ≡ length parts
  unfolding write_bytes
  length-write_bytes [] = refl
  length-write_bytes (part ∷ parts) = omega (
    arith,
    length-append (io.put Width.uint8 (flip 8 (parse_int 10 part))) (write_bytes io parts),
    laws.length-put Width.uint8 (flip 8 (parse_int 10 part)),
    length-write_bytes parts,
  )

  pub length-write_ipv4 : (a b c d port : ℕ) → length (Address.write io (ipv4 a b c d port)) ≡ 7
  unfolding Address.write
  length-write_ipv4 a b c d port =
      simp (length-append, laws.length-put, split-ipv4 a b c d, length-write_bytes)

  -- What an address has after its version.
  abbrev body : Address → List ℕ
  body x =
      if x.version == 4
      then write_bytes io (take 4 (split dot x.address)) ++ io.put Width.uint16 x.port
      else io.put Width.uint16 23
        ++ (io.put Width.uint16 x.port
            ++ (io.put Width.uint32 0
                ++ (write_words io (split colon x.address) ++ io.put Width.uint32 0)))

  length-body-ge : (x : Address) → 2 ≤ length (body x)
  length-body-ge x =
      if_cases (λ bytes. 2 ≤ length bytes) (x.version == 4)
        (omega (
          arith,
          length-append (write_bytes io (take 4 (split dot x.address)))
              (io.put Width.uint16 x.port),
          laws.length-put Width.uint16 x.port,
        ))
        (omega (
          arith,
          length-append (io.put Width.uint16 23) (
              io.put Width.uint16 x.port
              ++ (io.put Width.uint32 0
                  ++ (write_words io (split colon x.address) ++ io.put Width.uint32 0))),
          laws.length-put Width.uint16 23,
        ))

  pub length-write-ge : (x : Address) → 3 ≤ length (Address.write io x)
  unfolding Address.write
  length-write-ge x = omega (
    arith,
    length-append (io.put Width.uint8 x.version) (body x),
    laws.length-put Width.uint8 x.version,
    length-body-ge x,
  )
