-- ===== src/Packets/Ambiguity.antt =====
-- `OpenConnectionRequestTwo` of packages/raknet/src/shared/proto/packets/offline, which tells a cookie
-- by the length alone, and addresses of packages/raknet/src/shared/proto/types/address.ts, which are
-- read at a fixed length.
use baltica.Base.{
  ℕ, zero, suc, ◌+◌, ◌^◌, ◌*◌, ◌≤◌, ◌<◌, ◌≡◌, ◌≢◌, refl, subst, true, Option, none, some, List, [],
  ◌∷◌, ◌++◌, arith, inl, inr,
}
use baltica.Base.Tests.{ltb, Option-cases, ne→==}
use baltica.Base.Lists.{length, length-append}
use baltica.Stream.{Width, BinaryStream, Laws}
use baltica.Stream.Buffers.{drop-put, payload, payload-put}
use baltica.Frame.{◌>>=◌}
use baltica.Address.{
  Address, split, colon, write, write_words, read, read_words, read_ipv6, flip, parse_int,
}
use baltica.Packets.{magic}
use baltica.Packets.Offline.{
  OpenConnectionRequestTwo, write_open_connection_request_two, read_open_connection_request_two,
}
use baltica.Packets.RequestTwo.{request_two}

abbrev HasCookie : Option OpenConnectionRequestTwo → Type 0
HasCookie none = Unit {0}
HasCookie (some q) = (c : ℕ) × (q.cookie ≡ some c)

bind-HasCookie {ℓ} :
    {A : Type ℓ} (m : Option A) (k : A → Option OpenConnectionRequestTwo)
    → ((a : A) → HasCookie (k a))
    → HasCookie (m >>= k)
bind-HasCookie none k h = tt
bind-HasCookie (some a) k h = h a

module _ (io : BinaryStream) (laws : Laws io) where
  long-HasCookie :
      (bytes : List ℕ)
      → ltb 17 (length bytes) ≡ true
      → HasCookie (read_open_connection_request_two io (io.write magic ++ bytes))
  unfolding read_open_connection_request_two
  long-HasCookie bytes h =
      rw (laws.write_lem magic, laws.read_lem magic bytes, h)
        (elim (Option-cases (io.get Width.uint32 bytes)) [
          | inl e ↦ rw e tt
          | inr ((c, rest), e) ↦ rw e (elim (Option-cases (io.get_bool rest)) [
            | inl e ↦ rw e tt
            | inr ((b, rest), e) ↦ rw e (
                bind-HasCookie (read io rest) _ λ x.
                  bind-HasCookie (io.get Width.uint16 x.1) _
                    λ m. bind-HasCookie (io.get Width.uint64 m.1) _ λ g. (c, refl))
          ])
        ])

  length-write_words : (parts : List (List ℕ)) → length (write_words io parts) ≡ 2 * length parts
  unfolding write_words
  length-write_words [] = refl
  length-write_words (part ∷ parts) = omega (
    arith,
    length-append (io.put Width.uint16 (flip 16 (parse_int 16 part))) (write_words io parts),
    laws.length-put Width.uint16 (flip 16 (parse_int 16 part)),
    length-write_words parts,
  )

  -- The bytes of an address that is not IPv4: two for each part of its text.
  pub length-write :
      (x : Address) → x.version ≢ 4 → length (write io x) ≡ 13 + 2 * length (split colon x.address)
  unfolding write
  length-write x h =
      rw (ne→== x.version 4 h)
        (simp (length-append, laws.length-put, length-write_words) (omega arith))

  -- A second request without a cookie, whose address is not IPv4, does not come back.
  pub read_open_connection_request_two_misreads :
      (x : Address) (mtu guid : ℕ)
      → x.version ≢ 4
      → read_open_connection_request_two io
          (payload (write_open_connection_request_two io (request_two x mtu guid none)))
        ≢ some (request_two x mtu guid none)
  unfolding write_open_connection_request_two
  read_open_connection_request_two_misreads x mtu guid h e =
      let after = write io x ++ (io.put Width.uint16 mtu ++ io.put Width.uint64 guid) in
      let long : ltb 17 (length after) ≡ true = ground (
        arith,
        length-append (write io x) (io.put Width.uint16 mtu ++ io.put Width.uint64 guid),
        length-append (io.put Width.uint16 mtu) (io.put Width.uint64 guid),
        laws.length-put Width.uint16 mtu,
        laws.length-put Width.uint64 guid,
        length-write x h,
      ) in
      absurd_cookie (subst HasCookie (rw (payload-put io laws) at e) (long-HasCookie after long))
    where
      absurd_cookie : HasCookie (some (request_two x mtu guid none)) → ⊥
      absurd_cookie (c, q) = cc

module _ (io : BinaryStream) (laws : Laws io) where
  read_words-short : (n : ℕ) (bytes : List ℕ) → length bytes < 2 * n → read_words io n bytes ≡ none
  unfolding read_words
  read_words-short zero bytes h = absurd (omega arith)
  read_words-short (suc n) bytes h = elim (Option-cases (io.get Width.uint16 bytes)) [
    | inl e ↦ rw (e, read_words) refl
    | inr ((w, rest), e) ↦
        rw
          (
            e,
            read_words,
            read_words-short n rest (omega (arith, laws.get_takes Width.uint16 bytes w rest e)),
          )
          refl
  ]

  -- An IPv6 address in a short form, with five parts at most, is written and cannot be read back.
  pub read-write_short :
      (x : Address)
      → x.version ≡ 6
      → length (split colon x.address) ≤ 5
      → x.port < 2 ^ 16
      → read io (write io x) ≡ none
  unfolding read write read_ipv6
  read-write_short x e h hp =
      let words = write_words io (split colon x.address) in
      let left : length (words ++ io.put Width.uint32 0) < 2 * 8 = omega (
        arith,
        length-append words (io.put Width.uint32 0),
        laws.length-put Width.uint32 0,
        length-write_words io laws (split colon x.address),
      ) in
      rw
        (
          e,
          laws.get-put Width.uint8 6 _ (omega arith),
          drop-put io laws Width.uint16 23,
          laws.get-put Width.uint16 x.port _ hp,
          drop-put io laws Width.uint32 0,
          read_words-short 8 _ left,
        )
        refl
