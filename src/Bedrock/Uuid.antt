-- ===== src/Bedrock/Uuid.antt =====
-- packages/baltica/src/client/types/login/login-data.ts: the form of what `nextUUID` returns.
use baltica.Base.{
  ℕ, zero, suc, ◌≤◌, ◌+◌, ◌-◌, ◌%◌, ◌<◌, ◌≡◌, ◌≢◌, refl, ap, ◌∙◌, false, Option, none, some, [],
  ◌∷◌, arith,
}
use baltica.Base.Tests.{if_false}
use baltica.Base.Lists.{length, All, take, drop}
use baltica.Base.Texts.{Text, is_empty}
use baltica.Address.{join, split, parse_int, hex_digit}
use baltica.Address.Texts.{split-join}
use baltica.Bedrock.LoginData.{uuid_of, next_uuid}
use baltica.Bedrock.LoginOptions.{Making, slice, variant}

-- `xxxxxxxx-xxxx-3xxx-vxxx-xxxxxxxxxxxx` with one of 8, 9, a and b for `v`.
pub record IsUuid (uuid : Text) : Type 0 where
  pub a : Text
  pub b : Text
  pub c : Text
  pub v : ℕ
  pub d : Text
  pub e : Text
  pub parts : split 45 uuid ≡ a ∷ b ∷ (51 ∷ c) ∷ (hex_digit (8 + v) ∷ d) ∷ e ∷ []
  pub is_variant : v < 4
  pub lengths : (length a ≡ 8) × (length b ≡ 4) × (length c ≡ 3) × (length d ≡ 3) × (length e ≡ 12)

abbrev pub NoDash : Text → Type 0
NoDash = All (λ c. c ≢ 45)

take-NoDash : (n : ℕ) (t : Text) → NoDash t → NoDash (take n t)
take-NoDash zero t h = tt
take-NoDash (suc n) [] h = tt
take-NoDash (suc n) (c ∷ t) (hc, h) = (hc, take-NoDash n t h)

drop-NoDash : (n : ℕ) (t : Text) → NoDash t → NoDash (drop n t)
drop-NoDash zero t h = h
drop-NoDash (suc n) [] h = tt
drop-NoDash (suc n) (c ∷ t) (hc, h) = drop-NoDash n t h

slice-NoDash : (first last : ℕ) (t : Text) → NoDash t → NoDash (slice first last t)
slice-NoDash first last t h = take-NoDash (last - first) (drop first t) (drop-NoDash first t h)

length-slice :
    (first size : ℕ) (t : Text) → first + size ≤ length t → length (take size (drop first t)) ≡ size
length-slice zero zero t h = refl
length-slice zero (suc size) [] h = absurd (omega arith)
length-slice zero (suc size) (c ∷ t) h = ap suc (length-slice zero size t (omega arith))
length-slice (suc first) size [] h = absurd (omega arith)
length-slice (suc first) size (c ∷ t) h = length-slice first size t (omega arith)

variant-bounded : (n : Option ℕ) → (v : ℕ) × (variant n ≡ 8 + v) × (v < 4)
variant-bounded none = (0, refl, omega arith)
variant-bounded (some n) = (n % 4, omega arith, omega arith)

hex_digit-no_dash : (v : ℕ) → v < 4 → hex_digit (8 + v) ≢ 45
hex_digit-no_dash v h = ground arith

-- If the hash has 32 digits, without a dash, `nextUUID` of a name that is not empty returns five
-- groups of digits with the version 3 and one of the variants 8, 9, a and b.
pub next_uuid-IsUuid :
    (making : Making) (name : Text)
    → is_empty name ≡ false
    → length (making.md5_hex name) ≡ 32
    → NoDash (making.md5_hex name)
    → (uuid : Text) × (next_uuid making name ≡ some uuid) × IsUuid uuid
unfolding next_uuid
next_uuid-IsUuid making name named size digits =
    let hash = making.md5_hex name in
    let group = λ (first : ℕ). λ (last : ℕ). slice-NoDash first last hash digits in
    let (v, is_v, bound) = variant-bounded (parse_int 16 (slice 16 17 hash)) in
    (
      uuid_of making hash,
      if_false _ _ _ named,
      record {
        a = slice 0 8 hash;
        b = slice 8 12 hash;
        c = slice 13 16 hash;
        v = v;
        d = slice 17 20 hash;
        e = slice 20 32 hash;
        parts =
            ap
              (λ x. split 45 (
                join 45 (
                  slice 0 8 hash
                  ∷ slice 8 12 hash
                  ∷ (51 ∷ slice 13 16 hash)
                  ∷ (hex_digit x ∷ slice 17 20 hash)
                  ∷ slice 20 32 hash
                  ∷ [])))
              is_v
            ∙ split-join 45 (slice 0 8 hash) _ (group 0 8) (
              group 8 12,
              (
                (ground arith, group 13 16),
                ((hex_digit-no_dash v bound, group 17 20), (group 20 32, tt)),
              ),
            );
        is_variant = bound;
        lengths = (
          length-slice 0 8 hash (omega (arith, size)),
          length-slice 8 4 hash (omega (arith, size)),
          length-slice 13 3 hash (omega (arith, size)),
          length-slice 17 3 hash (omega (arith, size)),
          length-slice 20 12 hash (omega (arith, size)),
        );
      },
    )
