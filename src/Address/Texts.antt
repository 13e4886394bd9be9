-- ===== src/Address/Texts.antt =====
-- Texts of addresses of packages/raknet/src/shared/proto/types/address.ts: what `join` and
-- `toString` make, `split` and `parseInt` take apart.
use baltica.Base.{
  ℕ, ◌+◌, ◌*◌, ◌/◌, ◌%◌, ◌^◌, ◌<◌, ◌≡◌, ◌≢◌, refl, ap, ◌∙◌, some, List, [], ◌∷◌, ◌++◌, arith,
}
use baltica.Base.Tests.{ne→==, ==_refl}
use baltica.Base.Lists.{All}
use baltica.Address.{split, join, parse_int, parse_digits, decimal, hex, hex_digit, flip, flip_bits}

-- A part between separators.
abbrev pub IsPart : ℕ → List ℕ → Type 0
IsPart sep = All (λ c. c ≢ sep)

split_part : (sep : ℕ) (part : List ℕ) → IsPart sep part → split sep part ≡ part ∷ []
unfolding split
split_part sep [] h = refl
split_part sep (c ∷ part) (hc, h) = rw (ne→== c sep hc, split_part sep part h) refl

split_parts :
    (sep : ℕ) (part rest : List ℕ)
    → IsPart sep part
    → split sep (part ++ sep ∷ rest) ≡ part ∷ split sep rest
unfolding split
split_parts sep [] rest h = rw (==_refl sep) refl
split_parts sep (c ∷ part) rest (hc, h) = rw (ne→== c sep hc, split_parts sep part rest h) refl

pub split-join :
    (sep : ℕ) (part : List ℕ) (parts : List (List ℕ))
    → IsPart sep part
    → All (IsPart sep) parts
    → split sep (join sep (part ∷ parts)) ≡ part ∷ parts
unfolding join
split-join sep part [] h hs = split_part sep part h
split-join sep part (next ∷ parts) h (hn, hs) =
    split_parts sep part (join sep (next ∷ parts)) h
    ∙ ap (◌∷◌ part) (split-join sep next parts hn hs)

pub parse_int-decimal : (n : ℕ) → n < 256 → parse_int 10 (decimal n) ≡ some n
unfolding parse_int decimal parse_digits
parse_int-decimal n h = ground arith

pub decimal-IsPart : (n : ℕ) → IsPart 46 (decimal n)
unfolding decimal
decimal-IsPart n = ground arith

parse_digits-hex_digit :
    (n d : ℕ) (text : List ℕ)
    → d < 16
    → parse_digits 16 n (hex_digit d ∷ text) ≡ parse_digits 16 (n * 16 + d) text
unfolding parse_digits
parse_digits-hex_digit n d text h = ground arith

parse_int-hex_digit :
    (d : ℕ) (text : List ℕ)
    → d < 16
    → parse_int 16 (hex_digit d ∷ text) ≡ some (parse_digits 16 d text)
unfolding parse_int
parse_int-hex_digit d text h = ground arith

pub parse_int-hex : (n : ℕ) → n < 2 ^ 16 → parse_int 16 (hex n) ≡ some n
unfolding hex
parse_int-hex n h =
    parse_int-hex_digit (n / 16 ^ 3) _ (omega arith)
    ∙ ap some (
        parse_digits-hex_digit _ (n / 16 ^ 2 % 16) _ (omega arith)
        ∙ (parse_digits-hex_digit _ (n / 16 % 16) _ (omega arith)
            ∙ (parse_digits-hex_digit _ (n % 16) [] (omega arith)
                ∙ (unfold parse_digits in omega arith))))

pub hex-IsPart : (n : ℕ) → IsPart 58 (hex n)
unfolding hex
hex-IsPart n = (ground arith, (ground arith, (ground arith, (ground arith, tt))))

pub flip_bits-flip : (n : ℕ) → n < 256 → flip_bits 8 (flip 8 (some n)) ≡ n
unfolding flip
flip_bits-flip n h = omega arith
