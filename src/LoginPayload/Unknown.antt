-- ===== src/LoginPayload/Unknown.antt =====
-- packages/baltica/src/server/login-payload.ts: which fields are reported as unknown, and in which
-- order.
use baltica.Base.{
  ◌≡◌, ◌∙◌, refl, ap, inl, inr, true, false, not, ◌&&◌, ◌||◌, some, List, [], ◌∷◌, ◌++◌, map, arith,
}
use baltica.Base.Tests.{Bool-cases, ==_refl}
use baltica.Base.Texts.{Text, codes}
use baltica.Server.{same_text}
use baltica.Json.{Json, Fields, get, keys, has_text, precedes, put, sort}
use baltica.LoginPayload.{
  without, unknown_keys, nested_unknown, known_identity_keys, known_identity_extra_data_keys,
  summarize_unknown_identity_payload_fields,
}

-- Each text stands before the next.
abbrev pub IsSorted : List Text → Type 0
IsSorted [] = Unit
IsSorted (s ∷ []) = Unit
IsSorted (s ∷ t ∷ texts) = (precedes s t ≡ true) × IsSorted (t ∷ texts)

precedes_total : (s t : Text) → precedes s t ≡ false → precedes t s ≡ true
unfolding precedes
precedes_total [] t e = cc
precedes_total (c ∷ s) [] e = refl
precedes_total (c ∷ s) (d ∷ t) e = ground (arith, precedes_total s t)

put-IsSorted : (t : Text) (texts : List Text) → IsSorted texts → IsSorted (put t texts)
unfolding put
put-IsSorted t [] h = tt
put-IsSorted t (a ∷ []) h = elim (Bool-cases (precedes t a)) [
  | inl e ↦ rw e (e, tt)
  | inr e ↦ rw e (precedes_total t a e, tt)
]
put-IsSorted t (a ∷ b ∷ texts) (ab, h) = elim (Bool-cases (precedes t a)) [
  | inl e ↦ rw e (e, (ab, h))
  | inr e ↦ rw e (after t a b texts e ab (put-IsSorted t (b ∷ texts) h))
]
  where
    after :
        (t a b : Text) (texts : List Text)
        → precedes t a ≡ false
        → precedes a b ≡ true
        → IsSorted (put t (b ∷ texts))
        → IsSorted (a ∷ put t (b ∷ texts))
    after t a b texts e ab h = elim (Bool-cases (precedes t b)) [
      | inl q ↦ rw q (precedes_total t a e, rw q at h)
      | inr q ↦ rw q (ab, rw q at h)
    ]

pub sort-IsSorted : (texts : List Text) → IsSorted (sort texts)
unfolding sort
sort-IsSorted [] = tt
sort-IsSorted (t ∷ texts) = put-IsSorted t (sort texts) (sort-IsSorted texts)

has_text-put :
    (k t : Text) (texts : List Text) → has_text k (put t texts) ≡ same_text t k || has_text k texts
unfolding put has_text
has_text-put k t [] = refl
has_text-put k t (a ∷ texts) = ground (arith, has_text-put k t texts)

has_text-sort : (k : Text) (texts : List Text) → has_text k (sort texts) ≡ has_text k texts
unfolding sort has_text
has_text-sort k [] = refl
has_text-sort k (t ∷ texts) =
    has_text-put k t (sort texts) ∙ ap (λ b. same_text t k || b) (has_text-sort k texts)

same_text-eq : (s t : Text) → same_text s t ≡ true → s ≡ t
unfolding same_text
same_text-eq [] [] e = refl
same_text-eq [] (d ∷ t) e = cc
same_text-eq (c ∷ s) [] e = cc
same_text-eq (c ∷ s) (d ∷ t) e = ground (arith, same_text-eq s t)

same_known :
    (known : List Text) (t k : Text) → same_text t k ≡ true → has_text t known ≡ has_text k known
same_known known t k e = ap (λ s. has_text s known) (same_text-eq t k e)

-- What is left is not known.
has_text-without :
    (known : List Text) (k : Text) (texts : List Text)
    → has_text k (without known texts) ≡ has_text k texts && not (has_text k known)
unfolding without has_text
has_text-without known k [] = refl
has_text-without known k (t ∷ texts) =
    ground (arith, same_known known t k, has_text-without known k texts)

has_text-unknown_keys :
    (known : List Text) (k : Text) (payload : Fields)
    → has_text k (unknown_keys payload known) ≡ has_text k (keys payload) && not (has_text k known)
unfolding unknown_keys
has_text-unknown_keys known k payload =
    has_text-sort k (without known (keys payload)) ∙ has_text-without known k (keys payload)

has_text-append : (k : Text) (s t : List Text) → has_text k (s ++ t) ≡ has_text k s || has_text k t
unfolding has_text
has_text-append k [] t = refl
has_text-append k (a ∷ s) t = ground (arith, has_text-append k s t)

same_text-append : (front s t : Text) → same_text (front ++ s) (front ++ t) ≡ same_text s t
unfolding same_text
same_text-append [] s t = refl
same_text-append (c ∷ front) s t = rw (==_refl c, same_text-append front s t) refl

has_text-map :
    (front k : Text) (texts : List Text)
    → has_text (front ++ k) (map (λ t. front ++ t) texts) ≡ has_text k texts
unfolding has_text
has_text-map front k [] = refl
has_text-map front k (t ∷ texts) = rw (same_text-append front t k, has_text-map front k texts) refl

-- The fields that are reported of an identity are in order. A field is among them if it is in the
-- payload and not known, or a nested one; a nested one is `extraData.` and a field of the extra data
-- that is not known there.
pub summarize_unknown_identity_lem :
    (payload extra : Fields) (k j : Text)
    → IsSorted (summarize_unknown_identity_payload_fields payload)
      × (has_text k (summarize_unknown_identity_payload_fields payload)
          ≡ (has_text k (keys payload) && not (has_text k known_identity_keys))
            || has_text k (nested_unknown (get (codes "extraData") payload)))
      × (has_text (codes "extraData." ++ j) (nested_unknown (some (Json.object extra)))
          ≡ has_text j (keys extra) && not (has_text j known_identity_extra_data_keys))
unfolding summarize_unknown_identity_payload_fields nested_unknown
summarize_unknown_identity_lem payload extra k j =
    let nested = nested_unknown (get (codes "extraData") payload) in
    (
      sort-IsSorted (unknown_keys payload known_identity_keys ++ nested),
      has_text-sort k (unknown_keys payload known_identity_keys ++ nested)
          ∙ (has_text-append k (unknown_keys payload known_identity_keys) nested
              ∙ ap (λ b. b || has_text k nested)
                  (has_text-unknown_keys known_identity_keys k payload)),
      has_text-map (codes "extraData.") j (unknown_keys extra known_identity_extra_data_keys)
          ∙ has_text-unknown_keys known_identity_extra_data_keys j extra,
    )
