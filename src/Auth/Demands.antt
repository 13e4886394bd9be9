-- ===== src/Auth/Demands.antt =====
-- `login` of packages/auth/src/auth/auth.ts: what the options must have for each flow, apart from
-- the tests that it makes, and what these tests find.
use baltica.Base.{◌≡◌, ◌≢◌, refl, true, false, ◌⊎◌, inl, inr, Option, none, some, [], ◌∷◌}
use baltica.Base.Tests.{Bool-cases}
use baltica.Base.Texts.{Text, is_empty, present}
use baltica.Auth.{
  AuthFlow, AuthOptions, Failure, missing_client_id, missing_credentials, missing_xbox_token,
}
use baltica.Auth.Cache.{refusal}

-- A text that was given, and is not empty.
pub data IsGiven : Option Text → Type 0 where
  given : (text : Text) → text ≢ [] → IsGiven (some text)

-- The options have what their flow needs; without a flow it is that of a device code.
pub data IsComplete (o : AuthOptions) : Type 0 where
  for_default : o.client_id ≢ [] → o.flow ≡ none → IsComplete o
  for_device_code : o.client_id ≢ [] → o.flow ≡ some AuthFlow.device_code → IsComplete o
  for_password :
      o.client_id ≢ []
      → o.flow ≡ some AuthFlow.password
      → IsGiven o.email
      → IsGiven o.password
      → IsComplete o
  for_xbox_token :
      o.client_id ≢ [] → o.flow ≡ some AuthFlow.xbox_token → IsGiven o.xbox_token → IsComplete o

-- The options lack what the failure names.
pub data Lacks (o : AuthOptions) : Failure → Type 0 where
  no_client_id : o.client_id ≡ [] → Lacks o missing_client_id
  no_email :
      o.client_id ≢ []
      → o.flow ≡ some AuthFlow.password
      → ¬ IsGiven o.email
      → Lacks o missing_credentials
  no_password :
      o.client_id ≢ []
      → o.flow ≡ some AuthFlow.password
      → ¬ IsGiven o.password
      → Lacks o missing_credentials
  no_xbox_token :
      o.client_id ≢ []
      → o.flow ≡ some AuthFlow.xbox_token
      → ¬ IsGiven o.xbox_token
      → Lacks o missing_xbox_token

none-IsGiven : ¬ IsGiven none
none-IsGiven g = elim g [ ]

empty-IsGiven : ¬ IsGiven (some [])
empty-IsGiven (given _ n) = n refl

IsGiven-cases :
    (t : Option Text)
    → ((text : Text) × (present t ≡ some text) × IsGiven t) ⊎ ((present t ≡ none) × (¬ IsGiven t))
IsGiven-cases none = inr (refl, none-IsGiven)
IsGiven-cases (some []) = inr (refl, empty-IsGiven)
IsGiven-cases (some (c ∷ text)) = inl (c ∷ text, refl, given (c ∷ text) (λ e. cc))

is_empty-true : (t : Text) → is_empty t ≡ true → t ≡ []
is_empty-true [] e = refl
is_empty-true (c ∷ t) e = cc

is_empty-false : (t : Text) → is_empty t ≡ false → t ≢ []
is_empty-false [] e = cc
is_empty-false (c ∷ t) e = λ q. cc

-- A refusal names what is lacking, and options that are not refused lack nothing.
abbrev pub Judged : AuthOptions → Type 0
Judged o = ((e : Failure) × Lacks o e × (refusal o ≡ some e)) ⊎ (IsComplete o × (refusal o ≡ none))

by_flow :
    (o : AuthOptions) (flow : Option AuthFlow)
    → is_empty o.client_id ≡ false
    → o.flow ≡ flow
    → Judged o
unfolding refusal
by_flow o none c f = inr (for_default (is_empty-false o.client_id c) f, rw (c, f) refl)
by_flow o (some AuthFlow.device_code) c f =
    inr (for_device_code (is_empty-false o.client_id c) f, rw (c, f) refl)
by_flow o (some AuthFlow.password) c f =
    let n = is_empty-false o.client_id c in
    elim (IsGiven-cases o.email) [
      | inr (p, lacks) ↦ inl (missing_credentials, no_email n f lacks, rw (c, f, p) refl)
      | inl (email, p, has_email) ↦ elim (IsGiven-cases o.password) [
        | inr (q, lacks) ↦ inl (missing_credentials, no_password n f lacks, rw (c, f, p, q) refl)
        | inl (password, q, has_password) ↦
            inr (for_password n f has_email has_password, rw (c, f, p, q) refl)
      ]
    ]
by_flow o (some AuthFlow.xbox_token) c f =
    let n = is_empty-false o.client_id c in
    elim (IsGiven-cases o.xbox_token) [
      | inr (p, lacks) ↦ inl (missing_xbox_token, no_xbox_token n f lacks, rw (c, f, p) refl)
      | inl (token, p, has_token) ↦ inr (for_xbox_token n f has_token, rw (c, f, p) refl)
    ]

pub refusal_lem : (o : AuthOptions) → Judged o
unfolding refusal
refusal_lem o = elim (Bool-cases (is_empty o.client_id)) [
  | inl c ↦ inl (missing_client_id, no_client_id (is_empty-true o.client_id c), rw c refl)
  | inr c ↦ by_flow o o.flow c refl
]
