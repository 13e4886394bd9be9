-- ===== src/Auth/Pages.antt =====
-- The page patterns, cookies and error messages of the password flow of
-- packages/auth/src/auth/microsoft.ts.
--
-- A pattern is matched as JavaScript does it: the leftmost place first, and lazy parts as short as
-- they can be. The pages are calls of `Pages`, with `URLSearchParams`, `decodeURIComponent` and
-- `Number` of the runtime.
use baltica.Base.{ℕ, Bool, true, ◌&&◌, ◌||◌, Option, none, some, List, [], ◌∷◌, ◌++◌, map}
use baltica.Base.Tests.{◌==◌, leb, if◌then◌else◌}
use baltica.Base.Texts.{Text, codes, is_empty}
use baltica.Address.{split}
use baltica.Auth.{PasswordFailure, Request}

-- The rest of the text after a prefix.
unfoldable pub after_prefix : Text → Text → Option Text
after_prefix [] text = some text
after_prefix (c ∷ prefix) [] = none
after_prefix (c ∷ prefix) (d ∷ text) = if c == d then after_prefix prefix text else none

-- `text.includes(part)`
unfoldable pub includes : Text → Text → Bool
includes part [] = is_empty part
includes part (c ∷ text) = elim (after_prefix part (c ∷ text)) [
  | some rest ↦ true
  | none ↦ includes part text
]

-- What `.` does not match.
abbrev pub is_line_end : ℕ → Bool
is_line_end c = c == 10 || c == 13 || c == 8232 || c == 8233

-- `.*?` before a literal and what follows it.
unfoldable pub lazily : Text → (Text → Option Text) → Text → Option Text
lazily literal follow [] = elim (after_prefix literal []) [ none ↦ none | some rest ↦ follow rest ]
lazily literal follow (c ∷ text) =
    let here : Option Text = elim (after_prefix literal (c ∷ text)) [
      | none ↦ none
      | some rest ↦ follow rest
    ] in
    let later = lazily literal follow text in
    elim here [ some found ↦ some found | none ↦ if is_line_end c then none else later ]

-- `(.+?)` before a literal, with at least one character.
unfoldable pub capture_from : Text → Text → Option Text
capture_from literal [] = elim (after_prefix literal []) [ none ↦ none | some rest ↦ some [] ]
capture_from literal (c ∷ text) = elim (after_prefix literal (c ∷ text)) [
  | some rest ↦ some []
  | none ↦
      if is_line_end c
      then none
      else (elim (capture_from literal text) [ none ↦ none | some found ↦ some (c ∷ found) ])
]

abbrev pub capture : Text → Text → Option Text
capture literal [] = none
capture literal (c ∷ text) =
    if is_line_end c
    then none
    else (elim (capture_from literal text) [ none ↦ none | some found ↦ some (c ∷ found) ])

-- A literal at the leftmost place from which the rest matches.
unfoldable pub leftmost : Text → (Text → Option Text) → Text → Option Text
leftmost literal follow [] = elim (after_prefix literal []) [
  | none ↦ none
  | some rest ↦ follow rest
]
leftmost literal follow (c ∷ text) =
    let here : Option Text = elim (after_prefix literal (c ∷ text)) [
      | none ↦ none
      | some rest ↦ follow rest
    ] in
    let later = leftmost literal follow text in elim here [ some found ↦ some found | none ↦ later ]

abbrev pub first_of : Option Text → Option Text → Option Text
first_of none other = other
first_of (some text) other = some text

-- The PPFT token of the login page, by its two patterns; `\` is 92.
unfoldable pub find_ppft : Text → Option Text
find_ppft page =
    first_of
      (leftmost (codes "sFTTag\":\"")
        (lazily (codes "value=" ++ 92 ∷ 34 ∷ []) (capture (92 ∷ 34 ∷ []))) page)
      (leftmost (codes "sFTTag':'") (lazily (codes "value=\"") (capture (codes "\""))) page)

-- What `\s` matches, below the rarer spaces.
abbrev pub is_space : ℕ → Bool
is_space c = c == 32 || (leb 9 c && leb c 13) || c == 160 || c == 65279

-- `\s*`
unfoldable pub skip_spaces : Text → Text
skip_spaces [] = []
skip_spaces (c ∷ text) = if is_space c then skip_spaces text else c ∷ text

abbrev then_quoted : Option Text → Option Text
then_quoted none = none
then_quoted (some rest) = capture (codes "'") rest

-- `replace(/\\\//g, "/")`
unfoldable pub unescape : Text → Text
unescape [] = []
unescape (c ∷ []) = c ∷ []
unescape (c ∷ d ∷ text) =
    let kept = c ∷ unescape (d ∷ text) in
    let replaced = 47 ∷ unescape text in if c == 92 && d == 47 then replaced else kept

-- The address that the login form is posted to, by its two patterns.
unfoldable pub find_url_post : Text → Option Text
find_url_post page =
    elim (first_of (leftmost (codes "urlPost\":\"") (capture (codes "\"")) page) (
      leftmost (codes "urlPost:")
        (λ rest. then_quoted (after_prefix (codes "'") (skip_spaces rest))) page)) [
          | none ↦ none
          | some url ↦ some (unescape url)
        ]

-- An answer of a page: none is a text that cannot be read, and a location that is missing.
pub record Page : Type 0 where
  pub took : ℕ
  pub arrives : Bool
  pub is_ok : Bool
  pub status : ℕ
  pub text : Option Text
  pub cookies : List Text
  pub location : Option Text

pub record Pages : Type 0 where
  pub page : List Request → Page
  -- `new URLSearchParams(fragment).get(name)`, `decodeURIComponent(text)`, `Number(text)` with 0 for
  -- NaN.
  pub parameter : Text → Text → Option Text
  pub decode_uri_component : Text → Option Text
  pub number : Text → ℕ

-- `text.split(sep)[0]`
abbrev before : ℕ → Text → Text
before sep text = elim (split sep text) [ [] ↦ [] | part ∷ parts ↦ part ]

-- `parts.join("; ")`
unfoldable pub join_cookies : List Text → Text
join_cookies [] = []
join_cookies (cookie ∷ []) = cookie
join_cookies (cookie ∷ next ∷ cookies) = cookie ++ codes "; " ++ join_cookies (next ∷ cookies)

-- `extractCookies`
unfoldable pub extract_cookies : Page → Text
extract_cookies response = join_cookies (map (before 59) response.cookies)

-- `mergeCookies`
unfoldable pub merge_cookies : Text → Text → Text
merge_cookies existing [] = existing
merge_cookies [] (c ∷ incoming) = c ∷ incoming
merge_cookies (d ∷ existing) (c ∷ incoming) = (d ∷ existing) ++ codes "; " ++ c ∷ incoming

-- `inferPasswordAuthFailure`, by the message that it chooses.
unfoldable pub infer_password_auth_failure : Text → Text → PasswordFailure
infer_password_auth_failure last_url body =
    if includes (codes "identity/confirm") last_url
      || includes (codes "identity/confirm") body
      || includes (codes "Help us protect your account") body
      || includes (codes "account.live.com/identity") body
    then PasswordFailure.identity_verification
    else if includes (codes "LiveTwoStepVerification") last_url
        || includes (codes "two-step verification") body
        || includes (codes "2FA") body
    then PasswordFailure.two_factor
    else if includes (codes "Stay signed in?") body
        || includes (codes "Keep me signed in") body
        || includes (codes "kmsi") body
        || includes (codes "kmsi") last_url
    then PasswordFailure.stay_signed_in
    else if includes (codes "Permissions requested") body
        || includes (codes "Review permissions") body
        || includes (codes "Let this app access your info") body
        || includes (codes "consent") last_url
    then PasswordFailure.consent
    else if includes (codes "password is incorrect") body
        || includes (codes "Your account or password is incorrect") body
        || includes (codes "That Microsoft account doesn") body
        || includes (codes "Enter the password for") body
        || includes (codes "Try again, or use a different password") body
    then PasswordFailure.invalid_credentials
    else PasswordFailure.unrecognized
