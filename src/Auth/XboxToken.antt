-- ===== src/Auth/XboxToken.antt =====
-- packages/auth/src/auth/auth.ts and session.ts: the Xbox token that a user gives, and the header
-- that it is sent in.
use baltica.Base.{◌≡◌, ◌≢◌, refl, true, false, some, [], ◌∷◌, ◌++◌}
use baltica.Base.Tests.{ne→==}
use baltica.Base.Lists.{All}
use baltica.Base.Texts.{Text, is_empty}
use baltica.Auth.Replies.{xbl_header}
use baltica.Auth.Pages.{after_prefix, skip_spaces}
use baltica.Auth.Cache.{parse_xbox_token, until_semicolon, one_line}

until_semicolon-append :
    (hash token : Text)
    → All (λ c. c ≢ 59) hash
    → until_semicolon (hash ++ 59 ∷ token) ≡ some (hash, token)
unfolding until_semicolon
until_semicolon-append [] token h = refl
until_semicolon-append (c ∷ hash) token (other, h) =
    rw (ne→== c 59 other, until_semicolon-append hash token h) refl

-- A hash without a semicolon and a token on one line, neither of them empty, come back from the
-- header that they are sent in.
pub parse_xbox_token-xbl_header :
    (hash token : Text)
    → All (λ c. c ≢ 59) hash
    → is_empty hash ≡ false
    → is_empty token ≡ false
    → one_line token ≡ true
    → parse_xbox_token (xbl_header hash token) ≡ some (hash, token)
unfolding parse_xbox_token xbl_header after_prefix skip_spaces
parse_xbox_token-xbl_header hash token no_semicolon some_hash some_token line =
    rw (until_semicolon-append hash token no_semicolon, some_hash, some_token, line) refl
