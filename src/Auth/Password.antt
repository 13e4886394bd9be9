-- ===== src/Auth/Password.antt =====
-- packages/auth/src/auth/microsoft.ts: `authenticateWithPassword`.
--
-- The file with the page of a failure, and the text of its message, are left out.
use baltica.Base.{ℕ, zero, suc, ◌+◌, ◌*◌, true, false, Option, none, some, [], ◌∷◌, ◌++◌}
use baltica.Base.Tests.{◌==◌, if◌then◌else◌}
use baltica.Base.Texts.{Text, codes, is_empty, or_else, with_default, present}
use baltica.Address.{split}
use baltica.Auth.{
  MicrosoftTokens, Endpoint, unreachable, refused, page_not_understood, password_failed,
  no_access_token, not_json, Request, returned, thrown, Method, pure, throw, ◌>>=◌, ◌>>◌, date_now,
}
use baltica.Auth.Pages.{
  includes, find_ppft, find_url_post, Page, Pages, extract_cookies, merge_cookies,
  infer_password_auth_failure,
}

abbrev pub redirect_request : Text → Text → Request
redirect_request url cookies = record {
  endpoint = Endpoint.live_redirect;
  authorization = none;
  body = url ∷ cookies ∷ [];
}

-- The body of a page that leads nowhere; else the one that was kept.
abbrev pub last_body : Page → Text → Text
last_body response body = elim (present response.location) [
  | some url ↦ body
  | none ↦ with_default response.text []
]

abbrev pub demand : Option Text → Method Text
demand none = throw page_not_understood
demand (some text) = pure text

abbrev authorize_request : Text → Request
authorize_request client_id = record {
  endpoint = Endpoint.live_authorize;
  authorization = none;
  body = client_id ∷ [];
}

abbrev login_request : Text → Text → Text → Text → Text → Request
login_request url cookies email password ppft = record {
  endpoint = Endpoint.live_post;
  authorization = none;
  body = url ∷ cookies ∷ email ∷ password ∷ ppft ∷ [];
}

abbrev max_redirects : ℕ
max_redirects = 10

module _ (pages : Pages) where
  -- `await fetch(url)`
  unfoldable pub fetch_page : Request → Method Page
  fetch_page request w =
      let sent = w.requests ++ request ∷ [] in
      let response = pages.page sent in
      (
        if response.arrives then returned response else thrown unreachable,
        record w { requests = sent; now = w.now + response.took },
      )

  -- The loop over redirects, with the rounds left: the last location and the last body.
  unfoldable pub redirect_loop : ℕ → Option Text → Text → Text → Method (Option Text × Text)
  redirect_loop zero location cookies body = pure (location, body)
  redirect_loop (suc rounds) location cookies body = elim (present location) [
    | none ↦ pure (location, body)
    | some url ↦ elim (includes (codes "access_token") url) [
      | true ↦ pure (location, body)
      | false ↦ fetch_page (redirect_request url cookies) >>= λ response.
          redirect_loop rounds (some (with_default response.location url))
            (merge_cookies cookies (extract_cookies response)) (last_body response body)
    ]
  ]

  -- `decodeURIComponent(text)`, which throws on a bad escape.
  abbrev decode : Text → Method Text
  decode text = elim (pages.decode_uri_component text) [
    | none ↦ throw no_access_token
    | some decoded ↦ pure decoded
  ]

  abbrev pub decode_refresh : Option Text → Method Text
  decode_refresh none = pure []
  decode_refresh (some text) = decode text

  abbrev or_zero_text : Option Text → Text
  or_zero_text none = []
  or_zero_text (some text) = text

  -- `Number(expiresIn) || 86400`
  abbrev lifetime : Option Text → ℕ
  lifetime text = let n = pages.number (or_zero_text text) in if n == 0 then 86400 else n

  -- The tokens in the fragment of the last redirect.
  unfoldable pub tokens_of : Text → Method MicrosoftTokens
  tokens_of location = elim (split 35 location) [
    | [] ↦ throw no_access_token
    | address ∷ parts ↦ elim parts [
      | [] ↦ throw no_access_token
      | fragment ∷ more ↦
          elim (if is_empty fragment
            then none
            else present (pages.parameter fragment (codes "access_token"))) [
              | none ↦ throw no_access_token
              | some access_token ↦ do
                access ← decode access_token
                refresh ←
                    decode_refresh (present (pages.parameter fragment (codes "refresh_token")))
                now ← date_now
                pure (record {
                  access_token = access;
                  refresh_token = refresh;
                  expires_at =
                      now + lifetime (pages.parameter fragment (codes "expires_in")) * 1000;
                })
            ]
    ]
  ]

  -- What follows the redirects.
  unfoldable pub conclude : Page → Option Text × Text → Method MicrosoftTokens
  conclude login_response (location, body) = elim (present location) [
    | none ↦ throw (
        password_failed
          (infer_password_auth_failure [] (or_else body (with_default login_response.text []))))
    | some url ↦
        if includes (codes "access_token") url
        then tokens_of url
        else throw (
            password_failed (
              infer_password_auth_failure url (or_else body (with_default login_response.text []))))
  ]

  -- `authenticateWithPassword`
  unfoldable pub authenticate_with_password : Text → Text → Text → Method MicrosoftTokens
  authenticate_with_password client_id email password = do
    page_response ← fetch_page (authorize_request client_id)
    (if page_response.is_ok
        then pure tt
        else throw (refused Endpoint.live_authorize page_response.status))
    page_html ← (elim page_response.text [ none ↦ throw not_json | some text ↦ pure text ])
    ppft ← demand (find_ppft page_html)
    url_post ← demand (find_url_post page_html)
    let cookies = extract_cookies page_response
    login_response ← fetch_page (login_request url_post cookies email password ppft)
    found ←
        redirect_loop max_redirects login_response.location
          (merge_cookies cookies (extract_cookies login_response)) []
    conclude login_response found
