-- ===== src/Auth/Calm.antt =====
-- packages/auth/src/auth: what the requests of a login leave alone.
use baltica.Base.{ℕ, zero, suc, refl, Bool, Option, none, some, arith, ◌⊎◌, inl, inr}
use baltica.Base.Tests.{if◌then◌else◌, ltb, Bool-cases}
use baltica.Base.Texts.{Text, codes, present, is_empty}
use baltica.Address.{split}
use baltica.Auth.{MicrosoftTokens, XstsToken, Request, World, Method}
use baltica.Auth.Services.{
  authenticate_xbl, authenticate_xsts, login_with_play_fab, get_bedrock_chain,
  get_minecraft_services_token, get_multiplayer_session_token, request_device_code,
  refresh_microsoft_token, judge_poll, poll_round, poll_again, poll_loop, poll_device_code,
}
use baltica.Auth.Replies.{Internet, TokenReply}
use baltica.Auth.Password.{
  fetch_page, redirect_loop, tokens_of, conclude, authenticate_with_password, demand,
  decode_refresh,
}
use baltica.Auth.Pages.{Pages, Page, includes, find_ppft, find_url_post}
use baltica.Auth.Calmness.{
  Calm, Calm-refl, IsCalm, and_then-Calm, bind-IsCalm, still-IsCalm, option-IsCalm, list-IsCalm,
  bool-IsCalm, if-IsCalm, fetch-IsCalm, json-IsCalm, check_ok-IsCalm, request-IsCalm, judged,
}

module _ (net : Internet) where
  pub authenticate_xbl-IsCalm : (token : Text) → IsCalm (authenticate_xbl net token)
  unfolding authenticate_xbl
  authenticate_xbl-IsCalm token = request-IsCalm _ _ _ (λ a. still-IsCalm)

  pub authenticate_xsts-IsCalm :
      (token : Text) (party : Option Text) → IsCalm (authenticate_xsts net token party)
  unfolding authenticate_xsts
  authenticate_xsts-IsCalm token party =
      bind-IsCalm (fetch-IsCalm _ _) (λ reply.
        bind-IsCalm still-IsCalm (λ u. bind-IsCalm (json-IsCalm reply) (λ a. still-IsCalm)))

  pub login_with_play_fab-IsCalm : (xsts : XstsToken) → IsCalm (login_with_play_fab net xsts)
  unfolding login_with_play_fab
  login_with_play_fab-IsCalm xsts = request-IsCalm _ _ _ (λ a. still-IsCalm)

  pub get_bedrock_chain-IsCalm :
      (token hash key : Text) → IsCalm (get_bedrock_chain net token hash key)
  unfolding get_bedrock_chain
  get_bedrock_chain-IsCalm token hash key =
      bind-IsCalm (fetch-IsCalm _ _)
        (λ reply. bind-IsCalm (check_ok-IsCalm reply _) (λ u. json-IsCalm reply))

  pub get_minecraft_services_token-IsCalm :
      (ticket : Text) → IsCalm (get_minecraft_services_token net ticket)
  unfolding get_minecraft_services_token
  get_minecraft_services_token-IsCalm ticket =
      request-IsCalm _ _ _ (λ a. bind-IsCalm still-IsCalm (λ now. still-IsCalm))

  pub get_multiplayer_session_token-IsCalm :
      (auth key : Text) → IsCalm (get_multiplayer_session_token net auth key)
  unfolding get_multiplayer_session_token
  get_multiplayer_session_token-IsCalm auth key =
      request-IsCalm _ _ _ (λ a. bind-IsCalm still-IsCalm (λ now. still-IsCalm))

  pub request_device_code-IsCalm : (id : Text) → IsCalm (request_device_code net id)
  unfolding request_device_code
  request_device_code-IsCalm id = request-IsCalm _ _ _ (λ a. still-IsCalm)

  pub refresh_microsoft_token-IsCalm :
      (id token : Text) → IsCalm (refresh_microsoft_token net id token)
  unfolding refresh_microsoft_token
  refresh_microsoft_token-IsCalm id token =
      request-IsCalm _ _ _ (λ a. bind-IsCalm still-IsCalm (λ now. still-IsCalm))

  judge_poll-IsCalm :
      (is_ok : Bool) (reply : TokenReply) (interval : ℕ)
      → IsCalm (judge_poll net is_ok reply interval)
  judge_poll-IsCalm is_ok reply interval = record {
    calm = λ w. rw (judged net is_ok reply interval w) (Calm-refl w);
  }

  poll_round-IsCalm : (id code : Text) (interval : ℕ) → IsCalm (poll_round net id code interval)
  unfolding poll_round
  poll_round-IsCalm id code interval =
      bind-IsCalm
        (record { calm = λ w. record { same_file = refl; no_end = refl; clock = omega arith } })
        (λ u.
          bind-IsCalm (fetch-IsCalm _ _)
            (λ reply. bind-IsCalm (json-IsCalm reply) (λ body. judge_poll-IsCalm _ body interval)))

  poll_again-IsCalm :
      (again : ℕ → Method MicrosoftTokens)
      → ((i : ℕ) → IsCalm (again i))
      → (next : MicrosoftTokens ⊎ ℕ) → IsCalm (poll_again net again next)
  poll_again-IsCalm again c (inl t) = still-IsCalm
  poll_again-IsCalm again c (inr i) = c i

  poll_loop-Calm :
      (rounds : ℕ) (id code : Text) (deadline interval : ℕ) (w : World)
      → Calm w (poll_loop net rounds id code deadline interval w).1
  unfolding poll_loop
  poll_loop-Calm zero id code deadline interval w = Calm-refl w
  poll_loop-Calm (suc rounds) id code deadline interval w = elim (Bool-cases (ltb w.now deadline)) [
    | inr late ↦ rw (late, poll_loop) (Calm-refl w)
    | inl early ↦
        rw (early, poll_loop)
          (and_then-Calm w (poll_round net id code interval w)
            (poll_again net (poll_loop net rounds id code deadline))
            ((poll_round-IsCalm id code interval).calm w)
            (poll_again-IsCalm (poll_loop net rounds id code deadline)
              (λ i. record { calm = poll_loop-Calm rounds id code deadline i })))
  ]

  pub poll_device_code-IsCalm :
      (id code : Text) (interval expires_in : ℕ)
      → IsCalm (poll_device_code net id code interval expires_in)
  unfolding poll_device_code
  poll_device_code-IsCalm id code interval expires_in = record {
    calm = λ w. poll_loop-Calm _ id code _ interval w;
  }

demand-IsCalm : (o : Option Text) → IsCalm (demand o)
demand-IsCalm none = still-IsCalm
demand-IsCalm (some t) = still-IsCalm

module _ (pages : Pages) where
  fetch_page-IsCalm : (r : Request) → IsCalm (fetch_page pages r)
  unfolding fetch_page
  fetch_page-IsCalm r = record {
    calm = λ w. record { same_file = refl; no_end = refl; clock = omega arith };
  }

  redirect_loop-IsCalm :
      (rounds : ℕ) (location : Option Text) (cookies body : Text)
      → IsCalm (redirect_loop pages rounds location cookies body)
  unfolding redirect_loop
  redirect_loop-IsCalm zero location cookies body = still-IsCalm
  redirect_loop-IsCalm (suc rounds) location cookies body =
      option-IsCalm (present location) still-IsCalm (λ url.
        bool-IsCalm (includes _ url) still-IsCalm
          (bind-IsCalm (fetch_page-IsCalm _) (λ response. redirect_loop-IsCalm rounds _ _ _)))

  tokens_of-IsCalm : (location : Text) → IsCalm (tokens_of pages location)
  unfolding tokens_of
  tokens_of-IsCalm location = list-IsCalm (split 35 location) still-IsCalm (λ address parts.
      list-IsCalm parts still-IsCalm (λ fragment more.
        option-IsCalm
          (if is_empty fragment
            then none
            else present (pages.parameter fragment (codes "access_token")))
          still-IsCalm
          (λ token.
            bind-IsCalm
              (option-IsCalm (pages.decode_uri_component token) still-IsCalm (λ t. still-IsCalm))
              (λ access.
                bind-IsCalm
                  (refresh-IsCalm (present (pages.parameter fragment (codes "refresh_token"))))
                  (λ refresh. bind-IsCalm still-IsCalm (λ now. still-IsCalm))))))
    where
      refresh-IsCalm : (t : Option Text) → IsCalm (decode_refresh pages t)
      refresh-IsCalm none = still-IsCalm
      refresh-IsCalm (some t) =
          option-IsCalm (pages.decode_uri_component t) still-IsCalm (λ d. still-IsCalm)

  conclude-IsCalm :
      (login_response : Page) (found : Option Text × Text)
      → IsCalm (conclude pages login_response found)
  unfolding conclude
  conclude-IsCalm login_response (location, body) =
      option-IsCalm (present location) still-IsCalm
        (λ url. if-IsCalm (includes _ url) (tokens_of-IsCalm url) still-IsCalm)

  pub authenticate_with_password-IsCalm :
      (id email password : Text) → IsCalm (authenticate_with_password pages id email password)
  unfolding authenticate_with_password
  authenticate_with_password-IsCalm id email password = bind-IsCalm (fetch_page-IsCalm _) (λ page.
      bind-IsCalm (if-IsCalm page.is_ok still-IsCalm still-IsCalm) (λ u.
        bind-IsCalm (option-IsCalm page.text still-IsCalm (λ t. still-IsCalm)) (λ html.
          bind-IsCalm (demand-IsCalm (find_ppft html)) (λ ppft.
            bind-IsCalm (demand-IsCalm (find_url_post html)) (λ url.
              bind-IsCalm (fetch_page-IsCalm _) (λ response.
                bind-IsCalm (redirect_loop-IsCalm _ _ _ _)
                  (λ found. conclude-IsCalm response found)))))))
