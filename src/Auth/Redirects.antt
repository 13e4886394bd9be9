-- ===== src/Auth/Redirects.antt =====
-- packages/auth/src/auth/microsoft.ts: the loop over redirects of `authenticateWithPassword`.
use baltica.Base.{
  ℕ, zero, suc, ◌+◌, ◌≡◌, ◌∙◌, refl, sym, ap, true, false, Option, none, some, List, [], ◌∷◌, ◌++◌,
  append-nil, append_assoc,
}
use baltica.Base.Lists.{length, All}
use baltica.Base.Texts.{Text, codes, present}
use baltica.Auth.{Request, World, Result, returned, ◌>>=◌, and_then}
use baltica.Auth.Password.{fetch_page, redirect_request, redirect_loop, last_body}
use baltica.Auth.Pages.{Pages, includes, merge_cookies, extract_cookies}

-- A request for the same page.
abbrev pub AsksAgain : Text → Request → Type 0
AsksAgain url r = (cookies : Text) × (r ≡ redirect_request url cookies)

module _ (pages : Pages) (url : Text) where
  abbrev after_page : Text → Request → World → World
  after_page cookies r w = record w {
    requests = w.requests ++ r ∷ [];
    now = w.now + (pages.page (w.requests ++ r ∷ [])).took;
  }

  -- A page that leads nowhere: the loop goes on with the same location.
  redirect_loop_stays :
      (rounds : ℕ) (cookies body : Text) (w : World)
      → present (some url) ≡ some url
      → includes (codes "access_token") url ≡ false
      → ((sent : List Request) → (pages.page sent).arrives ≡ true)
      → ((sent : List Request) → (pages.page sent).location ≡ none)
      → (cookies' : Text) × (body' : Text) × (redirect_loop pages
            (suc rounds)
            (some url)
            cookies
            body
            w
          ≡ redirect_loop pages rounds
              (some url)
              cookies'
              body'
              (after_page cookies (redirect_request url cookies) w))
  unfolding redirect_loop ◌>>=◌ fetch_page
  redirect_loop_stays rounds cookies body w whole other arrives nowhere =
      let sent = w.requests ++ redirect_request url cookies ∷ [] in
      let response = pages.page sent in
      (
        merge_cookies cookies (extract_cookies response),
        last_body response body,
        rw (whole, other, arrives sent, redirect_loop, and_then, nowhere sent) refl,
      )

  -- If the page that a redirect leads to names no other, it is asked for again in every round that is
  -- left, and its location stays the last one.
  pub redirect_loop_repeats :
      (rounds : ℕ) (cookies body : Text) (w : World)
      → present (some url) ≡ some url
      → includes (codes "access_token") url ≡ false
      → ((sent : List Request) → (pages.page sent).arrives ≡ true)
      → ((sent : List Request) → (pages.page sent).location ≡ none)
      → (asked : List Request) × (length asked ≡ rounds)
        × All (AsksAgain url) asked
        × ((redirect_loop pages rounds (some url) cookies body w).1.requests ≡ w.requests ++ asked)
        × (body' : Text) × ((redirect_loop pages rounds (some url) cookies body w).0
            ≡ returned (some url, body'))
  unfolding redirect_loop
  redirect_loop_repeats zero cookies body w whole other arrives nowhere =
      ([], refl, tt, sym (append-nil w.requests), body, refl)
  redirect_loop_repeats (suc rounds) cookies body w whole other arrives nowhere =
      let (cookies', body', step) =
        redirect_loop_stays rounds cookies body w whole other arrives nowhere in
      let r = redirect_request url cookies in
      let (asked, count, all, requests, last, result) =
        redirect_loop_repeats rounds cookies' body' (after_page cookies r w) whole other arrives
          nowhere in
      (
        r ∷ asked,
        ap suc count,
        ((cookies, refl), all),
        ap (λ (p : Result (Option Text × Text) × World). p.1.requests) step
            ∙ (requests ∙ (append_assoc w.requests (r ∷ []) asked)),
        last,
        ap (λ (p : Result (Option Text × Text) × World). p.0) step ∙ result,
      )
