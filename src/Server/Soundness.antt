-- ===== src/Server/Soundness.antt =====
-- The table of connections of packages/raknet/src/server/server.ts, and its invariant.
use baltica.Base.{ℕ, ◌+◌, ◌≤◌, ◌≡◌, refl, subst, some, List, [], ◌∷◌, inl, inr, arith}
use baltica.Base.Tests.{some_injective, if_cases, Bool-cases}
use baltica.Base.Lists.{length, All}
use baltica.Base.Maps.{lookup}
use baltica.Window.Gaps.{new_window-IsConsistent}
use baltica.Session.{Session, Event}
use baltica.Session.Soundness.{IsSound}
use baltica.Server.{
  Endpoint, Server, ServerOptions, same_key, find, store, remove, is_disconnect, forward,
  new_session,
}

-- Every connection's session is sound, at an MTU that is not above the server's.
abbrev pub AllSound : ℕ → List (Endpoint × Session) → Type 0
AllSound mtu = All (λ x. IsSound mtu x.1)

-- There are at most as many connections as the options allow, and all are sound.
pub record ServerIsSound (srv : Server) : Type 0 where
  pub bounded : length srv.connections ≤ srv.options.max_connections
  pub all_sound : AllSound srv.options.mtu srv.connections

module _ (mtu : ℕ) where
  pub find-IsSound :
      (e : Endpoint) (connections : List (Endpoint × Session)) (s : Session)
      → AllSound mtu connections
      → find e connections ≡ some s
      → IsSound mtu s
  unfolding find
  find-IsSound e [] s a q = ground arith
  find-IsSound e ((other, t) ∷ connections) s (h, a) q = elim (Bool-cases (same_key other e)) [
    | inl b ↦ subst (IsSound mtu) (some_injective (rw (b, find) at q)) h
    | inr b ↦ find-IsSound e connections s a (rw (b, find) at q)
  ]

  pub store-AllSound :
      (e : Endpoint) (s : Session) (connections : List (Endpoint × Session))
      → IsSound mtu s
      → AllSound mtu connections
      → AllSound mtu (store e s connections)
  unfolding store
  store-AllSound e s [] h a = (h, tt)
  store-AllSound e s ((other, t) ∷ connections) h (ht, a) =
      if_cases (AllSound mtu) (same_key other e) (h, a) (ht, store-AllSound e s connections h a)

  remove-AllSound :
      (e : Endpoint) (connections : List (Endpoint × Session))
      → AllSound mtu connections
      → AllSound mtu (remove e connections)
  unfolding remove
  remove-AllSound e [] a = tt
  remove-AllSound e ((other, t) ∷ connections) (ht, a) =
      if_cases (AllSound mtu) (same_key other e) (remove-AllSound e connections a)
        (ht, remove-AllSound e connections a)

pub length-store_new :
    (e : Endpoint) (s : Session) (connections : List (Endpoint × Session))
    → length (store e s connections) ≤ length connections + 1
unfolding store
length-store_new e s [] = omega arith
length-store_new e s ((other, t) ∷ connections) = ground (arith, length-store_new e s connections)

pub length-store_found :
    (e : Endpoint) (s t : Session) (connections : List (Endpoint × Session))
    → find e connections ≡ some t
    → length (store e s connections) ≡ length connections
unfolding store find
length-store_found e s t [] q = ground arith
length-store_found e s t ((other, u) ∷ connections) q =
    ground (arith, length-store_found e s t connections)

length-remove-le :
    (e : Endpoint) (connections : List (Endpoint × Session))
    → length (remove e connections) ≤ length connections
unfolding remove
length-remove-le e [] = omega arith
length-remove-le e ((other, t) ∷ connections) = ground (arith, length-remove-le e connections)

pub forward-ServerIsSound :
    (e : Endpoint) (events : List Event) (srv : Server)
    → ServerIsSound srv
    → ServerIsSound (forward e events srv)
unfolding forward
forward-ServerIsSound e [] srv v = v
forward-ServerIsSound e (event ∷ events) srv v = forward-ServerIsSound e events _ (record {
  bounded =
      if_cases {A = List (Endpoint × Session)} (λ c. length c ≤ srv.options.max_connections)
        (is_disconnect event) (omega (arith, length-remove-le e srv.connections, v.bounded))
        v.bounded;
  all_sound =
      if_cases (AllSound srv.options.mtu) (is_disconnect event)
        (remove-AllSound srv.options.mtu e srv.connections v.all_sound) v.all_sound;
})

pub new_session-IsSound :
    (now mtu bound remote_guid : ℕ) (e : Endpoint) (options : ServerOptions)
    → mtu ≤ bound
    → IsSound bound (new_session now mtu remote_guid e options)
unfolding lookup
new_session-IsSound now mtu bound remote_guid e options h = record {
  peer_sound = record {
    tracks = record { can = refl; same_keys = λ k. refl; used = λ k b. refl };
    mtu_below = h;
  };
  window_consistent = new_window-IsConsistent;
}
