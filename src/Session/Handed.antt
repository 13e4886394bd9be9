-- ===== src/Session/Handed.antt =====
-- What the events of `NetworkSession` of packages/raknet/src/shared/network-session.ts hand on to
-- the listeners of `encapsulated`.
use baltica.Base.{ℕ, ◌≡◌, refl, ap, List, [], ◌∷◌, ◌++◌}
use baltica.Session.{Event, encapsulated}

-- The packets that a session's events hand on.
unfoldable pub handed : List Event → List (List ℕ)
handed [] = []
handed (encapsulated bytes ∷ events) = bytes ∷ handed events
handed (_ ∷ events) = handed events

pub handed-append : (es fs : List Event) → handed (es ++ fs) ≡ handed es ++ handed fs
unfolding handed
handed-append [] fs = refl
handed-append (encapsulated bytes ∷ es) fs = ap (◌∷◌ bytes) (handed-append es fs)
handed-append (Event.pong text ∷ es) fs = handed-append es fs
handed-append (Event.connect ∷ es) fs = handed-append es fs
handed-append (Event.disconnect ∷ es) fs = handed-append es fs
handed-append (Event.error why ∷ es) fs = handed-append es fs
