-- ===== src/Bridge/Routing.antt =====
-- packages/baltica/src/bridge/bridge-player.ts: what listeners can do to a packet that is passed on.
use baltica.Base.{ℕ, ◌≡◌, refl, ap, ◌∙◌, Bool, false, ◌&&◌, Option, none, some, List, [], ◌∷◌}
use baltica.Base.Tests.{if◌then◌else◌, if_cases}
use baltica.Base.Lists.{All}
use baltica.Frame.{◌>>=◌}
use baltica.Bridge.{
  PacketClass, Context, Destination, destination, sent, Listener, emit, emit_unless_cancelled,
  emit_all, no_context, conclude, is_silent, route_packet,
}

module _ {P : Type 0} where
  -- A context in which nothing has been cancelled or modified.
  abbrev pub IsUntouched : Context P → Type 0
  IsUntouched ctx = (ctx.cancelled ≡ false) × (ctx.modified ≡ false)

  -- A listener that looks at packets only: it returns, and leaves such a context so.
  abbrev pub IsWatcher : Listener P → Type 0
  IsWatcher listener =
      (ctx : Context P)
      → IsUntouched ctx
      → (ctx' : Context P) × (listener ctx ≡ some ctx') × IsUntouched ctx'

  emit-IsUntouched :
      (listeners : List (Listener P)) (ctx : Context P)
      → All IsWatcher listeners
      → IsUntouched ctx
      → (ctx' : Context P) × (emit listeners ctx ≡ some ctx') × IsUntouched ctx'
  unfolding emit
  emit-IsUntouched [] ctx h u = (ctx, refl, u)
  emit-IsUntouched (listener ∷ listeners) ctx (w, h) u =
      let (next, e, v) = w ctx u in
      let (last, f, x) = emit-IsUntouched listeners next h v in
      (last, ap (λ r. r >>= emit listeners) e ∙ f, x)

  unless-IsUntouched :
      (listeners : List (Listener P)) (ctx : Context P)
      → All IsWatcher listeners
      → IsUntouched ctx
      → (ctx' : Context P) × (emit_unless_cancelled listeners ctx ≡ some ctx') × IsUntouched ctx'
  unfolding emit_unless_cancelled
  unless-IsUntouched listeners ctx h (k, m) =
      let (last, f, x) = emit-IsUntouched listeners ctx h (k, m) in
      (last, ap (λ b. if b then some ctx else emit listeners ctx) k ∙ f, x)

  conclude_untouched :
      (class : PacketClass P) (buffer : List ℕ) (to : Destination) (ctx : Context P)
      → IsUntouched ctx
      → conclude class buffer to (some ctx) ≡ sent to buffer
  conclude_untouched class buffer to ctx (k, m) = rw (k, m) refl

  -- If the listeners only look at packets, then a packet is passed on to the other side as it came,
  -- whether its class is known or not.
  pub route_packet_passes :
      (class : Option (PacketClass P)) (buffer : List ℕ) (client_bound : Bool)
      (specific wildcard complete : List (Listener P))
      → All IsWatcher specific
      → All IsWatcher wildcard
      → All IsWatcher complete
      → route_packet class buffer client_bound specific wildcard complete
        ≡ sent (destination client_bound) buffer
  unfolding route_packet emit_all
  route_packet_passes none buffer client_bound specific wildcard complete hs hw hc = refl
  route_packet_passes (some class) buffer client_bound specific wildcard complete hs hw hc =
      let to = destination client_bound in
      let (first, e, u) = emit-IsUntouched specific no_context hs (refl, refl) in
      let (second, f, v) = unless-IsUntouched wildcard first hw u in
      let (third, g, w) = unless-IsUntouched complete second hc v in
      if_cases (λ r. r ≡ sent to buffer)
        (is_silent specific && is_silent wildcard && is_silent complete) refl
        (rw (e, f, g) (conclude_untouched class buffer to third w))
