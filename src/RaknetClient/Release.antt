-- ===== src/RaknetClient/Release.antt =====
-- packages/raknet/src/client/client.ts: what is released when, in every order of the operations.
use baltica.Base.{◌≡◌, refl, sym, ap, ◌∙◌, Bool, true, false, ◌&&◌, not, List, [], ◌∷◌, ◌++◌, arith}
use baltica.RaknetClient.{
  Stage, resolving, negotiating, binding, Connecting, pending, waiting, Client, new_client,
  Operation, rejected, timed_out, call_close, lookup_found, relay_made, timeout, close,
  on_network_connect, on_network_disconnect, on_network_error, on_timeout, apply, run,
}

-- While the lookup or the relay is under way, nothing is held that `close` could release.
abbrev pub is_opening : Stage → Bool
is_opening resolving = true
is_opening negotiating = true
is_opening _ = false

abbrev pub is_pending : Connecting → Bool
is_pending pending = true
is_pending _ = false

apply-held :
    (o : Operation) (c : Client)
    → c.held ≡ c.socket_open
    → (apply o c).held ≡ (apply o c).socket_open
unfolding apply close on_network_connect on_network_disconnect on_network_error on_timeout
apply-held o c h = ground arith

-- What is held is what is open, a closed client's session is destroyed, and while `connect` waits for
-- the session its timer runs.
pub record Kept (c : Client) : Type 0 where
  pub held_open : c.held ≡ c.socket_open
  pub closed_destroyed : c.closed ≡ c.destroyed
  pub timed : is_pending c.promise ≡ true → c.timer ≡ true

apply-destroyed :
    (o : Operation) (c : Client)
    → c.closed ≡ c.destroyed
    → (apply o c).closed ≡ (apply o c).destroyed
unfolding apply close on_network_connect on_network_disconnect on_network_error on_timeout
apply-destroyed o c h = ground arith

apply-timed :
    (o : Operation) (c : Client)
    → (is_pending c.promise ≡ true → c.timer ≡ true)
    → is_pending (apply o c).promise ≡ true
    → (apply o c).timer ≡ true
unfolding apply close on_network_connect on_network_disconnect on_network_error on_timeout
apply-timed o c h p = ground arith

-- Closed with nothing open, or not closed.
abbrev pub Released : Client → Type 0
Released c = c.closed && c.socket_open ≡ false

apply-Released :
    (o : Operation) (c : Client)
    → c.held ≡ c.socket_open
    → c.closed && is_opening c.stage ≡ false
    → Released c
    → Released (apply o c)
unfolding apply close on_network_connect on_network_disconnect on_network_error on_timeout
apply-Released o c k s r = ground arith

run-Kept : (os : List Operation) (c : Client) → Kept c → Kept (run os c)
unfolding run
run-Kept [] c k = k
run-Kept (o ∷ os) c k = run-Kept os (apply o c) (record {
  held_open = apply-held o c k.held_open;
  closed_destroyed = apply-destroyed o c k.closed_destroyed;
  timed = apply-timed o c k.timed;
})

-- The client is never closed and still opening its socket.
abbrev pub InOrder : List Operation → Client → Type 0
InOrder [] c = c.closed && is_opening c.stage ≡ false
InOrder (o ∷ os) c = (c.closed && is_opening c.stage ≡ false) × InOrder os (apply o c)

run-append : (os ps : List Operation) (c : Client) → run (os ++ ps) c ≡ run ps (run os c)
unfolding run
run-append [] ps c = refl
run-append (o ∷ os) ps c = run-append os ps (apply o c)

run-Released_from :
    (os : List Operation) (c : Client)
    → c.held ≡ c.socket_open
    → InOrder os c
    → Released c
    → Released (run os c)
unfolding run
run-Released_from [] c k s r = r
run-Released_from (o ∷ os) c k (s, ss) r =
    run-Released_from os (apply o c) (apply-held o c k) ss (apply-Released o c k s r)

timeout_settles : (c : Client) → c.timer ≡ true → (apply timeout c).promise ≡ rejected timed_out
unfolding apply on_timeout close
timeout_settles c t = rw t refl

timeout_ends :
    (c : Client)
    → c.timer ≡ true
    → ((apply timeout c).closed ≡ true) × ((apply timeout c).timer ≡ false)
unfolding apply on_timeout close
timeout_ends c t = ground arith

-- If after any operations the promise of `connect` waits for the session, and its timer then fires,
-- the promise is rejected as timed out, the client is closed and its session destroyed, and the timer
-- is gone.
pub run_settles :
    (proxy : Bool) (os : List Operation)
    → is_pending (run os (new_client proxy)).promise ≡ true
    → let c = run (os ++ timeout ∷ []) (new_client proxy) in
      (c.promise ≡ rejected timed_out)
      × (c.closed ≡ true)
      × (c.destroyed ≡ true)
      × (c.timer ≡ false)
unfolding run
run_settles proxy os waits =
    let before = run os (new_client proxy) in
    let kept =
      run-Kept os (new_client proxy)
        (record { held_open = refl; closed_destroyed = refl; timed = λ e. cc }) in
    let same = run-append os (timeout ∷ []) (new_client proxy) in
    let ended = timeout_ends before (kept.timed waits) in
    (
      ap (λ c. c.promise) same ∙ timeout_settles before (kept.timed waits),
      ap (λ c. c.closed) same ∙ ended.0,
      ap (λ c. c.destroyed) same
          ∙ sym (apply-destroyed timeout before kept.closed_destroyed)
          ∙ ended.0,
      ap (λ c. c.timer) same ∙ ended.1,
    )

-- If the client is never closed while it is opening its socket or relay, then a closed client has
-- nothing open.
pub run-Released :
    (proxy : Bool) (os : List Operation)
    → InOrder os (new_client proxy)
    → Released (run os (new_client proxy))
run-Released proxy os s = run-Released_from os (new_client proxy) refl s refl

opened_closed : (o : Operation) (c : Client) → c.closed ≡ true → (apply o c).closed ≡ true
unfolding apply close on_network_connect on_network_disconnect on_network_error on_timeout
opened_closed o c k = ground arith

apply_leaks :
    (o : Operation) (c : Client)
    → c.closed ≡ true
    → c.socket_open ≡ true
    → (apply o c).socket_open ≡ true
unfolding apply close on_network_connect on_network_disconnect on_network_error on_timeout
apply_leaks o c k s = ground arith

run_leaks :
    (os : List Operation) (c : Client)
    → c.closed ≡ true
    → c.socket_open ≡ true
    → (run os c).socket_open ≡ true
unfolding run
run_leaks [] c k s = s
run_leaks (o ∷ os) c k s = run_leaks os (apply o c) (opened_closed o c k) (apply_leaks o c k s)

abbrev pub opens : Operation → Client → Bool
opens lookup_found c = elim c.stage [ resolving ↦ not c.proxy | _ ↦ false ]
opens relay_made c = elim c.stage [ negotiating ↦ true | _ ↦ false ]
opens _ c = false

opened : (o : Operation) (c : Client) → opens o c ≡ true → (apply o c).socket_open ≡ true
unfolding apply close on_network_connect on_network_disconnect on_network_error on_timeout
opened o c e = ground arith

-- What is opened after `close`, because the lookup or the relay was late, is never released.
pub late_opening_leaks :
    (o : Operation) (os : List Operation) (c : Client)
    → c.closed ≡ true
    → opens o c ≡ true
    → (run (o ∷ os) c).socket_open ≡ true
unfolding apply run
late_opening_leaks o os c k e = run_leaks os (apply o c) (opened_closed o c k) (opened o c e)

-- A client that waits for a socket that has been closed.
abbrev pub IsStuck : Client → Type 0
IsStuck c =
    (c.stage ≡ binding)
    × (c.socket_open ≡ false)
    × (c.held ≡ false)
    × (c.awaiting ≡ false)
    × (c.timer ≡ false)
    × (c.promise ≡ waiting)

apply-IsStuck : (o : Operation) (c : Client) → IsStuck c → IsStuck (apply o c)
unfolding apply close on_network_connect on_network_disconnect on_network_error on_timeout
apply-IsStuck o c (s, n, h, a, t, p) = ground arith

run-IsStuck : (os : List Operation) (c : Client) → IsStuck c → (run os c).promise ≡ waiting
unfolding run
run-IsStuck [] c (s, n, h, a, t, p) = p
run-IsStuck (o ∷ os) c stuck = run-IsStuck os (apply o c) (apply-IsStuck o c stuck)

-- If the client is closed while `connect` waits for its socket to be bound, the socket being open and
-- its timer not yet set, then the promise of `connect` still waits after any operations that follow.
pub close_hangs :
    (c : Client) (os : List Operation)
    → c.stage ≡ binding
    → c.held ≡ true
    → c.socket_open ≡ true
    → c.closed ≡ false
    → c.promise ≡ waiting
    → c.timer ≡ false
    → (run (call_close ∷ os) c).promise ≡ waiting
unfolding apply run close
close_hangs c os s h n k p t = run-IsStuck os (apply call_close c) (ground arith)
