-- ===== src/Examples/RaknetClients.antt =====
-- Runs of the client of packages/raknet.
use baltica.RaknetClient.Release.{close_hangs}
use baltica.Base.{◌≡◌, refl, true, false, List, [], ◌∷◌, ◌++◌}
use baltica.RaknetClient.{
  Client, Connecting, waiting, resolving, binding, Operation, call_connect, call_close,
  go_on_connecting, lookup_found, socket_listens, network_connect, network_disconnect, timeout,
  rejected, timed_out, new_client, close, on_network_connect, on_network_disconnect, apply, run,
}
use baltica.RaknetClient.Release.{Released, run-Released, run_settles, late_opening_leaks}

-- A client that connects, is told of the end, and is closed.
abbrev connection : List Operation
connection =
    call_connect ∷ lookup_found ∷ socket_listens ∷ go_on_connecting ∷ network_connect
    ∷ network_disconnect ∷ call_close ∷ []

connection_connects : (run connection (new_client false)).promise ≡ Connecting.resolved
unfolding run apply close on_network_disconnect on_network_connect
connection_connects = refl

run-Released_example : Released (run connection (new_client false))
unfolding run apply close on_network_disconnect on_network_connect
run-Released_example =
    run-Released false connection (refl, (refl, (refl, (refl, (refl, (refl, (refl, refl)))))))

-- The server does not answer.
abbrev unanswered : List Operation
unanswered = call_connect ∷ lookup_found ∷ socket_listens ∷ go_on_connecting ∷ []

run_settles_example :
    let c = run (unanswered ++ timeout ∷ []) (new_client false) in
    (c.promise ≡ rejected timed_out) × (c.closed ≡ true) × (c.destroyed ≡ true) × (c.timer ≡ false)
unfolding run apply
run_settles_example = run_settles false unanswered refl

-- The application gives up while the lookup is under way.
abbrev given_up : Client
given_up = record (new_client false) {
  stage = resolving;
  promise = waiting;
  closed = true;
  destroyed = true;
  listening = false;
}

late_opening_leaks_example :
    (run (lookup_found ∷ socket_listens ∷ call_close ∷ []) given_up).socket_open ≡ true
late_opening_leaks_example =
    late_opening_leaks lookup_found (socket_listens ∷ call_close ∷ []) given_up refl refl

abbrev while_binding : Client
while_binding = record (new_client false) {
  stage = binding;
  promise = waiting;
  held = true;
  socket_open = true;
}

close_hangs_example :
    (run (call_close ∷ socket_listens ∷ timeout ∷ call_connect ∷ []) while_binding).promise
    ≡ waiting
close_hangs_example =
    close_hangs while_binding (socket_listens ∷ timeout ∷ call_connect ∷ []) refl refl refl refl
      refl refl
