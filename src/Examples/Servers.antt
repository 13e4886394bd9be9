-- ===== src/Examples/Servers.antt =====
-- Messages to a server of packages/raknet/src/server/server.ts on small inputs.
use baltica.Base.{true, [], ◌∷◌, arith}
use baltica.Stream.Sample.{sample}
use baltica.Ordering.Preservation.{Ends}
use baltica.Server.{Endpoint, Server, handle_message}
use baltica.Server.Connections.{handle_message-ServerIsSound}
use baltica.Server.Soundness.{ServerIsSound}

abbrev small_server : Server
small_server = record {
  options = record { guid = 9; message = []; mtu = 1028; max_connections = 1 };
  connections = [];
  sent = [];
  events = [];
}

abbrev visitor : Endpoint
visitor = record { address = 49 ∷ 46 ∷ 49 ∷ []; port = 5; is_ipv4 = true }

-- A ping that is cut short.
handle_message-ServerIsSound_example :
    Ends ServerIsSound (handle_message sample 3 (1 ∷ 0 ∷ []) visitor small_server)
handle_message-ServerIsSound_example =
    handle_message-ServerIsSound sample 3 (1 ∷ 0 ∷ []) visitor small_server
      (record { bounded = omega arith; all_sound = tt })
