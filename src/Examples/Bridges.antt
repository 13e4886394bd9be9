-- ===== src/Examples/Bridges.antt =====
-- Packets that packages/baltica/src/bridge passes on.
use baltica.Base.{ℕ, ◌+◌, ◌≡◌, ◌≢◌, refl, true, none, some, List, [], ◌∷◌, ◌++◌, arith}
use baltica.Bridge.{PacketClass, Context, player, sent, Listener, read_packet, route_packet}
use baltica.Base.Sets.{has, add}
use baltica.Base.Maps.{lookup, insert, erase}
use baltica.Bridge.Players.{
  Player, bridge_left, player_left, Signal, connects, shakes, connection_ends, side_ends, new_hub,
  on_connect, on_disconnect, disconnect, on_signal, on_signals,
}
use baltica.Bridge.Lifetimes.{ended_stays_out}
use baltica.Bridge.Eviction.{late_end_evicts}
use baltica.Bridge.Routing.{IsUntouched, IsWatcher, route_packet_passes}

abbrev numbers : PacketClass (List ℕ)
numbers = record { deserialize = λ bytes. some bytes; serialize = λ packet. some (9 ∷ packet) }

-- A listener that reads the packet.
abbrev watch : Listener (List ℕ)
watch ctx = some (read_packet numbers (1 ∷ 2 ∷ []) ctx)

read_packet-IsUntouched :
    (ctx : Context (List ℕ)) → IsUntouched ctx → IsUntouched (read_packet numbers (1 ∷ 2 ∷ []) ctx)
unfolding read_packet
read_packet-IsUntouched ctx (k, m) = (ground arith, ground arith)

watch-IsWatcher : IsWatcher watch
watch-IsWatcher ctx u = (read_packet numbers (1 ∷ 2 ∷ []) ctx, refl, read_packet-IsUntouched ctx u)

route_packet_passes_example :
    route_packet (some numbers) (1 ∷ 2 ∷ []) true (watch ∷ []) [] (watch ∷ [])
    ≡ sent player (1 ∷ 2 ∷ [])
route_packet_passes_example =
    route_packet_passes (some numbers) (1 ∷ 2 ∷ []) true (watch ∷ []) [] (watch ∷ [])
      (watch-IsWatcher, tt) tt (watch-IsWatcher, tt)

-- The second player of the address 7.
abbrev returning : Player
returning = record { number = 2; key = 7 }

abbrev before : List Signal
before = connects 7 ∷ connects 8 ∷ []

-- The one of the address 8 is there at the end.
abbrev other : Player
other = record { number = 1; key = 8 }

ended_stays_out_example : 1 ≢ (on_signals before new_hub).next_player
ended_stays_out_example =
    ended_stays_out before (shakes returning ∷ connects 7 ∷ []) (side_ends returning ∷ []) 7 8 other
      (unfold on_signals on_connect on_disconnect disconnect has add lookup insert erase in refl)

late_end_evicts_example :
    let p : Player = record { number = 0; key = 7 } in
    let q : Player = record { number = 0 + 1; key = 7 } in
    let t = on_signals (connects 7 ∷ shakes p ∷ connection_ends p ∷ connects 7 ∷ []) new_hub in
    let u = on_signal (side_ends p) t in
    (lookup 7 t.players ≡ some q)
    × (lookup 7 t.clients ≡ some q)
    × (lookup 7 u.players ≡ none)
    × (lookup 7 u.clients ≡ none)
    × (u.events ≡ t.events ++ bridge_left p ∷ player_left p ∷ [])
late_end_evicts_example = late_end_evicts 7 new_hub
