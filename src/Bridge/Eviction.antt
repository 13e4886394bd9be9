-- ===== src/Bridge/Eviction.antt =====
-- A new connection from the address of an old player whose client has not ended: the tables of
-- packages/baltica/src/server/server.ts and packages/baltica/src/bridge/bridge.ts.
use baltica.Base.{ℕ, ◌+◌, ◌≡◌, ◌∙◌, ap, true, none, some, refl, [], ◌∷◌, ◌++◌, append_assoc, arith}
use baltica.Base.Tests.{if_cases, if_true_case}
use baltica.Base.Sets.{has, has-add}
use baltica.Base.Maps.{Map, lookup, insert, lookup-insert, lookup-erase}
use baltica.Bridge.Players.{
  Player, Hub, bridge_left, player_left, connects, shakes, connection_ends, side_ends, on_connect,
  on_disconnect, disconnect, on_signal, on_signals,
}
use baltica.Bridge.Lifetimes.{kick-cases, new_player, on_connect_lem, connection_ends_lem}

connection_ends_shaken :
    (p : Player) (h : Hub) → (on_signal (connection_ends p) h).shaken ≡ h.shaken
unfolding on_disconnect disconnect
connection_ends_shaken p h =
    if_cases {A = Hub} (λ t. t.shaken ≡ h.shaken) (has p.number (on_disconnect p h).shaken) refl
      refl

-- What a new connection makes of the rest.
on_connect_rest :
    (key : ℕ) (h : Hub)
    → ((on_connect key h).shaken ≡ h.shaken)
      × (lookup key (on_connect key h).players ≡ some (new_player key h))
      × (lookup key (on_connect key h).clients ≡ some (new_player key h))
unfolding on_connect
on_connect_rest key h =
    kick-cases key h
      (λ x.
        (x.shaken ≡ h.shaken)
        × (lookup key (insert key (new_player key h) x.players) ≡ some (new_player key h))
        × (lookup key (insert key (new_player key h) x.clients) ≡ some (new_player key h)))
      (refl, found h.players, found h.clients) (λ ps. (refl, found h.players, found h.clients))
  where
    found :
        (m : Map Player) → lookup key (insert key (new_player key h) m) ≡ some (new_player key h)
    found m = ground (arith, lookup-insert key key (new_player key h) m)

disconnect_lem :
    (p : Player) (h : Hub)
    → let t = disconnect p h in
      (lookup p.key t.players ≡ none)
      × (lookup p.key t.clients ≡ none)
      × (t.events ≡ h.events ++ bridge_left p ∷ player_left p ∷ [])
unfolding disconnect on_disconnect
disconnect_lem p h = (
  ground (arith, lookup-erase p.key p.key h.players),
  ground (arith, lookup-erase p.key p.key h.clients),
  append_assoc h.events (bridge_left p ∷ []) (player_left p ∷ []),
)

-- What the end of one of its sides does to a player that has shaken hands.
side_ends_lem :
    (p : Player) (h : Hub)
    → has p.number h.shaken ≡ true
    → let t = on_signal (side_ends p) h in
      (lookup p.key t.players ≡ none)
      × (lookup p.key t.clients ≡ none)
      × (t.events ≡ h.events ++ bridge_left p ∷ player_left p ∷ [])
side_ends_lem p h e =
    if_true_case
      (λ t.
        (lookup p.key t.players ≡ none)
        × (lookup p.key t.clients ≡ none)
        × (t.events ≡ h.events ++ bridge_left p ∷ player_left p ∷ []))
      (has p.number h.shaken) (disconnect p h) h e (disconnect_lem p h)

-- A player shakes hands and its connection ends; its client on the other side stays. A new connection
-- comes from the same address, and then the old client ends: this takes the new player, which is in
-- both tables, out of both, and the end of the old one is reported again.
pub late_end_evicts :
    (key : ℕ) (h : Hub)
    → let p : Player = record { number = h.next_player; key = key } in
      let q : Player = record { number = h.next_player + 1; key = key } in
      let t = on_signals (connects key ∷ shakes p ∷ connection_ends p ∷ connects key ∷ []) h in
      let u = on_signal (side_ends p) t in
      (lookup key t.players ≡ some q)
      × (lookup key t.clients ≡ some q)
      × (lookup key u.players ≡ none)
      × (lookup key u.clients ≡ none)
      × (u.events ≡ t.events ++ bridge_left p ∷ player_left p ∷ [])
unfolding on_signals
late_end_evicts key h =
    let p = new_player key h in
    let joined = on_connect key h in
    let shaken = on_signal (shakes p) joined in
    let ended = on_signal (connection_ends p) shaken in
    let (same, in_players, in_clients) = on_connect_rest key ended in
    let next : ended.next_player ≡ h.next_player + 1 =
      (connection_ends_lem p shaken).0.same_next ∙ (on_connect_lem key h).0 in
    let new : new_player key ended ≡ record { number = h.next_player + 1; key = key } =
      ap (λ n. record { number = n; key = key }) next in
    let listens : has p.number (on_connect key ended).shaken ≡ true =
      ap (has p.number) (same ∙ connection_ends_shaken p shaken)
      ∙ has-add p.number p.number joined.shaken
      ∙ ground arith in
    let (no_player, no_client, told) = side_ends_lem p (on_connect key ended) listens in
    (in_players ∙ ap some new, in_clients ∙ ap some new, no_player, no_client, told)
