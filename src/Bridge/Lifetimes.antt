-- ===== src/Bridge/Lifetimes.antt =====
-- The tables of packages/baltica/src/server/server.ts and packages/baltica/src/bridge/bridge.ts over the
-- lives of their players.
use baltica.Base.{
  ℕ, ◌+◌, ◌<◌, ◌≡◌, ◌≢◌, ◌⊎◌, Option, inl, inr, ◌∙◌, ap, subst, sym, refl, none, some, List, [],
  ◌∷◌, ◌++◌, arith,
}
use baltica.Base.Tests.{◌==◌, if_cases, option_cases, Bool-cases, ==→eq, some_injective}
use baltica.Base.Sets.{has}
use baltica.Base.Maps.{lookup, insert, lookup-insert, lookup-erase}
use baltica.Bridge.Players.{
  Player, Hub, Signal, connects, shakes, connection_ends, side_ends, kick, on_connect,
  on_disconnect, disconnect, on_signal, on_signals, new_hub,
}

-- The players in the table have been made.
abbrev Counts : Hub → Type 0
Counts h = (k : ℕ) (q : Player) → lookup k h.players ≡ some q → q.number < h.next_player

-- The signals but a new connection make no player, and take entries away at most.
pub record Shrinks (h t : Hub) : Type 0 where
  pub same_next : t.next_player ≡ h.next_player
  pub from : (k : ℕ) (q : Player) → lookup k t.players ≡ some q → lookup k h.players ≡ some q

Shrinks-refl : (h : Hub) → Shrinks h h
Shrinks-refl h = record { same_next = refl; from = λ k q e. e }

Shrinks-trans : (h t u : Hub) → Shrinks h t → Shrinks t u → Shrinks h u
Shrinks-trans h t u a b = record {
  same_next = b.same_next ∙ a.same_next;
  from = λ k q e. a.from k q (b.from k q e);
}

on_disconnect-Shrinks : (p : Player) (h : Hub) → Shrinks h (on_disconnect p h)
unfolding on_disconnect
on_disconnect-Shrinks p h = record {
  same_next = refl;
  from = λ k q e. ground (arith, lookup-erase p.key k h.players);
}

disconnect-Shrinks : (p : Player) (h : Hub) → Shrinks h (disconnect p h)
unfolding disconnect on_disconnect
disconnect-Shrinks p h = record {
  same_next = refl;
  from = λ k q e. ground (arith, lookup-erase p.key k h.players);
}

pub kick-cases :
    (key : ℕ) (h : Hub)
    → (P : Hub → Type 0) → P h
    → ((ps : List Player) → P (record h { kicked = ps }))
    → P (kick key h)
kick-cases key h P old new =
    option_cases P (lookup key h.players) _ _ old (λ p e. new (h.kicked ++ p ∷ []))

-- The table after a new connection.
pub on_connect_lem :
    (key : ℕ) (h : Hub)
    → ((on_connect key h).next_player ≡ h.next_player + 1)
      × ((on_connect key h).players
          ≡ insert key (record { number = h.next_player; key = key }) h.players)
unfolding on_connect
on_connect_lem key h =
    kick-cases key h
      (λ x.
        (x.next_player + 1 ≡ h.next_player + 1)
        × (insert key (record { number = h.next_player; key = key }) x.players
            ≡ insert key (record { number = h.next_player; key = key }) h.players))
      (refl, refl) (λ ps. (refl, refl))

abbrev pub new_player : ℕ → Hub → Player
new_player key h = record { number = h.next_player; key = key }

-- An entry after a new connection is the new player's, or was there.
connect_entry :
    (key k : ℕ) (q : Player) (h : Hub)
    → lookup k (on_connect key h).players ≡ some q
    → ((key ≡ k) × (new_player key h ≡ q)) ⊎ (lookup k h.players ≡ some q)
connect_entry key k q h e =
    let found =
      sym (lookup-insert key k (new_player key h) h.players)
      ∙ ap (lookup k) (sym (on_connect_lem key h).1)
      ∙ e in
    elim (Bool-cases (key == k)) [
      | inl b ↦ inl (==→eq key k b, some_injective (rw b at found))
      | inr b ↦ inr (rw b at found)
    ]

signal_cases :
    (P : Hub → Type 0) (h : Hub) (signal : Signal)
    → ((key : ℕ) → P (on_connect key h))
    → ((t : Hub) → Shrinks h t → P t)
    → P (on_signal signal h)
signal_cases P h (connects key) new less = new key
signal_cases P h (shakes p) new less = less _ (record { same_next = refl; from = λ k q e. e })
signal_cases P h (connection_ends p) new less =
    let left = on_disconnect p h in
    if_cases P (has p.number left.shaken)
      (less (disconnect p left) (
        Shrinks-trans h left (disconnect p left) (on_disconnect-Shrinks p h)
          (disconnect-Shrinks p left)))
      (less left (on_disconnect-Shrinks p h))
signal_cases P h (side_ends p) new less =
    if_cases P (has p.number h.shaken) (less _ (disconnect-Shrinks p h)) (less _ (Shrinks-refl h))

signals_cases :
    (P : Hub → Type 0) (signals : List Signal) (h : Hub)
    → ((key : ℕ) (g : Hub) → P g → P (on_connect key g))
    → ((g t : Hub) → Shrinks g t → P g → P t)
    → P h
    → P (on_signals signals h)
unfolding on_signals
signals_cases P [] h new less p = p
signals_cases P (signal ∷ signals) h new less p =
    signals_cases P signals (on_signal signal h) new less
      (signal_cases P h signal (λ key. new key h p) (λ t s. less h t s p))

on_signals-Counts : (signals : List Signal) (h : Hub) → Counts h → Counts (on_signals signals h)
on_signals-Counts signals h =
    signals_cases Counts signals h
      (λ key g c k q e. elim (connect_entry key k q g e) [
        | inl (same, is_new) ↦ omega (arith, ap (λ p. p.number) is_new, (on_connect_lem key g).0)
        | inr old ↦ omega (arith, c k q old, (on_connect_lem key g).0)
      ])
      (λ g t s c k q e. omega (arith, c k q (s.from k q e), s.same_next))

module _ (n : ℕ) (Q : ℕ → Player → Type 0)
    (later : (key m : ℕ) → n < m → Q key (record { number = m; key = key })) where
  -- A player with the number `n` has been made, and every entry is of `Q`.
  record Entries (h : Hub) : Type 0 where
    made : n < h.next_player
    each : (k : ℕ) (q : Player) → lookup k h.players ≡ some q → Q k q

  on_signals-Entries :
      (signals : List Signal) (h : Hub) → Entries h → Entries (on_signals signals h)
  on_signals-Entries signals h =
      signals_cases Entries signals h
        (λ key g v. record {
          made = omega (arith, v.made, (on_connect_lem key g).0);
          each = λ k q e. elim (connect_entry key k q g e) [
            | inl (same, is_new) ↦
                subst (λ j. Q j q) same (subst (Q key) is_new (later key g.next_player v.made))
            | inr old ↦ v.each k q old
          ];
        })
        (λ g t s v. record {
          made = omega (arith, v.made, s.same_next);
          each = λ k q e. v.each k q (s.from k q e);
        })

on_disconnect_erases : (p : Player) (h : Hub) → lookup p.key (on_disconnect p h).players ≡ none
unfolding on_disconnect
on_disconnect_erases p h = ground (arith, lookup-erase p.key p.key h.players)

disconnect_erases : (p : Player) (h : Hub) → lookup p.key (disconnect p h).players ≡ none
unfolding disconnect on_disconnect
disconnect_erases p h = ground (arith, lookup-erase p.key p.key h.players)

-- When a connection ends, its player's entry goes, and no other comes.
pub connection_ends_lem :
    (p : Player) (h : Hub)
    → let t = on_signal (connection_ends p) h in Shrinks h t × (lookup p.key t.players ≡ none)
connection_ends_lem p h =
    let left = on_disconnect p h in
    let less = on_disconnect-Shrinks p h in
    if_cases (λ t. Shrinks h t × (lookup p.key t.players ≡ none)) (has p.number left.shaken)
      (
        Shrinks-trans h left (disconnect p left) less (disconnect-Shrinks p left),
        disconnect_erases p left,
      )
      (less, on_disconnect_erases p h)

-- An entry of the player `p` is under its own key.
abbrev Placed : Player → ℕ → Player → Type 0
Placed p k q = q.number ≡ p.number → k ≡ p.key

abbrev Gone : Player → ℕ → Player → Type 0
Gone p k q = q.number ≢ p.number

made-Placed :
    (p : Player) (key m : ℕ) → p.number < m → Placed p key (record { number = m; key = key })
made-Placed p key m h e = absurd (omega arith)

made-Gone : (p : Player) (key m : ℕ) → p.number < m → Gone p key (record { number = m; key = key })
made-Gone p key m h e = omega arith

connect-Placed :
    (key : ℕ) (h : Hub)
    → Counts h
    → let p = new_player key h in Entries p.number (Placed p) (made-Placed p) (on_connect key h)
connect-Placed key h c = record {
  made = omega (arith, (on_connect_lem key h).0);
  each = λ k q e same. elim (connect_entry key k q h e) [
    | inl (own, is_new) ↦ sym own
    | inr old ↦ absurd (omega (arith, c k q old, same))
  ];
}

end-Gone :
    (p : Player) (h : Hub)
    → Entries p.number (Placed p) (made-Placed p) h
    → Entries p.number (Gone p) (made-Gone p) (on_signal (connection_ends p) h)
end-Gone p h v =
    let (less, none_left) = connection_ends_lem p h in
    record {
      made = omega (arith, v.made, less.same_next);
      each = λ k q e same.
          let here = v.each k q (less.from k q e) same in
          no_value (subst (λ j. lookup j (on_signal (connection_ends p) h).players ≡ some q) here e)
            none_left;
    }
  where
    no_value : {m : Option Player} {q : Player} → m ≡ some q → m ≡ none → ⊥
    no_value e f = cc

empty_hub : (k : ℕ) (q : Player) → lookup k new_hub.players ≡ some q → ⊥
unfolding lookup
empty_hub k q e = cc

-- A player is made by a new connection, and later its connection ends: from then on no entry of the
-- server's table of players, under any identifier, is that player, whatever signals come before,
-- between and after.
pub ended_stays_out :
    (before between after : List Signal) (key k : ℕ) (q : Player)
    → (let h = on_signals before new_hub in
        let p : Player = record { number = h.next_player; key = key } in
        let t = on_signals between (on_connect key h) in
        let u = on_signals after (on_signal (connection_ends p) t) in lookup k u.players ≡ some q)
    → q.number ≢ (on_signals before new_hub).next_player
ended_stays_out before between after key k q e =
    let h = on_signals before new_hub in
    let p = new_player key h in
    let counts = on_signals-Counts before new_hub (λ k q e. absurd (empty_hub k q e)) in
    let t = on_signals between (on_connect key h) in
    let placed =
      on_signals-Entries p.number (Placed p) (made-Placed p) between (on_connect key h)
        (connect-Placed key h counts) in
    let out =
      on_signals-Entries p.number (Gone p) (made-Gone p) after (on_signal (connection_ends p) t)
        (end-Gone p t placed) in
    out.each k q e
