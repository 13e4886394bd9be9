-- ===== src/Bedrock/Ending.antt =====
-- packages/baltica/src/client/client.ts: how often a client reports its end, and what it sends after.
use baltica.Base.{
  ℕ, suc, ◌+◌, ◌≤◌, ◌≡◌, refl, sym, ap, ◌∙◌, subst, inl, inr, true, false, Option, none, some, List,
  [], ◌∷◌, ◌++◌, append-nil, append_assoc, arith,
}
use baltica.Base.Tests.{if◌then◌else◌, Bool-cases, if_true, if_false}
use baltica.Base.Lists.{length, length-append}
use baltica.Base.Texts.{Text}
use baltica.Serializer.{Calls, PacketCompressor, compress}
use baltica.LoginPayload.{Decoding}
use baltica.Bedrock.{Protocol, Crypto}
use baltica.Bedrock.Client.{sending, send}
use baltica.Bedrock.ClientState.{
  Client, ClientEvent, emit_disconnect, close, on_lost, disconnect_client, finish_disconnect,
}
use baltica.Outbound.{Priority}

-- How often the end was reported.
unfoldable pub ends : List ClientEvent → ℕ
ends [] = 0
ends (ClientEvent.disconnect reason ∷ events) = suc (ends events)
ends (event ∷ events) = ends events

pub ends-append : (events more : List ClientEvent) → ends (events ++ more) ≡ ends events + ends more
unfolding ends
ends-append [] more = omega arith
ends-append (ClientEvent.disconnect reason ∷ events) more = omega (arith, ends-append events more)
ends-append (ClientEvent.spawn ∷ events) more = ends-append events more
ends-append (ClientEvent.connect ∷ events) more = ends-append events more

module _ {C D : Type 0} where
  -- One, if an end can still be reported.
  abbrev pub left : Client C D → ℕ
  left c = if c.is_disconnected then 0 else 1

  -- A client that goes on: once it is disconnected it stays so and sends nothing, and each end that it
  -- reports was left.
  pub record Follows (c c' : Client C D) : Type 0 where
    pub stays : c.is_disconnected ≡ true → c'.is_disconnected ≡ true
    pub silent : c.is_disconnected ≡ true → c'.sent ≡ c.sent
    pub told : ends c'.events + left c' ≤ ends c.events + left c

  pub Follows-same : (c : Client C D) → Follows c c
  Follows-same c = record { stays = λ e. e; silent = λ e. refl; told = omega arith }

  pub Follows-trans : (a b c : Client C D) → Follows a b → Follows b c → Follows a c
  Follows-trans a b c f g = record {
    stays = λ e. g.stays (f.stays e);
    silent = λ e. g.silent (f.stays e) ∙ f.silent e;
    told = omega (arith, f.told, g.told);
  }

  -- A client that goes on, and once it is disconnected sends so many packets.
  pub record Sends (n : ℕ) (c c' : Client C D) : Type 0 where
    pub stays : c.is_disconnected ≡ true → c'.is_disconnected ≡ true
    pub added :
        c.is_disconnected ≡ true
        → (late : List (List ℕ × Priority)) × (c'.sent ≡ c.sent ++ late) × (length late ≡ n)
    pub told : ends c'.events + left c' ≤ ends c.events + left c

  pub Follows-Sends : (c c' : Client C D) → Follows c c' → Sends 0 c c'
  Follows-Sends c c' f = record {
    stays = f.stays;
    added = λ e. ([], f.silent e ∙ sym (append-nil c.sent), refl);
    told = f.told;
  }

  pub Sends-trans :
      (n m k : ℕ) (a b c : Client C D) → n + m ≡ k → Sends n a b → Sends m b c → Sends k a c
  Sends-trans n m k a b c e f g = record {
    stays = λ e. g.stays (f.stays e);
    added = λ h. joined (f.added h) (g.added (f.stays h));
    told = omega (arith, f.told, g.told);
  }
    where
      joined :
          (x : List (List ℕ × Priority)) × (b.sent ≡ a.sent ++ x) × (length x ≡ n)
          → (y : List (List ℕ × Priority)) × (c.sent ≡ b.sent ++ y) × (length y ≡ m)
          → (z : List (List ℕ × Priority)) × (c.sent ≡ a.sent ++ z) × (length z ≡ k)
      joined (x, p, i) (y, q, j) = (
        x ++ y,
        q ∙ ap (λ sent. sent ++ y) p ∙ append_assoc a.sent x y,
        omega (arith, length-append x y, i, j, e),
      )

  pub Follows-then : {n : ℕ} (a b c : Client C D) → Follows a b → Sends n b c → Sends n a c
  Follows-then {n} a b c f g = Sends-trans 0 n n a b c (omega arith) (Follows-Sends a b f) g

  pub on_lost-Follows : (reason : Text) (c : Client C D) → Follows c (on_lost reason c)
  unfolding on_lost emit_disconnect close ends
  on_lost-Follows reason c = record {
    stays = λ e. ground arith;
    silent = λ e. ground arith;
    told = ground (arith, ends-append c.events (ClientEvent.disconnect reason ∷ []));
  }

  pub disconnect_client-Follows :
      (reason : Text) (c : Client C D) → Follows c (disconnect_client reason c)
  unfolding disconnect_client emit_disconnect ends
  disconnect_client-Follows reason c = record {
    stays = λ e. ground arith;
    silent = λ e. ground arith;
    told = ground (arith, ends-append c.events (ClientEvent.disconnect reason ∷ []));
  }

  pub close-Follows : (c : Client C D) → Follows c (close c)
  unfolding close
  close-Follows c = record {
    stays = λ e. ground arith;
    silent = λ e. ground arith;
    told = ground arith;
  }

  pub finish_disconnect-Follows : (c : Client C D) → Follows c (finish_disconnect c)
  unfolding finish_disconnect
  finish_disconnect-Follows c = record {
    stays = λ e. ground arith;
    silent = λ e. ground arith;
    told = ground arith;
  }

  -- A step that leaves the reports alone, and before the end only.
  pub Follows-open :
      (c c' : Client C D)
      → c.is_disconnected ≡ false
      → c'.is_disconnected ≡ false
      → c'.events ≡ c.events
      → Follows c c'
  Follows-open c c' k k' e = record { stays = λ h. cc; silent = λ h. cc; told = ground (arith, e) }

  -- A change of what neither the end nor the sending depends on.
  pub Follows-set :
      (c c' : Client C D)
      → c'.is_disconnected ≡ c.is_disconnected
      → c'.sent ≡ c.sent
      → ends c'.events ≡ ends c.events
      → Follows c c'
  Follows-set c c' k s e = record {
    stays = λ h. k ∙ h;
    silent = λ h. s;
    told = omega (arith, e, ap {B = ℕ} (λ b. if b then 0 else 1) k);
  }

module _ {C D : Type 0} (calls : List ℕ → Calls C D) (protocol : Protocol) (crypto : Crypto C D)
    (d : Decoding) where
  sending-Follows :
      (priority : Priority) (c : Client C D) (r : Option (List ℕ × PacketCompressor C D))
      → c.is_disconnected ≡ false
      → Follows c (sending calls protocol crypto d priority c r)
  sending-Follows priority c none k = Follows-same c
  sending-Follows priority c (some (bytes, z)) k = Follows-open c _ k k refl

  pub send-Follows :
      (packets : List (List ℕ)) (priority : Priority) (c : Client C D)
      → Follows c (send calls protocol crypto d packets priority c)
  unfolding send
  send-Follows packets priority c = elim (Bool-cases c.is_disconnected) [
    | inl k ↦ subst (Follows c) (sym (if_true _ _ _ k)) (Follows-same c)
    | inr k ↦
        subst (Follows c) (sym (if_false _ _ _ k))
          (sending-Follows priority c (compress (calls c.key) packets none c.compressor) k)
  ]

  pub set_and_send :
      (packets : List (List ℕ)) (priority : Priority) (c c' : Client C D)
      → c'.is_disconnected ≡ c.is_disconnected
      → c'.sent ≡ c.sent
      → ends c'.events ≡ ends c.events
      → Follows c (send calls protocol crypto d packets priority c')
  set_and_send packets priority c c' k s e =
      Follows-trans c c' _ (Follows-set c c' k s e) (send-Follows packets priority c')
