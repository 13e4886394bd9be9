-- ===== src/Bedrock/Once.antt =====
-- packages/baltica/src/client/client.ts: runs of a client, with every way to its end.
--
-- What is sent is what `sendReliable` of RakNet is given; the packet by which RakNet itself says
-- goodbye, when the timer of `disconnect` asks for it, is counted apart.
use baltica.Base.{ℕ, suc, List, [], ◌∷◌}
use baltica.Base.Texts.{Text}
use baltica.Serializer.{Calls}
use baltica.LoginPayload.{Decoding}
use baltica.Bedrock.{Protocol, Crypto}
use baltica.Bedrock.Client.{send, send_uncompressed, request_settings, on_encapsulated}
use baltica.Bedrock.ClientState.{Client, close, on_lost, disconnect_client, finish_disconnect}
use baltica.Outbound.{Priority}

pub data Step : Type 0 where
  -- RakNet reports its end.
  lost : Text → Step
  received : List ℕ → Step
  -- Calls by the application.
  sends : List (List ℕ) → Priority → Step
  sends_uncompressed : List ℕ → Priority → Step
  disconnects : Text → Step
  closes : Step
  -- `connect` goes on once RakNet has connected.
  requests_settings : Step
  -- The timer of `disconnect`.
  timer : Step

-- How many of the steps hand RakNet a packet whether or not the client is disconnected:
-- `sendUncompressed` has no test, nor has `requestNetworkSettings`, which calls it.
unfoldable pub unguarded : List Step → ℕ
unguarded [] = 0
unguarded (sends_uncompressed bytes priority ∷ steps) = suc (unguarded steps)
unguarded (requests_settings ∷ steps) = suc (unguarded steps)
unguarded (lost reason ∷ steps) = unguarded steps
unguarded (received buffer ∷ steps) = unguarded steps
unguarded (sends packets priority ∷ steps) = unguarded steps
unguarded (disconnects reason ∷ steps) = unguarded steps
unguarded (closes ∷ steps) = unguarded steps
unguarded (timer ∷ steps) = unguarded steps

module _ {C D : Type 0} (calls : List ℕ → Calls C D) (protocol : Protocol) (crypto : Crypto C D)
    (d : Decoding) where
  unfoldable pub step : Step → Client C D → Client C D
  step (lost reason) c = on_lost reason c
  step (received buffer) c = on_encapsulated calls protocol crypto d buffer c
  step (sends packets priority) c = send calls protocol crypto d packets priority c
  step (disconnects reason) c = disconnect_client reason c
  step (sends_uncompressed bytes priority) c =
      send_uncompressed calls protocol crypto d bytes priority c
  step requests_settings c = request_settings calls protocol crypto d c
  step closes c = close c
  step timer c = finish_disconnect c

  unfoldable pub run : List Step → Client C D → Client C D
  run [] c = c
  run (s ∷ steps) c = run steps (step s c)
