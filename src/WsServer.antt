-- ===== src/WsServer.antt =====
-- apps/control-plane/internal/wsserver/wsserver.go: the WebSocket server, as one client's connection
-- sees it. The client's goroutines are events, one at a time: a frame that is read (HandleWS), a
-- broadcast, a frame that is written (writeLoop), and the end of the connection.
pub mod History
use open_synapse.Prelude.{
  ℕ, ◌+◌, ◌≡◌, String, Bool, true, false, not, ◌&&◌, ◌||◌, Option, none, some, List, [], ◌∷◌, ◌++◌,
  map, ltb, if◌then◌else◌, length,
}
use text.Mathlib.Text.{◌==◌ as str_eq}

-- sendQueue
abbrev pub send_queue : ℕ
send_queue = 128

-- what a client sends: an auth, subscribe or unsubscribe message, or anything else, also invalid JSON
pub data Message : Type 0 where
  auth subscribe unsubscribe : String → Message
  other : Message

-- the frame of a broadcast
pub record Frame : Type 0 where
  pub channel : String
  pub payload : String

-- client, less its connection
pub record Client : Type 0 where
  pub send : List Frame
  pub channels : List String
  pub authed : Bool

-- A client of the server, while it is one of `clients`; what was written to its connection, and how
-- many frames were dropped for it.
pub record Session : Type 0 where
  pub client : Client
  pub is_open : Bool
  pub written : List Frame
  pub dropped : ℕ

abbrev pub has_channel : String → List String → Bool
has_channel c [] = false
has_channel c (d ∷ ds) = str_eq d c || has_channel c ds

-- delete(c.channels, channel)
unfoldable pub without : String → List String → List String
without c [] = []
without c (d ∷ ds) = let rest = without c ds in if str_eq d c then rest else d ∷ rest

-- the events of a connection
pub data Event : Type 0 where
  read : Message → Event
  broadcast : Frame → Event
  write hang_up : Event

module _ (authenticate : Option (String → Bool)) where
  -- s.Authenticate == nil || s.Authenticate(token)
  unfoldable pub accepts : String → Bool
  accepts token = elim authenticate [ none ↦ true | some f ↦ f token ]

  -- the new client of HandleWS
  unfoldable pub connect : Session
  connect = record {
    client = record {
      send = [];
      channels = [];
      authed = elim authenticate [ none ↦ true | some f ↦ false ];
    };
    is_open = true;
    written = [];
    dropped = 0;
  }

  -- the switch of HandleWS
  unfoldable pub handle : Message → Session → Session
  handle (auth token) s =
      if accepts token
      then record s { client = record s.client { authed = true } }
      else record s { is_open = false }
  handle (subscribe c) s =
      if s.client.authed
      then record s { client = record s.client { channels = c ∷ s.client.channels } }
      else s
  handle (unsubscribe c) s = record s {
    client = record s.client { channels = without c s.client.channels };
  }
  handle other s = s

  -- the body of the loop of Broadcast
  unfoldable pub offer : Frame → Session → Session
  offer f s =
      if has_channel f.channel s.client.channels
      then (if ltb (length s.client.send) send_queue
          then record s { client = record s.client { send = s.client.send ++ f ∷ [] } }
          else record s { dropped = s.dropped + 1 })
      else s

  -- the case of writeLoop that sends a frame
  unfoldable pub write_frame : Session → Session
  write_frame s = elim s.client.send [
    | [] ↦ s
    | f ∷ fs ↦ record s { client = record s.client { send = fs }; written = s.written ++ f ∷ [] }
  ]

  -- an event of an open connection; a closed one is no client any more
  unfoldable pub open_step : Event → Session → Session
  open_step (read m) s = handle m s
  open_step (broadcast f) s = offer f s
  open_step write s = write_frame s
  open_step hang_up s = record s { is_open = false }

  unfoldable pub step : Event → Session → Session
  step e s = if s.is_open then open_step e s else s

  -- the connection after some events, the last one first
  unfoldable pub session : List Event → Session
  session [] = connect
  session (e ∷ past) = step e (session past)

-- Broadcast to all clients
unfoldable pub broadcast_all : Option (String → Bool) → Frame → List Session → List Session
broadcast_all authenticate f ss = map (step authenticate (broadcast f)) ss
