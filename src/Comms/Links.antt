-- ===== src/Comms/Links.antt =====
-- flight/comms_client.py: `ITransport` as an interface, and the two transports that meet it. How long
-- a `recv` waits is not modelled: it gives what the queue or the socket has at its time.
use asterion_one.Base.{
  Bool, true, false, Option, none, some, List, [], ◌∷◌, ◌++◌, String, is_some, if◌then◌else◌,
}

pub record Transport : Type 1 where
  pub State : Type 0
  pub connect : State → Bool × State
  pub disconnect : State → State
  pub send : String → State → Bool × State
  pub recv : State → Option String × State
  pub is_connected : State → Bool

pub record InProcess : Type 0 where
  pub flight_to_ground : List String
  pub ground_to_flight : List String
  pub connected : Bool

-- `queue.get` with a timeout
abbrev taken : List String → Option String × List String
taken [] = (none, [])
taken (x ∷ xs) = (some x, xs)

abbrev pub in_process_connect : InProcess → Bool × InProcess
in_process_connect s = (true, record s { connected = true })

abbrev pub in_process_send : String → InProcess → Bool × InProcess
in_process_send message s =
    if s.connected
    then (true, record s { flight_to_ground = s.flight_to_ground ++ message ∷ [] })
    else (false, s)

abbrev pub in_process_recv : InProcess → Option String × InProcess
in_process_recv s =
    let (m, rest) = taken s.ground_to_flight in
    if s.connected then (m, record s { ground_to_flight = rest }) else (none, s)

-- The ground's side.
abbrev pub ground_recv : InProcess → Option String × InProcess
ground_recv s =
    let (m, rest) = taken s.flight_to_ground in (m, record s { flight_to_ground = rest })

abbrev pub ground_send : String → InProcess → InProcess
ground_send message s = record s { ground_to_flight = s.ground_to_flight ++ message ∷ [] }

-- `InProcessTransport`
abbrev pub in_process : Transport
in_process = record {
  State = InProcess;
  connect = in_process_connect;
  disconnect = λ s. record s { connected = false };
  send = in_process_send;
  recv = in_process_recv;
  is_connected = λ s. s.connected;
}

-- What `WebSocketTransport` takes from the websockets package, over the state `Net` of the network:
-- `none` and `false` stand for an exception.
pub record Sockets : Type 1 where
  pub Net : Type 0
  pub Socket : Type 0
  pub ws_connect : Net → Option Socket × Net
  pub ws_close : Socket → Net → Net
  pub ws_send : Socket → String → Net → Bool × Net
  pub ws_recv : Socket → Net → Option String × Net

pub record WebSocket (Socket Net : Type 0) : Type 0 where
  pub ws : Option Socket
  pub net : Net

module _ (k : Sockets) where
  open k use {Net, Socket, ws_connect, ws_close, ws_send, ws_recv}

  abbrev pub web_connect : WebSocket Socket Net → Bool × WebSocket Socket Net
  web_connect s = let (ws, net) = ws_connect s.net in (is_some ws, record { ws = ws; net = net })

  abbrev closed : Option Socket → Net → Net
  closed none n = n
  closed (some ws) n = ws_close ws n

  abbrev pub web_disconnect : WebSocket Socket Net → WebSocket Socket Net
  web_disconnect s = record { ws = none; net = closed s.ws s.net }

  abbrev web_send_on : Option Socket → String → Net → Bool × WebSocket Socket Net
  web_send_on none message n = (false, record { ws = none; net = n })
  web_send_on (some ws) message n =
      let (ok, net) = ws_send ws message n in
      (ok, record { ws = if ok then some ws else none; net = net })

  abbrev web_recv_on : Option Socket → Net → Option String × WebSocket Socket Net
  web_recv_on none n = (none, record { ws = none; net = n })
  web_recv_on (some ws) n = let (m, net) = ws_recv ws n in (m, record { ws = some ws; net = net })

  -- `WebSocketTransport`
  abbrev pub web_socket : Transport
  web_socket = record {
    State = WebSocket Socket Net;
    connect = web_connect;
    disconnect = web_disconnect;
    send = λ message s. web_send_on s.ws message s.net;
    recv = λ s. web_recv_on s.ws s.net;
    is_connected = λ s. is_some s.ws;
  }
