-- ===== src/Web/Websocket/Client.antt =====
-- apps/web/src/websocket/client.ts: the state of the connection. The browser's sockets and timers are
-- events here: what a callback of theirs does to the client is a function of its own.
pub mod Laws
use ryd_trip.Prelude.{
  ℕ, suc, String, Bool, true, false, ◌||◌, Option, none, some, List, [], ◌∷◌, if◌then◌else◌,
}
use ryd_trip.Web.Websocket.Events.{Listeners, dispatch, subscribe, unsubscribe}
use ryd_trip.Web.Websocket.Reconnect.{ReconnectStrategy, get_next_delay, reset}

pub data ConnectionState : Type 0 where
  connecting connected disconnected reconnecting local : ConnectionState

pub record WebSocketClient : Type 0 where
  pub has_backend : Bool
  pub state : ConnectionState
  -- Whether `ws` holds a socket.
  pub ws : Bool
  pub strategy : ReconnectStrategy
  -- The delay of the timer that is set, if one is.
  pub reconnect_timer : Option ℕ
  pub listeners : Listeners
  -- The states that the state listeners were told, the last first.
  pub told : List ConnectionState

abbrev pub made : Bool → WebSocketClient
made has_backend = record {
  has_backend = has_backend;
  state = disconnected;
  ws = false;
  strategy = record { attempts = 0 };
  reconnect_timer = none;
  listeners = [];
  told = [];
}

unfoldable pub update_state : ConnectionState → WebSocketClient → WebSocketClient
update_state state c = record c { state = state; told = state ∷ c.told }

-- A timer that is set is cleared first.
unfoldable pub retry : (ℕ → ℕ) → WebSocketClient → WebSocketClient
unfolding update_state
retry jittered c =
    let (delay, strategy) = get_next_delay jittered c.strategy in
    let c' = update_state reconnecting c in
    record c' { strategy = strategy; reconnect_timer = some delay }

unfoldable pub dropped_in : ConnectionState → (ℕ → ℕ) → WebSocketClient → WebSocketClient
unfolding retry
dropped_in disconnected jittered c = c
dropped_in _ jittered c = retry jittered c

unfoldable pub handle_disconnect : (ℕ → ℕ) → WebSocketClient → WebSocketClient
unfolding dropped_in
handle_disconnect jittered c = dropped_in c.state jittered c

-- The constructor of the socket may throw; `ws` is then what it was.
unfoldable pub open_socket : Bool → (ℕ → ℕ) → WebSocketClient → WebSocketClient
unfolding handle_disconnect
open_socket true jittered c = record c { ws = true }
open_socket false jittered c = handle_disconnect jittered c

unfoldable pub try_connect : Bool → (ℕ → ℕ) → WebSocketClient → WebSocketClient
unfolding update_state open_socket
try_connect opens jittered c =
    if c.has_backend
    then open_socket opens jittered (update_state connecting c)
    else update_state local c

unfoldable pub connect_in : ConnectionState → Bool → (ℕ → ℕ) → WebSocketClient → WebSocketClient
unfolding try_connect
connect_in connected opens jittered c = c
connect_in connecting opens jittered c = c
connect_in _ opens jittered c = try_connect opens jittered c

unfoldable pub connect : Bool → (ℕ → ℕ) → WebSocketClient → WebSocketClient
unfolding connect_in
connect opens jittered c = connect_in c.state opens jittered c

unfoldable pub on_open : WebSocketClient → WebSocketClient
unfolding update_state
on_open c = let c' = update_state connected c in record c' { strategy = reset c'.strategy }

-- `onclose` and `onerror`.
unfoldable pub on_close : (ℕ → ℕ) → WebSocketClient → WebSocketClient
unfolding handle_disconnect
on_close jittered c = handle_disconnect jittered c

-- The timer fires.
unfoldable pub on_timer : Bool → (ℕ → ℕ) → WebSocketClient → WebSocketClient
unfolding connect
on_timer opens jittered c = connect opens jittered (record c { reconnect_timer = none })

unfoldable pub disconnect : WebSocketClient → WebSocketClient
unfolding update_state
disconnect c = update_state disconnected (record c { reconnect_timer = none; ws = false })

-- Where an event goes: over the socket if it is open, to the channel of the other tabs if the browser
-- has one, and to the listeners of this tab.
pub record Delivery : Type 0 where
  pub over_socket : Bool
  pub over_channel : Bool
  pub local_listeners : List ℕ

unfoldable pub send : Bool → Bool → String → WebSocketClient → Delivery
unfolding dispatch
send socket_open has_channel type_ c = record {
  over_socket = if c.ws then socket_open else false;
  over_channel = has_channel;
  local_listeners = dispatch type_ c.listeners;
}
