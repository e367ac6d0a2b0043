-- ===== src/Web/Websocket/Client/Laws.antt =====
-- What holds of the connection whatever the browser and the pages do.
use ryd_trip.Prelude.{
  ℕ, zero, suc, ◌+◌, ◌-◌, ◌*◌, ◌^◌, ◌≤◌, ◌<◌, ◌≡◌, refl, Bool, true, false, Option, none, some,
  List, [], ◌∷◌, arith, if◌then◌else◌,
}
use ryd_trip.Web.Websocket.Reconnect.{
  raw_delay, initial_delay_ms, max_delay_ms, factor, get_next_delay,
}
use ryd_trip.Web.Websocket.Client.{
  ConnectionState, connecting, connected, disconnected, reconnecting, local, WebSocketClient, made,
  update_state, retry, dropped_in, handle_disconnect, open_socket, try_connect, connect_in, connect,
  on_open, on_close, on_timer, disconnect,
}

pow_positive : (n : ℕ) → 1 ≤ 2 ^ n
pow_positive zero = omega arith
pow_positive (suc n) = omega (arith, pow_positive n)

raw_delay_bounds : (n : ℕ) → (1000 ≤ raw_delay (suc n)) × (raw_delay (suc n) ≤ 15000)
unfolding raw_delay initial_delay_ms max_delay_ms factor
raw_delay_bounds n = (omega (arith, pow_positive (suc n - 1)), omega arith)

-- A jitter of at most a fifth, rounded down.
pub record Jitter : Type 0 where
  pub run : ℕ → ℕ
  pub low : (raw : ℕ) → 4 * raw < 5 * run raw + 5
  pub high : (raw : ℕ) → 5 * run raw ≤ 6 * raw

-- What can happen to a client.
pub data Happening : Type 0 where
  connect_called timer_fired : Bool → Jitter → Happening
  opened disconnect_called : Happening
  closed : Jitter → Happening

unfoldable pub happen : Happening → WebSocketClient → WebSocketClient
happen (connect_called opens j) c = connect opens j.run c
happen (timer_fired opens j) c = on_timer opens j.run c
happen opened c = on_open c
happen disconnect_called c = disconnect c
happen (closed j) c = on_close j.run c

unfoldable pub happen_all : List Happening → WebSocketClient → WebSocketClient
happen_all [] c = c
happen_all (h ∷ hs) c = happen_all hs (happen h c)

-- Between 0.8 and 18 seconds.
abbrev Timed : Option ℕ → Type 0
Timed o = (d : ℕ) × (o ≡ some d) × (800 ≤ d) × (d ≤ 18000)

abbrev pub Kept : ConnectionState → Option ℕ → Type 0
Kept reconnecting timer = Timed timer
Kept disconnected timer = timer ≡ none
Kept connecting timer = Unit {0}
Kept connected timer = Unit {0}
Kept local timer = Unit {0}

abbrev IsKept : WebSocketClient → Type 0
IsKept c = Kept c.state c.reconnect_timer

retry-IsKept : (j : Jitter) (c : WebSocketClient) → IsKept (retry j.run c)
unfolding retry get_next_delay update_state
retry-IsKept j c =
    let raw = raw_delay (suc c.strategy.attempts) in
    let (least, most) = raw_delay_bounds c.strategy.attempts in
    (j.run raw, refl, omega (arith, least, j.low raw), omega (arith, most, j.high raw))

dropped_in-IsKept :
    (state : ConnectionState) (j : Jitter) (c : WebSocketClient)
    → Kept state c.reconnect_timer
    → c.state ≡ state
    → IsKept (dropped_in state j.run c)
unfolding dropped_in
dropped_in-IsKept disconnected j c h e = rw e h
dropped_in-IsKept connecting j c h e = retry-IsKept j c
dropped_in-IsKept connected j c h e = retry-IsKept j c
dropped_in-IsKept reconnecting j c h e = retry-IsKept j c
dropped_in-IsKept local j c h e = retry-IsKept j c

if-IsKept : (b : Bool) (c d : WebSocketClient) → IsKept c → IsKept d → IsKept (if b then c else d)
if-IsKept true c d hc hd = hc
if-IsKept false c d hc hd = hd

open_socket-IsKept :
    (opens : Bool) (j : Jitter) (c : WebSocketClient)
    → IsKept (open_socket opens j.run (update_state connecting c))
unfolding open_socket handle_disconnect dropped_in update_state
open_socket-IsKept true j c = tt
open_socket-IsKept false j c = retry-IsKept j (update_state connecting c)

try_connect-IsKept :
    (opens : Bool) (j : Jitter) (c : WebSocketClient) → IsKept (try_connect opens j.run c)
unfolding try_connect update_state
try_connect-IsKept opens j c =
    if-IsKept c.has_backend (open_socket opens j.run (update_state connecting c))
      (update_state local c) (open_socket-IsKept opens j c) tt

connect_in-IsKept :
    (state : ConnectionState) (opens : Bool) (j : Jitter) (c : WebSocketClient)
    → c.state ≡ state
    → IsKept (connect_in state opens j.run c)
unfolding connect_in
connect_in-IsKept connected opens j c e = rw e tt
connect_in-IsKept connecting opens j c e = rw e tt
connect_in-IsKept disconnected opens j c e = try_connect-IsKept opens j c
connect_in-IsKept reconnecting opens j c e = try_connect-IsKept opens j c
connect_in-IsKept local opens j c e = try_connect-IsKept opens j c

happen-IsKept : (h : Happening) (c : WebSocketClient) → IsKept c → IsKept (happen h c)
unfolding happen connect on_timer on_open disconnect on_close handle_disconnect update_state
happen-IsKept (connect_called opens j) c k = connect_in-IsKept c.state opens j c refl
happen-IsKept (timer_fired opens j) c k =
    connect_in-IsKept c.state opens j (record c { reconnect_timer = none }) refl
happen-IsKept opened c k = tt
happen-IsKept disconnect_called c k = refl
happen-IsKept (closed j) c k = dropped_in-IsKept c.state j c k refl

happen_all-IsKept :
    (hs : List Happening) (c : WebSocketClient) → IsKept c → IsKept (happen_all hs c)
unfolding happen_all
happen_all-IsKept [] c k = k
happen_all-IsKept (h ∷ hs) c k = happen_all-IsKept hs (happen h c) (happen-IsKept h c k)

-- Whatever happens to a client from its making, in any order: while it is RECONNECTING a timer for
-- the next attempt is set, for a delay of 0.8 to 18 seconds, and while it is DISCONNECTED none is.
pub connection-Kept :
    (hs : List Happening) (has_backend : Bool)
    → Kept
        (happen_all hs (made has_backend)).state
        (happen_all hs (made has_backend)).reconnect_timer
connection-Kept hs has_backend = happen_all-IsKept hs (made has_backend) refl
