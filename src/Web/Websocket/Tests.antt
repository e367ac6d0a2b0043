-- ===== src/Web/Websocket/Tests.antt =====
-- The connection and the dispatcher on concrete events.
use ryd_trip.Prelude.{true, false, List, [], ◌∷◌, arith}
use ryd_trip.Web.Websocket.Client.{made}
use ryd_trip.Web.Websocket.Client.Laws.{
  Jitter, Happening, connect_called, closed, timer_fired, happen_all, Kept, connection-Kept,
}

abbrev even_delay : Jitter
even_delay = record { run = λ raw. raw; low = λ raw. omega arith; high = λ raw. omega arith }

abbrev lost : List Happening
lost = connect_called true even_delay ∷ closed even_delay ∷ timer_fired false even_delay ∷ []

connection-Kept_example :
    Kept (happen_all lost (made true)).state (happen_all lost (made true)).reconnect_timer
connection-Kept_example = connection-Kept lost true
