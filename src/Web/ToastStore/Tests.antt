-- ===== src/Web/ToastStore/Tests.antt =====
-- Toasts of one visit.
use ryd_trip.Prelude.{◌+◌, ◌≡◌, List, [], ◌∷◌, arith, refl}
use ryd_trip.Web.ToastStore.{error, info, tick}
use ryd_trip.Web.ToastStore.Laws.{Event, shown, dismissed, ticked, act_all, initial, all_gone}

abbrev visit : List Event
visit =
    shown 100 "toast_1" "Ride booked" info
    ∷ ticked 2000
    ∷ shown 2500 "toast_2" "No driver found" error
    ∷ dismissed "toast_2"
    ∷ shown 3000 "toast_3" "Saved" info
    ∷ []

all_gone_example : tick (3000 + 4000) (act_all visit initial) ≡ record { toasts = []; timers = [] }
all_gone_example = all_gone 3000 visit (omega arith, (omega arith, (omega arith, tt)))

-- A second earlier the last one is still there.
third_stays :
    (tick 6000 (act_all visit initial)).toasts
    ≡ record { id = "toast_3"; type_ = info; message = "Saved" } ∷ []
unfolding tick act_all initial
third_stays = refl
