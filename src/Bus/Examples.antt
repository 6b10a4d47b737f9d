-- ===== src/Bus/Examples.antt =====
-- A bus that works.
use wei.Base.{◌≡◌, ◌⊎◌, refl, true, false, [], ◌∷◌}
use wei.Rbus.{success, is_success}
use wei.Bus.{Bus, Env, closed, bus_open, bus_close, bus_handle}
use wei.Bus.Calls.{Call, opening, closing, run, closed-IsBus, bus_open_outcome, run-bus_close}

abbrev pub works : Env
works = record { desc_ready = true; reg_ready = true; open_rc = success; reg_rc = success }

bus_open_outcome_example :
    let (bus', rc) = bus_open works closed in
    ((rc ≡ success) × (bus_handle bus' ≡ true) × (bus'.handles ≡ 1))
    ⊎ ((is_success rc ≡ false) × (bus_handle bus' ≡ false) × (bus'.handles ≡ 0))
bus_open_outcome_example = bus_open_outcome works closed closed-IsBus

run-bus_close_example :
    let bus = run (bus_close true (run closed (opening works ∷ []))) (opening works ∷ []) in
    bus.elements ≡ []
unfolding run wei.Bus.Calls.step bus_open wei.Dml.register
run-bus_close_example = run-bus_close (opening works ∷ []) (opening works ∷ []) refl
