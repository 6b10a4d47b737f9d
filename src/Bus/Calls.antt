-- ===== src/Bus/Calls.antt =====
-- Sequences of opens and closes of source/weid_bus.c.
use wei.Base.{◌≡◌, refl, ◌⊎◌, inl, true, false, List, [], ◌∷◌, arith, if◌then◌else◌}
use wei.Rbus.{success, is_success}
use wei.Dml.{register, data_elements}
use wei.Bus.{Bus, Env, closed, bus_open, bus_close, bus_handle}

pub data Call : Type 0 where
  opening : Env → Call
  closing : Call

-- A close finds its function, since the bus fills its descriptor once.
unfoldable pub step : Bus → Call → Bus
step bus (opening env) = (bus_open env bus).0
step bus closing = bus_close true bus

unfoldable pub run : Bus → List Call → Bus
run bus [] = bus
run bus (c ∷ cs) = run (step bus c) cs

-- There is one open handle when the unit says so, and none otherwise; an open handle goes with a
-- registration that was made, and no handle holds elements that were not.
pub record IsBus (bus : Bus) : Type 0 where
  pub balanced : bus.handles ≡ (if bus.opened then 1 else 0)
  pub registered : bus.opened ≡ true → bus.dml.registered ≡ true
  pub held :
      (bus.elements ≡ [])
      ⊎ ((bus.elements ≡ data_elements) × (bus.opened ≡ true) × (bus.dml.registered ≡ true))

pub bus_open-IsBus : (env : Env) (bus : Bus) → IsBus bus → IsBus (bus_open env bus).0
unfolding bus_open register
bus_open-IsBus env bus w = record {
  balanced = ground arith;
  registered = ground arith;
  held = ground arith;
}

pub bus_close-IsBus : (bus : Bus) → IsBus bus → IsBus (bus_close true bus)
unfolding bus_close
bus_close-IsBus bus w = record {
  balanced = ground arith;
  registered = ground arith;
  held = ground arith;
}

step-IsBus : (bus : Bus) (c : Call) → IsBus bus → IsBus (step bus c)
unfolding step
step-IsBus bus (opening env) w = bus_open-IsBus env bus w
step-IsBus bus closing w = bus_close-IsBus bus w

pub run-IsBus : (bus : Bus) (cs : List Call) → IsBus bus → IsBus (run bus cs)
unfolding run
run-IsBus bus [] w = w
run-IsBus bus (c ∷ cs) w = run-IsBus (step bus c) cs (step-IsBus bus c w)

pub closed-IsBus : IsBus closed
closed-IsBus = record { balanced = refl; registered = λ on. absurd (ground arith); held = inl refl }

-- After an open from a well-formed bus, either the call succeeded, a handle is presented and one
-- handle is open, or it failed, none is presented and none is open.
pub bus_open_outcome :
    (env : Env) (bus : Bus)
    → IsBus bus
    → let (bus', rc) = bus_open env bus in
      ((rc ≡ success) × (bus_handle bus' ≡ true) × (bus'.handles ≡ 1))
      ⊎ ((is_success rc ≡ false) × (bus_handle bus' ≡ false) × (bus'.handles ≡ 0))
unfolding bus_open register
bus_open_outcome env bus w = let balanced = w.balanced in ground arith

-- The elements are gone with the handle that they were registered on.
pub record IsBare (bus : Bus) : Type 0 where
  pub registered : bus.dml.registered ≡ true
  pub bare : bus.elements ≡ []

step-IsBare : (bus : Bus) (c : Call) → IsBare bus → IsBare (step bus c)
unfolding step bus_open bus_close register
step-IsBare bus (opening env) w = record { registered = ground arith; bare = ground arith }
step-IsBare bus closing w = record { registered = ground arith; bare = ground arith }

pub run-IsBare : (bus : Bus) (cs : List Call) → IsBare bus → IsBare (run bus cs)
unfolding run
run-IsBare bus [] w = w
run-IsBare bus (c ∷ cs) w = run-IsBare (step bus c) cs (step-IsBare bus c w)

pub bus_close-IsBare : (bus : Bus) → IsBus bus → bus.opened ≡ true → IsBare (bus_close true bus)
unfolding bus_close
bus_close-IsBare bus w on = record { registered = ground arith; bare = ground arith }

-- Once a handle that was opened after the start is closed, no later sequence of opens and closes
-- registers the elements on a handle again.
pub run-bus_close :
    (before after : List Call)
    → (run closed before).opened ≡ true
    → (run (bus_close true (run closed before)) after).elements ≡ []
run-bus_close before after on =
    let w = bus_close-IsBare (run closed before) (run-IsBus closed before closed-IsBus) on in
    (run-IsBare (bus_close true (run closed before)) after w).bare
