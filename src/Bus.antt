-- ===== src/Bus.antt =====
-- source/weid_bus.c: the daemon's one bus handle. What the bus holds for it is kept beside the state
-- of the unit: how many handles are open, and whether the elements are registered on the open one,
-- since a registration ends with the handle that it was made on.
pub mod Calls
pub mod Examples
use wei.Base.{
  ℕ, ◌+◌, ◌-◌, Bool, true, false, not, ◌&&◌, Option, none, some, List, [], ◌∷◌, if◌then◌else◌,
}
use wei.Rbus.{BusError, success, general, is_success}
use wei.Dml.{Dml, fresh, Element, register}

-- `open` counts the calls of the open function that succeeded, less those of the close function.
pub record Bus : Type 0 where
  pub opened : Bool
  pub dml : Dml
  pub handles : ℕ
  pub elements : List Element

abbrev pub closed : Bus
closed = record { opened = false; dml = fresh; handles = 0; elements = [] }

-- Whether the descriptor has its open and close functions, whether it has its registration function,
-- and what the open and registration functions return.
pub record Env : Type 0 where
  pub desc_ready : Bool
  pub reg_ready : Bool
  pub open_rc : BusError
  pub reg_rc : BusError

-- The elements on the handle after a call of the registration function.
abbrev pub elements_after : List Element → BusError → Option (List Element) → List Element
elements_after held rc none = held
elements_after held rc (some given) = if is_success rc then given else held

unfoldable pub bus_open : Env → Bus → Bus × BusError
bus_open env bus =
    if bus.opened
    then (bus, success)
    else if not env.desc_ready
    then (bus, general)
    else if not (is_success env.open_rc)
    then (bus, env.open_rc)
    else let (dml', rc, given) = register bus.dml true env.reg_ready env.reg_rc in
      if not (is_success rc)
      then (record bus { opened = false; dml = dml'; elements = [] }, rc)
      else (
        record {
          opened = true;
          dml = dml';
          handles = bus.handles + 1;
          elements = elements_after [] rc given;
        },
        success,
      )

-- `close_ready` is whether the descriptor has its close function.
unfoldable pub bus_close : Bool → Bus → Bus
bus_close close_ready bus =
    if not bus.opened
    then bus
    else if close_ready
    then record bus { opened = false; handles = bus.handles - 1; elements = [] }
    else record bus { opened = false }

-- Whether there is a handle to present.
abbrev pub bus_handle : Bus → Bool
bus_handle bus = bus.opened
