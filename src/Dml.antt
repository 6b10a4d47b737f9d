-- ===== src/Dml.antt =====
-- source/wei_connperf_dml.c: the data model of the pillar. Two properties, the enable and the
-- configuration flags, are read and written with typed values, and an event is there to be published
-- through; the three are registered once.
pub mod Access
pub mod Registry
mod Examples
use wei.Base.{ℕ, Bool, true, false, not, Option, none, some, List, [], ◌∷◌, if◌then◌else◌}
use wei.Rbus.{
  BusError, success, invalid_input, general, is_success, DataType, boolean_type, uint32_type,
  bytes_type, RawData, boolean, uint32, untyped,
}
use wei.Rfc.{Host, Rfc, connperf_set}

-- `wei_connperf_dml_state`.
pub record Dml : Type 0 where
  pub registered : Bool
  pub config_flags : ℕ

abbrev pub fresh : Dml
fresh = record { registered = false; config_flags = 0 }

-- WEI_CONNPERF_DM_ENABLE, WEI_CONNPERF_DM_CONFIG_FLAGS and WEI_CONNPERF_DM_REPORT_EVENT.
pub data Name : Type 0 where
  enable config_flags report_event : Name

-- What the sources fill of `bus_data_element_t`: the name, whether it is an event, the type, whether
-- it can be written, and which of the get, set and subscribe callbacks are there.
pub record Element : Type 0 where
  pub name : Name
  pub is_event : Bool
  pub data_type : DataType
  pub writable : Bool
  pub has_get : Bool
  pub has_set : Bool
  pub has_sub : Bool

abbrev pub property : Name → DataType → Element
property name type = record {
  name = name;
  is_event = false;
  data_type = type;
  writable = true;
  has_get = true;
  has_set = true;
  has_sub = false;
}

abbrev pub data_elements : List Element
data_elements =
    property enable boolean_type
    ∷ property config_flags uint32_type
    ∷ record {
      name = report_event;
      is_event = true;
      data_type = bytes_type;
      writable = false;
      has_get = false;
      has_set = false;
      has_sub = true;
    }
    ∷ []

-- In the accessors `named` is whether the name is given, and a value is none for a NULL pointer. A get
-- returns what it has written through the pointer.
unfoldable pub enable_get : Rfc → Bool → Option RawData → Option RawData × BusError
enable_get rfc named none = (none, invalid_input)
enable_get rfc named (some value) =
    if not named
    then (some value, invalid_input)
    else (some (boolean rfc.connperf_enabled), success)

module _ {J : Type 0} (host : Host J) where
  abbrev pub enable_write : Rfc → RawData → Rfc × BusError
  enable_write rfc (boolean b) =
      let done = connperf_set host rfc b in (done.0, if done.1 then success else general)
  enable_write rfc (uint32 n) = (rfc, invalid_input)
  enable_write rfc (untyped t) = (rfc, invalid_input)

  unfoldable pub enable_set : Rfc → Bool → Option RawData → Rfc × BusError
  enable_set rfc named none = (rfc, invalid_input)
  enable_set rfc named (some value) =
      if not named then (rfc, invalid_input) else enable_write rfc value

unfoldable pub config_get : Dml → Bool → Option RawData → Option RawData × BusError
config_get dml named none = (none, invalid_input)
config_get dml named (some value) =
    if not named then (some value, invalid_input) else (some (uint32 dml.config_flags), success)

abbrev pub config_write : Dml → RawData → Dml × BusError
config_write dml (uint32 n) = (record dml { config_flags = n }, success)
config_write dml (boolean b) = (dml, invalid_input)
config_write dml (untyped t) = (dml, invalid_input)

unfoldable pub config_set : Dml → Bool → Option RawData → Dml × BusError
config_set dml named none = (dml, invalid_input)
config_set dml named (some value) =
    if not named then (dml, invalid_input) else config_write dml value

abbrev pub event_sub : BusError
event_sub = success

-- `has_handle` is whether the handle is given, `ready` whether the descriptor has its registration
-- function, and `rc` what that function returns. The state afterwards, the return value, and what the
-- registration function was called with, if it was.
unfoldable pub register : Dml → Bool → Bool → BusError → Dml × BusError × Option (List Element)
register dml has_handle ready rc =
    if not has_handle
    then (dml, invalid_input, none)
    else if dml.registered
    then (dml, success, none)
    else if not ready
    then (dml, general, none)
    else if not (is_success rc)
    then (dml, rc, some data_elements)
    else (record dml { registered = true }, success, some data_elements)
