-- ===== src/Rbus.antt =====
-- What the sources use of the platform's bus headers (bus.h, bus_common.h): the error codes, the
-- values that a property is read and written with, and the elements of a data model. The bus itself
-- is code that the repository does not hold; the return codes of its functions are arguments.
use wei.Base.{ℕ, Bool, true, false}

-- `bus_error_t`; the codes that only the bus returns are known by their number.
pub data BusError : Type 0 where
  success invalid_input general : BusError
  other : ℕ → BusError

abbrev pub is_success : BusError → Bool
is_success success = true
is_success invalid_input = false
is_success general = false
is_success (other n) = false

-- `bus_data_type_t`, as far as the sources name it.
pub data DataType : Type 0 where
  boolean_type uint32_type string_type bytes_type : DataType

-- `raw_data_t` by its discriminator and the member of the union that it selects; a value of any other
-- type is known by its discriminator alone.
pub data RawData : Type 0 where
  boolean : Bool → RawData
  uint32 : ℕ → RawData
  untyped : ℕ → RawData
