-- ===== src/Dml/Registry.antt =====
-- The elements of source/wei_connperf_dml.c at the bus: their registration and their types.
use wei.Base.{
  ℕ, ◌+◌, ◌≤◌, ◌≡◌, refl, Bool, true, false, Option, none, some, List, [], ◌∷◌, arith,
  if◌then◌else◌, inl, inr, ◌⊎◌,
}
use wei.Rbus.{
  BusError, success, is_success, DataType, boolean_type, uint32_type, RawData, boolean, uint32,
  untyped,
}
use wei.Rfc.{Host, Rfc}
use wei.Dml.{
  Dml, Name, enable, config_flags, report_event, Element, enable_get, enable_set, config_get,
  config_set, register, data_elements,
}

-- One call of the registration, with its environment.
pub record Try : Type 0 where
  pub has_handle : Bool
  pub ready : Bool
  pub rc : BusError

abbrev pub accepted : Dml × BusError × Option (List Element) → ℕ
accepted (dml, rc, none) = 0
accepted (dml, rc, some elements) = if is_success rc then 1 else 0

-- How often the bus has accepted the elements over a sequence of calls.
unfoldable pub registrations : Dml → List Try → ℕ
registrations dml [] = 0
registrations dml (t ∷ ts) =
    let call = register dml t.has_handle t.ready t.rc in accepted call + registrations call.0 ts

-- A call counts exactly when it turns the flag on, and the flag stays on.
register-once :
    (dml : Dml) (t : Try)
    → let call = register dml t.has_handle t.ready t.rc in
      ((dml.registered ≡ true) × (accepted call ≡ 0) × (call.0.registered ≡ true))
      ⊎ ((dml.registered ≡ false) × (accepted call ≡ 0) × (call.0.registered ≡ false))
      ⊎ ((dml.registered ≡ false) × (accepted call ≡ 1) × (call.0.registered ≡ true))
unfolding register
register-once dml t = ground arith

registrations-registered :
    (dml : Dml) (ts : List Try) → dml.registered ≡ true → registrations dml ts ≡ 0
unfolding registrations
registrations-registered dml [] on = refl
registrations-registered dml (t ∷ ts) on = elim (register-once dml t) [
  | inl (was, none_now, stays) ↦
      let later = registrations-registered (register dml t.has_handle t.ready t.rc).0 ts stays in
      omega (arith, none_now, later)
  | inr (inl (was, none_now, stays)) ↦ absurd (ground arith)
  | inr (inr (was, one, turned)) ↦ absurd (ground arith)
]

pub registrations-once : (dml : Dml) (ts : List Try) → registrations dml ts ≤ 1
unfolding registrations
registrations-once dml [] = omega arith
registrations-once dml (t ∷ ts) =
    let next = (register dml t.has_handle t.ready t.rc).0 in
    let rest = registrations-once next ts in
    let done = registrations-registered next ts in
    elim (register-once dml t) [
      | inl (was, none_now, stays) ↦ omega arith
      | inr (inl (was, none_now, stays)) ↦ omega arith
      | inr (inr (was, one, turned)) ↦ let zero_later = done turned in omega arith
    ]

-- A value is of a declared type.
abbrev pub HasType : RawData → DataType → Type 0
HasType (boolean b) type = type ≡ boolean_type
HasType (uint32 n) type = type ≡ uint32_type
HasType (untyped t) type = ⊥

-- The type that the element of a name declares.
abbrev pub same_name : Name → Name → Bool
same_name enable enable = true
same_name config_flags config_flags = true
same_name report_event report_event = true
same_name a b = false

abbrev pub declared : List Element → Name → Option DataType
declared [] name = none
declared (e ∷ es) name = if same_name e.name name then some e.data_type else declared es name

-- The value is of the type that the element declares.
abbrev pub IsDeclared : Name → Option RawData → Type 0
IsDeclared name none = ⊥
IsDeclared name (some value) =
    (type : DataType) × (declared data_elements name ≡ some type) × HasType value type

pub enable_get-IsDeclared :
    (rfc : Rfc) (named : Bool) (cell : Option RawData)
    → (enable_get rfc named cell).1 ≡ success
    → IsDeclared enable (enable_get rfc named cell).0
unfolding enable_get
enable_get-IsDeclared rfc named none done = absurd (ground arith)
enable_get-IsDeclared rfc true (some cell) done = (boolean_type, refl, refl)
enable_get-IsDeclared rfc false (some cell) done = absurd (ground arith)

pub config_get-IsDeclared :
    (dml : Dml) (named : Bool) (cell : Option RawData)
    → (config_get dml named cell).1 ≡ success
    → IsDeclared config_flags (config_get dml named cell).0
unfolding config_get
config_get-IsDeclared dml named none done = absurd (ground arith)
config_get-IsDeclared dml true (some cell) done = (uint32_type, refl, refl)
config_get-IsDeclared dml false (some cell) done = absurd (ground arith)

module _ {J : Type 0} (host : Host J) where
  pub enable_set-IsDeclared :
      (rfc : Rfc) (named : Bool) (value : Option RawData)
      → (enable_set host rfc named value).1 ≡ success
      → IsDeclared enable value
  unfolding enable_set
  enable_set-IsDeclared rfc named none done = absurd (ground arith)
  enable_set-IsDeclared rfc true (some (boolean b)) done = (boolean_type, refl, refl)
  enable_set-IsDeclared rfc true (some (uint32 n)) done = absurd (ground arith)
  enable_set-IsDeclared rfc true (some (untyped t)) done = absurd (ground arith)
  enable_set-IsDeclared rfc false (some value) done = absurd (ground arith)

pub config_set-IsDeclared :
    (dml : Dml) (named : Bool) (value : Option RawData)
    → (config_set dml named value).1 ≡ success
    → IsDeclared config_flags value
unfolding config_set
config_set-IsDeclared dml named none done = absurd (ground arith)
config_set-IsDeclared dml true (some (boolean b)) done = absurd (ground arith)
config_set-IsDeclared dml true (some (uint32 n)) done = (uint32_type, refl, refl)
config_set-IsDeclared dml true (some (untyped t)) done = absurd (ground arith)
config_set-IsDeclared dml false (some value) done = absurd (ground arith)

-- What the two get accessors write when they succeed, and what the two set accessors have been
-- given when they succeed, is of the type that the registered element of the property declares.
pub values-IsDeclared :
    {J : Type 0} (host : Host J) (rfc : Rfc) (dml : Dml) (named : Bool) (value : Option RawData)
    → ((enable_get rfc named value).1 ≡ success → IsDeclared enable (enable_get rfc named value).0)
      × ((enable_set host rfc named value).1 ≡ success → IsDeclared enable value)
      × ((config_get dml named value).1 ≡ success
          → IsDeclared config_flags (config_get dml named value).0)
      × ((config_set dml named value).1 ≡ success → IsDeclared config_flags value)
values-IsDeclared host rfc dml named value = (
  enable_get-IsDeclared rfc named value,
  enable_set-IsDeclared host rfc named value,
  config_get-IsDeclared dml named value,
  config_set-IsDeclared dml named value,
)
