-- ===== src/Dml/Access.antt =====
-- The accessors of source/wei_connperf_dml.c: writes, and the reads after them.
use wei.Base.{
  ℕ, ◌≡◌, refl, ap, sym, ◌∙◌, ◌⊎◌, inl, inr, Bool, true, false, Option, none, some, arith,
  Bool-cases,
}
use wei.Rbus.{BusError, success, invalid_input, RawData, boolean, uint32, untyped}
use wei.Rfc.{Host, Rfc, connperf_set, load}
use wei.Rfc.Persist.{IsHost, connperf_set_outcome, load-connperf_set}
use wei.Dml.{Dml, enable_get, enable_set, config_get, config_set}

-- A write of the flags that is named and typed is taken, and any other changes nothing.
pub config_set_outcome :
    (dml : Dml) (named : Bool) (value : Option RawData)
    → ((n : ℕ) × (value ≡ some (uint32 n))
        × (named ≡ true)
        × (config_set dml named value ≡ (record dml { config_flags = n }, success)))
      ⊎ (config_set dml named value ≡ (dml, invalid_input))
unfolding config_set
config_set_outcome dml named none = inr refl
config_set_outcome dml true (some (boolean b)) = inr refl
config_set_outcome dml true (some (uint32 n)) = inl (n, refl, refl, refl)
config_set_outcome dml true (some (untyped t)) = inr refl
config_set_outcome dml false (some value) = inr refl

pub config_get-config_set :
    (dml : Dml) (named : Bool) (value : Option RawData) (cell : RawData)
    → (config_set dml named value).1 ≡ success
    → config_get (config_set dml named value).0 true (some cell) ≡ (value, success)
unfolding config_set config_get
config_get-config_set dml named none cell done = absurd (ground arith)
config_get-config_set dml true (some (boolean b)) cell done = absurd (ground arith)
config_get-config_set dml true (some (uint32 n)) cell done = refl
config_get-config_set dml true (some (untyped t)) cell done = absurd (ground arith)
config_get-config_set dml false (some value) cell done = absurd (ground arith)

module _ {J : Type 0} (host : Host J) where
  enable_set_done :
      (rfc : Rfc) (named : Bool) (value : Option RawData)
      → (enable_set host rfc named value).1 ≡ success
      → (b : Bool) × (value ≡ some (boolean b))
        × ((enable_set host rfc named value).0 ≡ (connperf_set host rfc b).0)
        × ((connperf_set host rfc b).1 ≡ true)
  unfolding enable_set
  enable_set_done rfc named none done = absurd (ground arith)
  enable_set_done rfc true (some (boolean b)) done = elim (Bool-cases (connperf_set host rfc b).1) [
    | inl ok ↦ (b, refl, refl, ok)
    | inr failed ↦ absurd (ground arith)
  ]
  enable_set_done rfc true (some (uint32 n)) done = absurd (ground arith)
  enable_set_done rfc true (some (untyped t)) done = absurd (ground arith)
  enable_set_done rfc false (some value) done = absurd (ground arith)

  -- If cJSON and the file system do what they document and the file can be read: a write of the
  -- enable that returns success is read back as it was written, at once and after the file is
  -- loaded again.
  pub enable_get-enable_set :
      (rfc : Rfc) (named : Bool) (value : Option RawData) (cell : RawData)
      → IsHost host
      → host.open_read ≡ true
      → (enable_set host rfc named value).1 ≡ success
      → let rfc' = (enable_set host rfc named value).0 in
        (enable_get rfc' true (some cell) ≡ (value, success))
        × (enable_get (load host rfc') true (some cell) ≡ (value, success))
  unfolding enable_get
  enable_get-enable_set rfc named value cell w readable done =
      let (b, typed, stored, ok) = enable_set_done rfc named value done in
      let now = ap (λ r. r.connperf_enabled) stored ∙ (connperf_set_outcome host rfc b).0 in
      let later =
        ap (λ r. (load host r).connperf_enabled) stored
        ∙ load-connperf_set host rfc b w readable ok in
      let read : Bool → Option RawData × BusError = λ c. (some (boolean c), success) in
      (
        ap read now ∙ ap (λ v. (v, success)) (sym typed),
        ap read later ∙ ap (λ v. (v, success)) (sym typed),
      )
