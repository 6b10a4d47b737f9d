-- ===== src/Dml/Examples.antt =====
-- A subscriber that turns the pillar on.
use wei.Base.{◌≡◌, refl, true, some}
use wei.Rbus.{boolean, untyped, success}
use wei.Rfc.{load}
use wei.Rfc.Examples.{store, store-IsHost, at_boot}
use wei.Dml.{enable, config_flags, fresh, enable_get, enable_set, config_get, config_set}
use wei.Dml.Access.{enable_get-enable_set}
use wei.Dml.Registry.{IsDeclared, values-IsDeclared}

enable_get-enable_set_example :
    let rfc' = (enable_set store at_boot true (some (boolean true))).0 in
    (enable_get rfc' true (some (untyped 0)) ≡ (some (boolean true), success))
    × (enable_get (load store rfc') true (some (untyped 0)) ≡ (some (boolean true), success))
unfolding enable_set wei.Rfc.connperf_set wei.Rfc.write_file
enable_get-enable_set_example =
    enable_get-enable_set store at_boot true (some (boolean true)) (untyped 0) store-IsHost refl
      refl

values-IsDeclared_example :
    ((enable_get at_boot true (some (boolean true))).1 ≡ success
      → IsDeclared enable (enable_get at_boot true (some (boolean true))).0)
    × ((enable_set store at_boot true (some (boolean true))).1 ≡ success
        → IsDeclared enable (some (boolean true)))
    × ((config_get fresh true (some (boolean true))).1 ≡ success
        → IsDeclared config_flags (config_get fresh true (some (boolean true))).0)
    × ((config_set fresh true (some (boolean true))).1 ≡ success
        → IsDeclared config_flags (some (boolean true)))
values-IsDeclared_example = values-IsDeclared store at_boot fresh true (some (boolean true))
