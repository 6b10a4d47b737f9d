-- ===== src/Rfc/Examples.antt =====
-- A file system that stores what it is given, and documents that are their flag.
use wei.Base.{
  ◌<◌, ℕ, zero, suc, ◌≡◌, refl, Bool, true, false, Option, none, some, [], ◌∷◌, arith, length, take,
  ◌-◌,
}
use wei.Rfc.{Text, Key, buf_max, Host, Rfc, load, connperf_set}
use wei.Rfc.Persist.{IsHost, load-connperf_set}
use wei.Rfc.Safe.{SaysSo, load-SaysSo}

abbrev printed : Bool → ℕ → Option Text
printed b zero = none
printed b (suc zero) = none
printed true (suc (suc n)) = some (1 ∷ [])
printed false (suc (suc n)) = some (0 ∷ [])

abbrev parsed : Text → Option Bool
parsed [] = none
parsed (zero ∷ text) = some false
parsed (suc n ∷ text) = some true

abbrev pub store : Host Bool
store = record {
  parse = parsed;
  item = λ node key. some node;
  is_bool = λ node. true;
  is_true = λ node. node;
  created = true;
  added_object = true;
  added_bool = true;
  document = λ b. b;
  print = printed;
  open_read = true;
  open_write = true;
  stored = λ text. text;
  put_ok = true;
  close_ok = true;
}

printed-parsed :
    (b : Bool) (cap : ℕ) (text : Text) → printed b cap ≡ some text → parsed text ≡ some b
printed-parsed b zero text e = absurd (ground arith)
printed-parsed b (suc zero) text e = absurd (ground arith)
printed-parsed true (suc (suc n)) [] e = absurd (ground arith)
printed-parsed true (suc (suc n)) (zero ∷ text) e = absurd (ground arith)
printed-parsed true (suc (suc n)) (suc c ∷ text) e = refl
printed-parsed false (suc (suc n)) [] e = absurd (ground arith)
printed-parsed false (suc (suc n)) (zero ∷ text) e = refl
printed-parsed false (suc (suc n)) (suc c ∷ text) e = absurd (ground arith)

printed-fits :
    (b : Bool) (cap : ℕ) (text : Text)
    → printed b cap ≡ some text
    → (0 < length text) × (length text < cap)
printed-fits b zero text e = absurd (ground arith)
printed-fits b (suc zero) text e = absurd (ground arith)
printed-fits true (suc (suc n)) text e = (ground arith, ground arith)
printed-fits false (suc (suc n)) text e = (ground arith, ground arith)

pub store-IsHost : IsHost store
store-IsHost = record {
  parse-print = printed-parsed;
  print_fits = printed-fits;
  item_lem = λ b. (b, b, refl, refl, refl, refl);
  stored_lem = λ put closed text. refl;
}

abbrev pub at_boot : Rfc
at_boot = record { connperf_enabled = false; file = none }

enabled_later : (load store (connperf_set store at_boot true).0).connperf_enabled ≡ true
unfolding connperf_set wei.Rfc.write_file
enabled_later = load-connperf_set store at_boot true store-IsHost refl refl

load-SaysSo_example :
    (text : Text) × (some (1 ∷ []) ≡ some text)
    × (store.open_read ≡ true)
    × ((doc : Bool) × (store.parse (take (buf_max - 1) text) ≡ some doc) × SaysSo store doc)
unfolding load
load-SaysSo_example =
    load-SaysSo store (record { connperf_enabled = false; file = some (1 ∷ []) }) refl
