-- ===== src/Track.antt =====
-- source/wei_track.c and include/wei_track.h: the per-client excursion ledger. The table is the list
-- of its 64 entries, a pointer into it is an index, and a NULL result is `none`. Times and metrics
-- are integers; the onset counter is a `uint32_t`, which wraps.
pub mod Table
pub mod Excursion
pub mod Trace
pub mod Reports
mod Examples
use wei.Base.{
  ℕ, suc, ◌+◌, ◌%◌, ◌^◌, Bool, true, false, ◌&&◌, not, Option, none, some, List, map, if◌then◌else◌,
  replicate, get_or, set,
}
use wei.Base.Int.{ℤ, pos, ◌+ℤ◌, ◌-ℤ◌, ltb_ℤ, leb_ℤ, is_zero}
use wei.Base.Mac.{Mac, zero_mac}
use wei.Slots.{Slotted, Found, hit, miss, scan}

abbrev pub max_clients : ℕ
max_clients = 64

abbrev pub absence_default_ms : ℤ
absence_default_ms = pos 30000

-- `wei_track_entry_t`. An excursion is open exactly while `start_ts` is not 0.
pub record Entry : Type 0 where
  pub mac : Mac
  pub in_use : Bool
  pub last_seen : ℤ
  pub start_ts : ℤ
  pub accumulated : ℤ
  pub count : ℕ

-- `wei_track_record_t`.
pub record Record : Type 0 where
  pub count : ℕ
  pub duration_ms : ℤ

-- `wei_track_table_t`.
abbrev pub Table : Type 0
Table = List Entry

-- `memset(e, 0, sizeof(*e))`.
abbrev pub zero_entry : Entry
zero_entry = record {
  mac = zero_mac;
  in_use = false;
  last_seen = pos 0;
  start_ts = pos 0;
  accumulated = pos 0;
  count = 0;
}

abbrev pub entries : Slotted Entry
entries = record { in_use = λ e. e.in_use; key = λ e. e.mac }

unfoldable pub init : Table
init = replicate max_clients zero_entry

-- The entry that `wei_track_get` writes into the free slot.
abbrev pub claimed : Mac → ℤ → Entry
claimed mac now = record zero_entry { mac = mac; in_use = true; last_seen = now }

-- `e->last_seen = now_ms` of the entry at an index.
abbrev pub seen : Table → ℕ → ℤ → Table
seen t i now = set t i (record (get_or t i zero_entry) { last_seen = now })

-- What the function does once its loop has ended.
abbrev pub settle : Table → Mac → ℤ → Found → Table × Option ℕ
settle t mac now (hit i) = (seen t i now, some i)
settle t mac now (miss (some i)) = (set t i (claimed mac now), some i)
settle t mac now (miss none) = (t, none)

-- The table afterwards, and the index of the client's entry; none when the table is full.
unfoldable pub get : Table → Mac → ℤ → Table × Option ℕ
get t mac now = settle t mac now (scan entries t mac 0 none)

unfoldable pub reap_entry : ℤ → ℤ → Entry → Entry
reap_entry now absence e = if e.in_use && ltb_ℤ absence (now -ℤ e.last_seen) then zero_entry else e

unfoldable pub reap : Table → ℤ → ℤ → Table
unfolding reap_entry
reap t now absence = map (reap_entry now absence) t

-- `e->start_ts = now_ms; e->count++`, unless an excursion is already open.
unfoldable pub opened : Entry → ℤ → Entry
opened e now =
    if is_zero e.start_ts then record e { start_ts = now; count = (e.count + 1) % 2 ^ 32 } else e

-- The end of an open excursion: it is added up if it lasted at least `floor`.
unfoldable pub closed : Entry → ℤ → ℤ → Entry
closed e now floor =
    if is_zero e.start_ts
    then e
    else let elapsed = now -ℤ e.start_ts in
      if leb_ℤ floor elapsed
      then record e { accumulated = e.accumulated +ℤ elapsed; start_ts = pos 0 }
      else record e { start_ts = pos 0 }

unfoldable pub tick : Entry → ℤ → ℤ → ℤ → ℤ → Entry
unfolding opened closed
tick e metric now band floor = if ltb_ℤ metric band then opened e now else closed e now floor

unfoldable pub collect : Entry → Entry × Record
collect e = (
  record e { count = 0; accumulated = pos 0 },
  record { count = e.count; duration_ms = e.accumulated },
)
