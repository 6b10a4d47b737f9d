-- ===== src/Track/Excursion.antt =====
-- One client's excursion: the sentinel `start_ts` against a machine that is open or closed.
use wei.Base.{ℕ, ◌+◌, ◌%◌, ◌^◌, ◌≡◌, ◌≢◌, refl, Option, none, some, arith, if◌then◌else◌}
use wei.Base.Int.{ℤ, pos, ◌+ℤ◌, ◌-ℤ◌, ltb_ℤ, leb_ℤ, is_zero, is_zero_iff, int_laws}
use wei.Track.{Entry, tick, collect}

-- What a client's ledger stands for: when the open excursion began, the time added up, the onsets.
pub record Ledger : Type 0 where
  pub since : Option ℤ
  pub total : ℤ
  pub onsets : ℕ

abbrev pub view : Entry → Ledger
view e = record {
  since = if is_zero e.start_ts then none else some e.start_ts;
  total = e.accumulated;
  onsets = e.count;
}

-- A metric below the band opens an excursion; a metric within it closes the open one, whose length
-- counts if it is the floor or more.
abbrev pub below : Ledger → ℤ → Ledger
below l now = elim l.since [
  | none ↦ record l { since = some now; onsets = (l.onsets + 1) % 2 ^ 32 }
  | some s ↦ l
]

abbrev pub sustained : ℤ → ℤ → ℤ
sustained floor elapsed = if leb_ℤ floor elapsed then elapsed else pos 0

abbrev pub within : Ledger → ℤ → ℤ → Ledger
within l now floor = elim l.since [
  | none ↦ l
  | some s ↦ record l { since = none; total = l.total +ℤ sustained floor (now -ℤ s) }
]

abbrev pub observe : Ledger → ℤ → ℤ → ℤ → ℤ → Ledger
observe l metric now band floor = if ltb_ℤ metric band then below l now else within l now floor

add_zero : (a : ℤ) → a +ℤ pos 0 ≡ a
add_zero a = omega int_laws

-- At every time but 0, `wei_track_tick` is a step of that machine.
pub tick_refines :
    (e : Entry) (metric now band floor : ℤ)
    → now ≢ pos 0
    → view (tick e metric now band floor) ≡ observe (view e) metric now band floor
unfolding tick
tick_refines e metric now band floor h = ground (arith, is_zero_iff now, add_zero e.accumulated)

-- `wei_track_collect` hands over the onsets and the time, starts both again at 0, and lets an open
-- excursion run on.
pub collect_refines :
    (e : Entry)
    → ((collect e).1 ≡ record { count = (view e).onsets; duration_ms = (view e).total })
      × (view (collect e).0 ≡ record (view e) { total = pos 0; onsets = 0 })
unfolding collect
collect_refines e = (refl, refl)
