-- ===== src/Infer/Flags/Tracker.antt =====
-- The excursion tracker under the instability flag.
use wei.Base.{ℕ, ◌≡◌, sym, ◌∙◌, Option, none, some, arith}
use wei.Infer.Windows.{phy_instability}
use wei.Base.Int.{ℤ, neg}
use wei.Double.{Double}
use wei.Slots.Distinct.{Distinct, set_same-Distinct}
use wei.Track
use wei.Track.{Table, Entry, entries, tick, opened, closed, collect}
use wei.Track.Table.{get-Distinct, Got, get-Got, stamped, lookup, get_or_of_get_elem?}
use wei.Infer.Types.{Slot, Policy, Result}
use wei.Infer.Flags.{track_at, track_instability, flag_instability}

tick_keeps :
    (e : Entry) (metric now band floor : ℤ)
    → ((tick e metric now band floor).mac ≡ e.mac)
      × ((tick e metric now band floor).in_use ≡ e.in_use)
unfolding tick
tick_keeps e metric now band floor = ground arith

module _ {D : Type 0} (d : Double D) where
  module _ (policy : Policy) (t : Table) (slot : Slot D) (now : ℤ) where
    -- The excursion bookkeeping of one client never lets two live entries share an address.
    pub track_instability-Distinct :
        (instability : ℤ)
        → Distinct entries t
        → Distinct entries (track_instability d policy t slot instability now).0
    unfolding track_instability collect
    track_instability-Distinct instability u =
        go (Track.get t slot.mac now) (get-Got t slot.mac now) (get-Distinct t slot.mac now u)
      where
        go :
            (r : Table × Option ℕ)
            → Got t slot.mac now r
            → Distinct entries r.0
            → Distinct entries (track_at policy instability now r).0
        go (t', none) g u' = u'
        go (t', some i) g u' =
            let kept =
              tick_keeps (stamped slot.mac (lookup t slot.mac) now) (neg instability) now
                (neg policy.tput_var_band) policy.tput_floor_ms in
            rw (get_or_of_get_elem? t' i _ g.0)
              (set_same-Distinct entries t' i _ _ g.0 (λ live. (sym kept.1 ∙ live, kept.0)) u')

    pub flag_instability-Distinct :
        (out : Result)
        → Distinct entries t
        → Distinct entries (flag_instability d policy t slot out now).0
    unfolding flag_instability
    flag_instability-Distinct out u = track_instability-Distinct (phy_instability d slot.state) u
