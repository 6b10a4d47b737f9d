-- ===== src/Infer/Engine.antt =====
-- The engine and its entries (source/wei_infer.c). The arrays `map.slots`, `snapshot`, `result` and
-- `ledger` run in parallel: a row holds what they have at one index. The clock is an argument, and
-- what `wei_perfreport_publish_tick` does to the rest of the daemon is the parameter `publish`.
pub mod Membership
pub mod Reap
pub mod Sweep
pub mod Range
mod Examples
use wei.Base.{
  ℕ, suc, ◌+◌, ◌-◌, Bool, true, false, ◌&&◌, Option, none, some, List, [], ◌∷◌, if◌then◌else◌, ltb,
  get_or, set, replicate,
}
use wei.Base.Int.{ℤ, pos, ◌-ℤ◌, ltb_ℤ}
use wei.Base.Mac.{Mac}
use wei.Metric.{Metric}
use wei.Double.{Double}
use wei.Scorer.{Sigmoid}
use wei.Slots.{Slotted, Found, hit, miss, scan}
use wei.Track
use wei.Track.{Table, max_clients, absence_default_ms}
use wei.Infer.Types.{
  Client, Slot, Policy, Result, EpisodeLog, Verdict, is_degraded, zero_slot, zero_metric,
  zero_result, zero_log,
}
use wei.Infer.Score.{score_client, attribute}
use wei.Infer.Flags.{flag_instability, flag_latency_risk, flag_video_degrade}
use wei.Infer.Ledger.{ledger_update}

pub record Row (D : Type 0) : Type 0 where
  pub slot : Slot D
  pub snapshot : Metric
  pub result : Result
  pub ledger : EpisodeLog

-- `struct wei_infer_engine`.
pub record Engine (D : Type 0) : Type 0 where
  pub rows : List (Row D)
  pub count : ℕ
  pub tracker : Table
  pub policy : Policy

module _ {D : Type 0} where
  abbrev pub members : Slotted (Row D)
  members = record { in_use = λ r. r.slot.in_use; key = λ r. r.slot.mac }

  -- A known client: its stamp and its record, in place.
  abbrev pub refreshed : Row D → Metric → ℤ → Row D
  refreshed r rec now = record r { slot = record r.slot { last_seen = now }; snapshot = rec }

  -- A client admitted into a free slot: `memcpy(slot->mac, mac, 6); slot->in_use = 1; ...`.
  abbrev pub admitted : Row D → Mac → Metric → ℤ → Row D
  admitted r mac rec now = record r {
    slot = record r.slot { mac = mac; in_use = true; last_seen = now };
    snapshot = rec;
  }

  -- `slot->in_use && now_ms - slot->last_seen > WEI_TRACK_ABSENCE_DEFAULT_MS`.
  abbrev pub is_absent : ℤ → Row D → Bool
  is_absent now r = r.slot.in_use && ltb_ℤ absence_default_ms (now -ℤ r.slot.last_seen)

module _ {D : Type 0} (d : Double D) where
  abbrev pub zero_row : Row D
  zero_row = record {
    slot = zero_slot d;
    snapshot = zero_metric;
    result = zero_result;
    ledger = zero_log;
  }

  -- `alloc` says whether `calloc` succeeds; a NULL policy is `none`.
  unfoldable pub create : Bool → Option Policy → Option (Engine D)
  unfolding Track.init
  create alloc none = none
  create alloc (some policy) =
      if alloc
      then some (record {
        rows = replicate max_clients zero_row;
        count = 0;
        tracker = Track.init;
        policy = policy;
      })
      else none

  -- What the function does once its loop has ended. A full map drops the record.
  abbrev pub settled : Engine D → Mac → Metric → ℤ → Found → Engine D
  settled eng mac rec now (hit i) = record eng {
    rows = set eng.rows i (refreshed (get_or eng.rows i zero_row) rec now);
  }
  settled eng mac rec now (miss none) = eng
  settled eng mac rec now (miss (some i)) = record eng {
    rows = set eng.rows i (admitted (get_or eng.rows i zero_row) mac rec now);
    count = if ltb eng.count max_clients then eng.count + 1 else eng.count;
  }

  unfoldable pub stage_record : Engine D → Mac → Metric → ℤ → Engine D
  stage_record eng mac rec now = settled eng mac rec now (scan members eng.rows mac 0 none)

  -- The slot and the ledger are zeroed; snapshot and result stay.
  abbrev pub released : Row D → Row D
  released r = record r { slot = zero_slot d; ledger = zero_log }

  -- The loop of `wei_infer_map_reap`, with `map.count`.
  unfoldable pub reap_rows : ℤ → List (Row D) → ℕ → List (Row D) × ℕ
  reap_rows now [] count = ([], count)
  reap_rows now (r ∷ rs) count =
      let gone = is_absent now r in
      let count' = if gone then (if ltb 0 count then count - 1 else count) else count in
      let (rs', count'') = reap_rows now rs count' in
      ((if gone then released r else r) ∷ rs', count'')

  unfoldable pub map_reap : Engine D → ℤ → Engine D
  unfolding reap_rows
  map_reap eng now =
      let (rows, count) = reap_rows now eng.rows eng.count in
      record eng { rows = rows; count = count }

  module _ (q : Sigmoid D) where
    -- The three flags, the attribution and the ledger, after a score.
    unfoldable pub judge : Policy → Table → Row D → Client D → Result → ℤ → Table × Row D
    judge policy tracker r st out now =
        let slot = record r.slot { state = st } in
        let (t, out1) = flag_instability d policy tracker slot out now in
        let (st', out2) = flag_latency_risk policy st out1 in
        let out3 = flag_video_degrade policy out2 in
        let out4 =
          if is_degraded out3.verdict
          then record out3 { dominant = attribute d q st' r.snapshot }
          else out3 in
        (
          t,
          record r {
            slot = record slot { state = st' };
            result = out4;
            ledger = ledger_update r.ledger out4.verdict now;
          },
        )

    -- The body of the sweep for one index; `none` where nothing is scored.
    unfoldable pub score_row : Policy → Table → Row D → ℤ → Option (Table × Row D)
    unfolding judge
    score_row policy tracker r now =
        if r.slot.in_use
        then elim (score_client d q r.slot.state r.snapshot) [
          | none ↦ none
          | some (st, out) ↦ some (judge policy tracker r st out now)
        ]
        else none

    module _ {W : Type 0} (publish : Mac → Result → Metric → W → W) where
      -- The row, tracker and outside world after the body.
      unfoldable pub sweep_row : Policy → Table → W → Row D → ℤ → Row D × Table × W
      unfolding score_row
      sweep_row policy tracker w r now = elim (score_row policy tracker r now) [
        | none ↦ (r, tracker, w)
        | some (t, r') ↦ (r', t, publish r'.slot.mac r'.result r'.snapshot w)
      ]

      unfoldable pub sweep : Policy → Table → W → List (Row D) → ℤ → List (Row D) × Table × W
      unfolding sweep_row
      sweep policy tracker w [] now = ([], tracker, w)
      sweep policy tracker w (r ∷ rs) now =
          let (r', t, w') = sweep_row policy tracker w r now in
          let (rs', t', w'') = sweep policy t w' rs now in (r' ∷ rs', t', w'')

      -- `wei_infer_tick`: the sweep, then both reaps.
      unfoldable pub tick : Engine D → W → ℤ → Engine D × W
      unfolding sweep map_reap
      tick eng w now =
          let (rows, t, w') = sweep eng.policy eng.tracker w eng.rows now in
          let reaped = Track.reap t now absence_default_ms in
          (map_reap (record eng { rows = rows; tracker = reaped }) now, w')
