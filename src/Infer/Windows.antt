-- ===== src/Infer/Windows.antt =====
-- The sliding windows of a client and what is read from them (source/wei_infer.c).
pub mod Ring
pub mod View
use wei.Base.{
  ℕ, suc, ◌+◌, ◌-◌, ◌*◌, ◌%◌, ◌^◌, Bool, true, false, List, [], ◌∷◌, if◌then◌else◌, ltb, leb, ◌==◌,
  get_or, set, take,
}
use wei.Base.Int.{ℤ, pos}
use wei.Double.{Double, of_ℕ}
use wei.Infer.Types.{Client, Band, perr_window, phy_window_size}

-- `(uint8_t)((head + 1u) % WINDOW)`, for both windows of 8.
abbrev pub next : ℕ → ℕ
next head = (head + 1) % 8

-- `if (fill < WINDOW) fill++`.
abbrev pub filled : ℕ → ℕ
filled fill = if ltb fill 8 then fill + 1 else fill

module _ {D : Type 0} where
  unfoldable pub perr_push : Client D → ℕ → ℕ → Client D
  perr_push st frames errs = record st {
    perr_frames = set st.perr_frames st.perr_head frames;
    perr_errs = set st.perr_errs st.perr_head errs;
    perr_head = next st.perr_head;
    perr_fill = filled st.perr_fill;
  }

  unfoldable pub phy_push : Client D → ℕ → Client D
  phy_push st v = record st {
    phy_window = set st.phy_window st.phy_head v;
    phy_head = next st.phy_head;
    phy_fill = filled st.phy_fill;
  }

-- The growth of a cumulative counter, 0 if it went back.
abbrev pub growth : ℕ → ℕ → ℕ
growth newest oldest = if leb oldest newest then newest - oldest else 0

-- The indices that `wei_infer_perr_rate` compares.
abbrev pub newest_index : ℕ → ℕ
newest_index head = (head + 8 - 1) % 8

abbrev pub oldest_index : ℕ → ℕ → ℕ
oldest_index fill head = if ltb fill 8 then 0 else head

unfoldable pub sum : List ℕ → ℕ
sum [] = 0
sum (x ∷ xs) = x + sum xs

module _ {D : Type 0} (d : Double D) where
  -- The share of the growths, whose sum is a `uint32_t`.
  unfoldable pub rate_of : ℕ → ℕ → D
  rate_of d_frames d_errs =
      let total = (d_frames + d_errs) % 2 ^ 32 in
      if total == 0 then of_ℕ d 0 else d.mul (d.div (of_ℕ d d_errs) (of_ℕ d total)) (of_ℕ d 100)

  unfoldable pub perr_rate : Client D → D
  unfolding rate_of
  perr_rate st =
      let newest = newest_index st.perr_head in
      let oldest = oldest_index st.perr_fill st.perr_head in
      let d_frames = growth (get_or st.perr_frames newest 0) (get_or st.perr_frames oldest 0) in
      let d_errs = growth (get_or st.perr_errs newest 0) (get_or st.perr_errs oldest 0) in
      if ltb st.perr_fill 2 then of_ℕ d 0 else rate_of d_frames d_errs

  unfoldable pub phy_mean : Client D → D
  unfolding sum
  phy_mean st =
      if st.phy_fill == 0
      then of_ℕ d 0
      else d.div (of_ℕ d (sum (take st.phy_fill st.phy_window) % 2 ^ 64)) (of_ℕ d st.phy_fill)

  -- `accum += d * d` over the window, with `d` the distance from the mean.
  unfoldable pub square_deviations : D → D → List ℕ → D
  square_deviations mean accum [] = accum
  square_deviations mean accum (x ∷ xs) =
      let diff = d.sub (of_ℕ d x) mean in square_deviations mean (d.add accum (d.mul diff diff)) xs

  unfoldable pub phy_instability : Client D → ℤ
  unfolding square_deviations phy_mean
  phy_instability st =
      let accum = square_deviations (phy_mean st) (of_ℕ d 0) (take st.phy_fill st.phy_window) in
      if ltb st.phy_fill 2
      then pos 0
      else d.to_i32 (d.div (d.div accum (of_ℕ d st.phy_fill)) (of_ℕ d 1000000))

  unfoldable pub band_widen : Band D → D → Band D
  band_widen b v =
      if b.primed
      then record b { lo = if d.lt v b.lo then v else b.lo; hi = if d.lt b.hi v then v else b.hi }
      else record { lo = v; hi = v; primed = true }
