-- ===== src/Platform.antt =====
-- source/wei_platform_cap.c: the table of platform tiers that support the feature. A tier is the
-- number of its enumerator, so that values outside the enumeration have one too.
use wei.Base.{ℕ, ◌≡◌, ◌↔◌, Bool, true, false, List, [], ◌∷◌, arith, if◌then◌else◌, ◌==◌}

abbrev pub tier_unknown : ℕ
tier_unknown = 0

abbrev pub tier_xb8 : ℕ
tier_xb8 = 1

abbrev pub tier_xb7 : ℕ
tier_xb7 = 2

-- `wei_plat_tier_desc_t`.
pub record TierDesc : Type 0 where
  pub tier : ℕ
  pub supported : Bool

abbrev pub tier_table : List TierDesc
tier_table =
    record { tier = tier_unknown; supported = false }
    ∷ record { tier = tier_xb8; supported = true }
    ∷ record { tier = tier_xb7; supported = false }
    ∷ []

unfoldable pub lookup_tier : List TierDesc → ℕ → Bool
lookup_tier [] tier = false
lookup_tier (d ∷ ds) tier = if d.tier == tier then d.supported else lookup_tier ds tier

unfoldable pub tier_supported : ℕ → Bool
unfolding lookup_tier
tier_supported tier = lookup_tier tier_table tier

-- The feature is supported on the tier XB8 and on no other value, inside the enumeration or outside.
pub tier_supported_iff : (tier : ℕ) → (tier_supported tier ≡ true) ↔ (tier ≡ tier_xb8)
unfolding tier_supported
tier_supported_iff tier = ground arith
