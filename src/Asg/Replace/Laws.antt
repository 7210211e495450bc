-- ===== src/Asg/Replace/Laws.antt =====
-- When a replacement rolls, and with which batch size.
use community_aws.Base.{◌≡◌, ◌⊎◌, string_eq, nat_eq, bool_eq, option_eq}
use community_aws.Base.Int.{ℤ, ◌≤ℤ◌}

-- the smaller of the two sizes
record IsBatchSize (needed size n : ℤ) : Type 0 where
  at_most_needed : n ≤ℤ needed
  at_most_size : n ≤ℤ size
  either : (n ≡ needed) ⊎ (n ≡ size)
