-- ===== src/Platform.antt =====
-- What the program takes from outside its sources: C++ `double`s, and the address that ns-3's
-- `Ipv4Address()` holds. Nothing is assumed of them but what a theorem names.
use fp_jaringan_nirkabel.Base.{ℕ, ℤ, Bool, if◌then◌else◌}

pub record Platform (D : Type 0) : Type 0 where
  -- The literal whose digits are those of the integer, so many of them behind the point.
  pub decimal : ℤ → ℕ → D
  pub of_ℕ : ℕ → D
  pub add : D → D → D
  pub sub : D → D → D
  pub mul : D → D → D
  pub div : D → D → D
  pub lt : D → D → Bool
  pub default_address : ℕ

-- `std::max` and `std::min` keep their first argument unless the second is on the better side.
module _ {D : Type 0} ⦃o : Platform D⦄ where
  unfoldable pub max_double : D → D → D
  max_double a b = if o.lt a b then b else a

  unfoldable pub min_double : D → D → D
  min_double a b = if o.lt b a then b else a
