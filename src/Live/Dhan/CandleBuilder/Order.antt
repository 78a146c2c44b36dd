-- ===== src/Live/Dhan/CandleBuilder/Order.antt =====
-- What the bars of live/dhan/candle_builder.py rely on of the order of floats. IEEE arithmetic has
-- these properties.
use trading_workstation.Prelude.{arith, ◌≡◌, true, false, Double, num, fmax}
use trading_workstation.Live.Dhan.CandleBuilder.{fmin}

pub record FiniteOrder (F : Type 0) ⦃d : Double F⦄ : Type 0 where
  pub zero_finite : d.is_finite (num 0) ≡ true
  pub le_refl : (a : F) → d.is_finite a ≡ true → d.le a a ≡ true
  pub le_trans : (a b c : F) → d.le a b ≡ true → d.le b c ≡ true → d.le a c ≡ true
  pub lt_le : (a b : F) → d.lt a b ≡ true → d.le a b ≡ true
  pub not_lt :
      (a b : F) → d.is_finite a ≡ true → d.is_finite b ≡ true → d.lt a b ≡ false → d.le b a ≡ true
  pub not_le :
      (a b : F) → d.is_finite a ≡ true → d.is_finite b ≡ true → d.le a b ≡ false → d.lt b a ≡ true
  pub lt_not_eq : (a b : F) → d.lt a b ≡ true → d.eq b a ≡ false
  pub add_not_negative :
      (a b : F) → d.le (num 0) a ≡ true → d.le (num 0) b ≡ true → d.le (num 0) (d.add a b) ≡ true

module _ {F : Type 0} ⦃d : Double F⦄ (order : FiniteOrder F) where
  open d use {is_finite, le, lt}
  open order use {le_refl, le_trans, lt_le, not_lt}

  -- A maximum is above both and is one of them, and a minimum likewise below.
  pub le-fmax_left : (a b : F) → is_finite a ≡ true → le a (fmax a b) ≡ true
  le-fmax_left a b h = ground (arith, le_refl a h, lt_le a b)

  pub le-fmax_right : (a b : F) → is_finite a ≡ true → is_finite b ≡ true → le b (fmax a b) ≡ true
  le-fmax_right a b h k = ground (arith, le_refl b k, not_lt a b h k)

  pub le-fmin_left : (a b : F) → is_finite a ≡ true → le (fmin a b) a ≡ true
  le-fmin_left a b h = ground (arith, le_refl a h, lt_le b a)

  pub le-fmin_right : (a b : F) → is_finite a ≡ true → is_finite b ≡ true → le (fmin a b) b ≡ true
  le-fmin_right a b h k = ground (arith, le_refl b k, not_lt b a k h)
