-- ===== src/Live/Dhan/Wire/Readers.antt =====
-- live/dhan/wire.py: the readers do not fail on a buffer of their size, so that a `struct.error`
-- never arises past the tests on the length.
use trading_workstation.Prelude.{
  ℕ, false, ◌-◌, ◌≤◌, ◌≡◌, refl, sym, ◌∙◌, some, List, [], ◌∷◌, ℤ, length, ltb, arith,
}
use trading_workstation.Live.Dhan.Wire.Bytes.{Reader, ◌>>=◌, >>=-pure, pure, u8, u32, i16, i32, f32}
use trading_workstation.Live.Dhan.Wire.Packets.{DhanPacketHeader}
use trading_workstation.Live.Dhan.Wire.Bodies.{
  header_size, header_struct, ticker_size, ticker_body, oi_size, disconnect_size, quote_size,
  quote_body, full_body_prefix, depth_level, full_prefix_size, depth_level_size,
}

-- The reader returns on a buffer of at least n bytes.
pub record Reads {A : Type 0} (n : ℕ) (m : Reader A) : Type 0 where
  pub returns : (bytes : List ℕ) → n ≤ length bytes → (r : A × List ℕ) × (m bytes ≡ some r)

module _ {A : Type 0} where
  pub pure-Reads : (n : ℕ) (a : A) → Reads n (pure a)
  pure-Reads n a = record { returns = λ bytes h. ((a, bytes), refl) }

  u8_returns :
      (n : ℕ) (f : ℕ → Reader A)
      → ltb n 1 ≡ false
      → ((a : ℕ) → Reads (n - 1) (f a))
      → (bytes : List ℕ) → n ≤ length bytes
      → (r : A × List ℕ) × ((u8 >>= f) bytes ≡ some r)
  u8_returns n f h k (a ∷ bytes) enough = (k a).returns bytes (ground arith)
  u8_returns n f h k [] enough = ground arith

  i16_returns :
      (n : ℕ) (f : ℤ → Reader A)
      → ltb n 2 ≡ false
      → ((a : ℤ) → Reads (n - 2) (f a))
      → (bytes : List ℕ) → n ≤ length bytes
      → (r : A × List ℕ) × ((i16 >>= f) bytes ≡ some r)
  unfolding i16
  i16_returns n f h k (a ∷ b ∷ bytes) enough = (k _).returns bytes (ground arith)
  i16_returns n f h k (a ∷ []) enough = ground arith
  i16_returns n f h k [] enough = ground arith

  u32_returns :
      (n : ℕ) (f : ℕ → Reader A)
      → ltb n 4 ≡ false
      → ((a : ℕ) → Reads (n - 4) (f a))
      → (bytes : List ℕ) → n ≤ length bytes
      → (r : A × List ℕ) × ((u32 >>= f) bytes ≡ some r)
  u32_returns n f h k (a ∷ b ∷ c ∷ d ∷ bytes) enough = (k _).returns bytes (ground arith)
  u32_returns n f h k (a ∷ b ∷ c ∷ []) enough = ground arith
  u32_returns n f h k (a ∷ b ∷ []) enough = ground arith
  u32_returns n f h k (a ∷ []) enough = ground arith
  u32_returns n f h k [] enough = ground arith

  i32_returns :
      (n : ℕ) (f : ℤ → Reader A)
      → ltb n 4 ≡ false
      → ((a : ℤ) → Reads (n - 4) (f a))
      → (bytes : List ℕ) → n ≤ length bytes
      → (r : A × List ℕ) × ((i32 >>= f) bytes ≡ some r)
  unfolding i32
  i32_returns n f h k (a ∷ b ∷ c ∷ d ∷ bytes) enough = (k _).returns bytes (ground arith)
  i32_returns n f h k (a ∷ b ∷ c ∷ []) enough = ground arith
  i32_returns n f h k (a ∷ b ∷ []) enough = ground arith
  i32_returns n f h k (a ∷ []) enough = ground arith
  i32_returns n f h k [] enough = ground arith

  u8_then :
      (n : ℕ) (f : ℕ → Reader A)
      → ((a : ℕ) → Reads (n - 1) (f a))
      → ltb n 1 ≡ false
      → Reads n (u8 >>= f)
  u8_then n f k h = record { returns = u8_returns n f h k }

  f32_then :
      (n : ℕ) (f : ℕ → Reader A)
      → ((a : ℕ) → Reads (n - 4) (f a))
      → ltb n 4 ≡ false
      → Reads n (f32 >>= f)
  unfolding f32
  f32_then n f k h = record { returns = u32_returns n f h k }

  i32_then :
      (n : ℕ) (f : ℤ → Reader A)
      → ((a : ℤ) → Reads (n - 4) (f a))
      → ltb n 4 ≡ false
      → Reads n (i32 >>= f)
  i32_then n f k h = record { returns = i32_returns n f h k }

  i16_then :
      (n : ℕ) (f : ℤ → Reader A)
      → ((a : ℤ) → Reads (n - 2) (f a))
      → ltb n 2 ≡ false
      → Reads n (i16 >>= f)
  i16_then n f k h = record { returns = i16_returns n f h k }

ruleset readers = (pure-Reads, u8_then, f32_then, i32_then, i16_then, refl)

pub header_struct-Reads : Reads header_size header_struct
unfolding header_struct
header_struct-Reads = search readers depth 30

pub ticker_body-Reads : Reads ticker_size ticker_body
unfolding ticker_body
ticker_body-Reads = search readers depth 30

then_pure : {A : Type 0} (n : ℕ) (m : Reader A) → Reads n (m >>= pure) → Reads n m
then_pure n m h = record {
  returns = λ bytes enough. let r = h.returns bytes enough in (r.0, sym (>>=-pure m bytes) ∙ r.1);
}

pub i32-Reads : Reads oi_size i32
i32-Reads = then_pure oi_size i32 (search readers depth 30)

pub i16-Reads : Reads disconnect_size i16
i16-Reads = then_pure disconnect_size i16 (search readers depth 30)

module _ {F : Type 0} (real : ℕ → F) (header : DhanPacketHeader) where
  pub quote_body-Reads : Reads quote_size (quote_body real header)
  unfolding quote_body
  quote_body-Reads = search readers depth 30

  pub full_body_prefix-Reads : Reads full_prefix_size (full_body_prefix real header)
  unfolding full_body_prefix
  full_body_prefix-Reads = search readers depth 30

module _ {F : Type 0} (real : ℕ → F) where
  pub depth_level-Reads : Reads depth_level_size (depth_level real)
  unfolding depth_level
  depth_level-Reads = search readers depth 30
