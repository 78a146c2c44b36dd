-- ===== src/Live/Dhan/Wire/Lengths.antt =====
-- The lengths of the encodings, and what stands behind their parts.
use trading_workstation.Prelude.{
  ℕ, suc, ◌++◌, ◌+◌, ◌*◌, ◌≡◌, refl, List, [], ◌∷◌, ℤ, length, ltb, false, arith,
}
use trading_workstation.Live.Dhan.Wire.Bytes.{drop, drop-add}
use trading_workstation.Live.Dhan.Wire.Packets.{
  DhanPacketHeader, DhanQuotePacket, DhanDepthLevel, DhanFullPacket,
}
use trading_workstation.Live.Dhan.Wire.Bodies.{
  header_size, ticker_size, oi_size, disconnect_size, quote_size, full_prefix_size,
  depth_level_size,
}
use trading_workstation.Live.Dhan.Wire.Encode.{
  put_u16, put_f32, put_i16, put_i32, put_header, put_ticker_body, put_quote_body, put_full_prefix,
  put_level, put_levels,
}

pub enough : (k n : ℕ) → ltb (k + n) k ≡ false
enough k n = ground arith

pub length-put_header :
    (h : DhanPacketHeader) (rest : List ℕ) → length (put_header h rest) ≡ header_size + length rest
unfolding put_header put_i16 put_i32 put_u16 put_f32
length-put_header h rest = omega arith

pub drop-put_header :
    (h : DhanPacketHeader) (rest : List ℕ) → drop header_size (put_header h rest) ≡ rest
unfolding put_header put_i16 put_i32 put_u16 put_f32
drop-put_header h rest = refl

pub length-put_i32 : (z : ℤ) (rest : List ℕ) → length (put_i32 z rest) ≡ oi_size + length rest
unfolding put_i32 put_f32
length-put_i32 z rest = omega arith

pub length-put_i16 :
    (z : ℤ) (rest : List ℕ) → length (put_i16 z rest) ≡ disconnect_size + length rest
unfolding put_i16 put_u16
length-put_i16 z rest = omega arith

pub length-put_ticker_body :
    (value : ℕ) (second : ℤ) (rest : List ℕ)
    → length (put_ticker_body value second rest) ≡ ticker_size + length rest
unfolding put_ticker_body put_i32 put_f32
length-put_ticker_body value second rest = omega arith

pub length-put_quote_body :
    (q : DhanQuotePacket ℕ) (rest : List ℕ)
    → length (put_quote_body q rest) ≡ quote_size + length rest
unfolding put_quote_body put_i16 put_i32 put_u16 put_f32
length-put_quote_body q rest = omega arith

pub length-put_full_prefix :
    (q : DhanFullPacket ℕ) (high_oi low_oi : ℤ) (rest : List ℕ)
    → length (put_full_prefix q high_oi low_oi rest) ≡ full_prefix_size + length rest
unfolding put_full_prefix put_i16 put_i32 put_u16 put_f32
length-put_full_prefix q high_oi low_oi rest = omega arith

pub length-put_level :
    (l : DhanDepthLevel ℕ) (rest : List ℕ)
    → length (put_level l rest) ≡ depth_level_size + length rest
unfolding put_level put_i16 put_i32 put_u16 put_f32
length-put_level l rest = omega arith

pub length-put_levels :
    (levels : List (DhanDepthLevel ℕ)) (rest : List ℕ)
    → length (put_levels levels rest) ≡ length levels * depth_level_size + length rest
length-put_levels [] rest = omega arith
length-put_levels (l ∷ levels) rest =
    omega (arith, length-put_level l (put_levels levels rest), length-put_levels levels rest)

pub length-put_full :
    (q : DhanFullPacket ℕ) (high_oi low_oi : ℤ) (levels : List (DhanDepthLevel ℕ)) (rest : List ℕ)
    → length levels ≡ 5
    → length (put_full_prefix q high_oi low_oi (put_levels levels rest))
      ≡ full_prefix_size + 5 * depth_level_size + length rest
length-put_full q hi lo levels rest five =
    omega (
      arith,
      length-put_full_prefix q hi lo (put_levels levels rest),
      length-put_levels levels rest,
    )

pub drop-put_full_prefix :
    (q : DhanFullPacket ℕ) (high_oi low_oi : ℤ) (rest : List ℕ)
    → drop full_prefix_size (put_full_prefix q high_oi low_oi rest) ≡ rest
unfolding put_full_prefix put_i16 put_i32 put_u16 put_f32
drop-put_full_prefix q high_oi low_oi rest = refl

pub drop-put_level :
    (l : DhanDepthLevel ℕ) (rest : List ℕ) → drop depth_level_size (put_level l rest) ≡ rest
unfolding put_level put_i16 put_i32 put_u16 put_f32
drop-put_level l rest = refl

pub suc_times : (m : ℕ) → suc m * depth_level_size ≡ depth_level_size + m * depth_level_size
suc_times m = omega arith

pub drop-put_levels :
    (before after : List (DhanDepthLevel ℕ)) (rest : List ℕ)
    → drop (length before * depth_level_size) (put_levels (before ++ after) rest)
      ≡ put_levels after rest
drop-put_levels [] after rest = refl
drop-put_levels (l ∷ before) after rest =
    rw (suc_times, drop-add, drop-put_level) (drop-put_levels before after rest)
