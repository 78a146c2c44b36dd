-- ===== src/Live/Dhan/Wire/Fields.antt =====
-- Each field of live/dhan/wire.py is read back as it was written.
use trading_workstation.Prelude.{ℕ, ◌<◌, ◌≡◌, some, List, ℤ, pos, negsuc, arith}
use trading_workstation.Live.Dhan.Wire.Bytes.{read_then, u32, u16, i16, i32, f32, signed, drop}
use trading_workstation.Live.Dhan.Wire.Encode.{put_u16, put_f32, put_i16, put_i32}

-- the numbers of a signed field
abbrev pub Fits : ℕ → ℤ → Type 0
Fits half (pos n) = n < half
Fits half (negsuc n) = n < half

abbrev pub half_16 : ℕ
half_16 = 32_768

abbrev pub half_32 : ℕ
half_32 = 2_147_483_648

abbrev pub f32_bound : ℕ
f32_bound = 4_294_967_296

pub f32-put_f32 : (w : ℕ) (rest : List ℕ) → w < f32_bound → f32 (put_f32 w rest) ≡ some (w, rest)
unfolding f32 put_f32
f32-put_f32 w rest h = ground arith

pub i32-put_i32 : (z : ℤ) (rest : List ℕ) → Fits half_32 z → i32 (put_i32 z rest) ≡ some (z, rest)
unfolding i32 put_i32 put_f32
i32-put_i32 (pos n) rest h = ground arith
i32-put_i32 (negsuc n) rest h = ground arith

pub i16-put_i16 : (z : ℤ) (rest : List ℕ) → Fits half_16 z → i16 (put_i16 z rest) ≡ some (z, rest)
unfolding i16 put_i16 put_u16
i16-put_i16 (pos n) rest h = ground arith
i16-put_i16 (negsuc n) rest h = ground arith

pub ruleset fields = (read_then, f32-put_f32, i32-put_i32, i16-put_i16)
