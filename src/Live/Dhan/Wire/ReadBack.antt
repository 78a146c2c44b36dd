-- ===== src/Live/Dhan/Wire/ReadBack.antt =====
-- Each `struct` format of live/dhan/wire.py reads back what its encoder writes.
use trading_workstation.Prelude.{ℕ, ◌≡◌, refl, some, List, [], ◌∷◌, ℤ}
use trading_workstation.Live.Dhan.Wire.Packets.{
  DhanPacketHeader, DhanQuotePacket, DhanDepthLevel, DhanFullPacket, idx_i, nse_eq, nse_fno,
  nse_currency, bse_eq, mcx_comm, bse_currency, bse_fno, DhanExchangeSegment,
  exchange_segment_by_wire_byte,
}
use trading_workstation.Live.Dhan.Wire.Bodies.{
  header_struct, ticker_body, quote_body, full_body_prefix, depth_level,
}
use trading_workstation.Live.Dhan.Wire.Encode.{
  put_header, put_ticker_body, put_quote_body, put_full_prefix, put_level, wire_byte,
}
use trading_workstation.Live.Dhan.Wire.Fields.{fields}
use trading_workstation.Live.Dhan.Wire.Ranges.{
  InRange, QuoteFits, FullFits, LevelFits, real_quote, real_full, real_level,
}

pub ticker_body-put_ticker_body :
    (value : ℕ) (second : ℤ) (rest : List ℕ)
    → InRange [] (second ∷ []) (value ∷ [])
    → ticker_body (put_ticker_body value second rest) ≡ some ((value, second), rest)
unfolding ticker_body put_ticker_body
ticker_body-put_ticker_body value second rest h = search fields

pub segment_of_byte :
    (s : DhanExchangeSegment) → exchange_segment_by_wire_byte (wire_byte s) ≡ some s
segment_of_byte idx_i = refl
segment_of_byte nse_eq = refl
segment_of_byte nse_fno = refl
segment_of_byte nse_currency = refl
segment_of_byte bse_eq = refl
segment_of_byte mcx_comm = refl
segment_of_byte bse_currency = refl
segment_of_byte bse_fno = refl

pub header_struct-put_header :
    (h : DhanPacketHeader) (rest : List ℕ)
    → InRange (h.payload_length ∷ []) (h.security_id ∷ []) []
    → header_struct (put_header h rest)
      ≡ some
          ((h.response_code, h.payload_length, wire_byte h.exchange_segment, h.security_id), rest)
unfolding header_struct put_header
header_struct-put_header h rest fits = search fields

module _ {F : Type 0} (real : ℕ → F) where
  pub quote_body-put_quote_body :
      (q : DhanQuotePacket ℕ) (rest : List ℕ)
      → QuoteFits q
      → quote_body real q.header (put_quote_body q rest) ≡ some (real_quote real q, rest)
  unfolding quote_body put_quote_body
  quote_body-put_quote_body q rest h = search fields

  pub full_body_prefix-put_full_prefix :
      (q : DhanFullPacket ℕ) (high_oi low_oi : ℤ) (rest : List ℕ)
      → FullFits q high_oi low_oi
      → full_body_prefix real q.header (put_full_prefix q high_oi low_oi rest)
        ≡ some (real_full real q, rest)
  unfolding full_body_prefix put_full_prefix
  full_body_prefix-put_full_prefix q high_oi low_oi rest h = search fields

  pub depth_level-put_level :
      (l : DhanDepthLevel ℕ) (rest : List ℕ)
      → LevelFits l
      → depth_level real (put_level l rest) ≡ some (real_level real l, rest)
  unfolding depth_level put_level
  depth_level-put_level l rest h = search fields
