-- ===== src/Live/Dhan/Wire/Encode.antt =====
-- The documented layout of the packets that live/dhan/wire.py reads, written as an encoder, and the
-- packets that have an encoding. Here a float32 is its pattern of 32 bits.
use trading_workstation.Prelude.{ℕ, ◌-◌, ◌*◌, ◌/◌, ◌%◌, List, [], ◌∷◌, ℤ, pos, negsuc}
use trading_workstation.Live.Dhan.Wire.Packets.{
  DhanExchangeSegment, idx_i, nse_eq, nse_fno, nse_currency, bse_eq, mcx_comm, bse_currency,
  bse_fno, DhanPacketHeader, DhanQuotePacket, DhanDepthLevel, DhanFullPacket, DhanPacket, ticker,
  prev_close, quote, oi, full, disconnect_notice,
}

-- An encoder writes in front of the bytes it is given.
unfoldable pub put_u16 : ℕ → List ℕ → List ℕ
put_u16 w rest = (w % 256) ∷ (w / 256) ∷ rest

unfoldable pub put_f32 : ℕ → List ℕ → List ℕ
put_f32 w rest = (w % 256) ∷ (w / 256 % 256) ∷ (w / 65_536 % 256) ∷ (w / 16_777_216) ∷ rest

-- the two's complement
abbrev pub unsigned : ℕ → ℤ → ℕ
unsigned half (pos n) = n
unsigned half (negsuc n) = 2 * half - 1 - n

unfoldable pub put_i16 : ℤ → List ℕ → List ℕ
put_i16 z = put_u16 (unsigned 32_768 z)

unfoldable pub put_i32 : ℤ → List ℕ → List ℕ
put_i32 z = put_f32 (unsigned 2_147_483_648 z)

abbrev pub wire_byte : DhanExchangeSegment → ℕ
wire_byte idx_i = 0
wire_byte nse_eq = 1
wire_byte nse_fno = 2
wire_byte nse_currency = 3
wire_byte bse_eq = 4
wire_byte mcx_comm = 5
wire_byte bse_currency = 7
wire_byte bse_fno = 8

unfoldable pub put_header : DhanPacketHeader → List ℕ → List ℕ
put_header h rest =
    h.response_code
    ∷ put_i16 h.payload_length (wire_byte h.exchange_segment ∷ put_i32 h.security_id rest)

unfoldable pub put_ticker_body : ℕ → ℤ → List ℕ → List ℕ
put_ticker_body value second rest = put_f32 value (put_i32 second rest)

unfoldable pub put_quote_body : DhanQuotePacket ℕ → List ℕ → List ℕ
put_quote_body q rest = put_f32 q.last_traded_price (
    put_i16 q.last_traded_quantity (
      put_i32 q.last_trade_time_epoch (
        put_f32 q.average_trade_price (
          put_i32 q.volume (
            put_i32 q.total_sell_quantity (
              put_i32 q.total_buy_quantity (
                put_f32 q.day_open
                  (put_f32 q.day_close (put_f32 q.day_high (put_f32 q.day_low rest))))))))))

unfoldable pub put_full_prefix : DhanFullPacket ℕ → ℤ → ℤ → List ℕ → List ℕ
put_full_prefix q high_oi low_oi rest = put_f32 q.last_traded_price (
    put_i16 q.last_traded_quantity (
      put_i32 q.last_trade_time_epoch (
        put_f32 q.average_trade_price (
          put_i32 q.volume (
            put_i32 q.total_sell_quantity (
              put_i32 q.total_buy_quantity (
                put_i32 q.open_interest (
                  put_i32 high_oi (
                    put_i32 low_oi (
                      put_f32 q.day_open (
                        put_f32 q.day_close (put_f32 q.day_high (put_f32 q.day_low rest)))))))))))))

unfoldable pub put_level : DhanDepthLevel ℕ → List ℕ → List ℕ
put_level l rest = put_i32 l.bid_quantity (
    put_i32 l.ask_quantity (
      put_i16 l.bid_orders (put_i16 l.ask_orders (put_f32 l.bid_price (put_f32 l.ask_price rest)))))

abbrev pub put_levels : List (DhanDepthLevel ℕ) → List ℕ → List ℕ
put_levels [] rest = rest
put_levels (l ∷ levels) rest = put_level l (put_levels levels rest)

abbrev pub header_of : {Real : Type 0} → DhanPacket Real → DhanPacketHeader
header_of (ticker p) = p.header
header_of (prev_close p) = p.header
header_of (quote p) = p.header
header_of (oi p) = p.header
header_of (full p) = p.header
header_of (disconnect_notice p) = p.header

-- The two numbers are the fields of a full packet that the reader drops.
abbrev pub put_body : DhanPacket ℕ → ℤ → ℤ → List ℕ → List ℕ
put_body (ticker p) high_oi low_oi rest =
    put_ticker_body p.last_traded_price p.last_trade_time_epoch rest
put_body (prev_close p) high_oi low_oi rest =
    put_ticker_body p.previous_close p.previous_open_interest rest
put_body (quote p) high_oi low_oi rest = put_quote_body p rest
put_body (oi p) high_oi low_oi rest = put_i32 p.open_interest rest
put_body (full p) high_oi low_oi rest = put_full_prefix p high_oi low_oi (put_levels p.depth rest)
put_body (disconnect_notice p) high_oi low_oi rest = put_i16 p.reason_code rest

-- The last list is what follows the packet in the buffer.
abbrev pub encode : DhanPacket ℕ → ℤ → ℤ → List ℕ → List ℕ
encode p high_oi low_oi rest = put_header (header_of p) (put_body p high_oi low_oi rest)
