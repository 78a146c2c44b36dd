-- ===== src/Tests/WireTests.antt =====
-- live/dhan/wire.py: packets read, and the theorems there, over the whole numbers.
use trading_workstation.Prelude.{
  ℕ, ◌+◌, ◌≤◌, ◌≡◌, ◌↔◌, refl, none, some, List, [], ◌∷◌, pos, negsuc, length, Whole, whole,
  whole_double, arith,
}
use trading_workstation.Live.Dhan.Wire.Bytes.{i16, i32, f32}
use trading_workstation.Live.Dhan.Wire.Packets.{
  DhanPacketHeader, DhanDepthLevel, DhanPacket, ticker, full, nse_eq, subscribe_quote,
}
use trading_workstation.Live.Dhan.Wire.Bodies.{header_size, header_struct, ticker_body}
use trading_workstation.Live.Dhan.Wire.{
  parse_header, parse_ticker, parse_body, parse_packet, build_subscribe_message,
}
use trading_workstation.Live.Dhan.Wire.Encode.{encode}
use trading_workstation.Live.Dhan.Wire.Ranges.{Encodable, real_packet}
use trading_workstation.Live.Dhan.Wire.RoundTrip.{parse_packet-encode}
use trading_workstation.Live.Dhan.Wire.Sizes.{body_size, parse_packet_returns_iff}

abbrev pattern_value : ℕ → Whole
pattern_value w = whole (pos w)

-- a ticker packet with a payload length of 16, of the security 2885 on NSE_EQ, and one byte more
abbrev ticker_bytes : List ℕ
ticker_bytes = 2 ∷ 16 ∷ 0 ∷ 1 ∷ 69 ∷ 11 ∷ 0 ∷ 0 ∷ 100 ∷ 0 ∷ 0 ∷ 0 ∷ 255 ∷ 255 ∷ 255 ∷ 255 ∷ 7 ∷ []

abbrev ticker_header : DhanPacketHeader
ticker_header = record {
  response_code = 2;
  payload_length = pos 16;
  exchange_segment = nse_eq;
  security_id = pos 2885;
}

reads_ticker :
    parse_packet pattern_value ticker_bytes
    ≡ some (
        ticker (record {
          header = ticker_header;
          last_traded_price = whole (pos 100);
          last_trade_time_epoch = negsuc 0;
        }))
unfolding parse_packet parse_header parse_body parse_ticker header_struct ticker_body i16 i32 f32
reads_ticker = refl

-- one byte short
refuses_truncated :
    parse_packet pattern_value
      (2 ∷ 16 ∷ 0 ∷ 1 ∷ 69 ∷ 11 ∷ 0 ∷ 0 ∷ 100 ∷ 0 ∷ 0 ∷ 0 ∷ 255 ∷ 255 ∷ 255 ∷ [])
    ≡ none
unfolding parse_packet parse_header parse_body parse_ticker header_struct ticker_body i16 i32 f32
refuses_truncated = refl

subscribes :
    build_subscribe_message subscribe_quote ((nse_eq, 2885) ∷ [])
    ≡ some
        (record { request_code = 17; instrument_count = 1; instrument_list = (nse_eq, 2885) ∷ [] })
unfolding build_subscribe_message
subscribes = refl

abbrev level : DhanDepthLevel ℕ
level = record {
  bid_quantity = pos 10;
  ask_quantity = pos 12;
  bid_orders = pos 1;
  ask_orders = negsuc 2;
  bid_price = 99;
  ask_price = 101;
}

abbrev full_packet : DhanPacket ℕ
full_packet = full (record {
  header = record ticker_header { response_code = 8; payload_length = pos 162 };
  last_traded_price = 100;
  last_traded_quantity = pos 5;
  last_trade_time_epoch = pos 1_700_000_000;
  average_trade_price = 99;
  volume = pos 1000;
  total_sell_quantity = pos 400;
  total_buy_quantity = pos 600;
  open_interest = pos 0;
  day_open = 98;
  day_close = 97;
  day_high = 103;
  day_low = 96;
  depth = level ∷ level ∷ level ∷ level ∷ level ∷ [];
})

encodable : Encodable full_packet (pos 3) (pos 2)
encodable = omega arith

parse_packet-encode_example :
    parse_packet pattern_value (encode full_packet (pos 3) (pos 2) (9 ∷ []))
    ≡ some (real_packet pattern_value full_packet)
parse_packet-encode_example =
    parse_packet-encode pattern_value full_packet (pos 3) (pos 2) (9 ∷ []) encodable

parse_packet_returns_iff_example :
    ((p : DhanPacket Whole) × (parse_packet pattern_value ticker_bytes ≡ some p)) ↔ (
      (h : DhanPacketHeader) × (size : ℕ) × (parse_header ticker_bytes ≡ some h)
      × (body_size h.response_code ≡ some size)
      × (header_size + size ≤ length ticker_bytes))
parse_packet_returns_iff_example = parse_packet_returns_iff pattern_value ticker_bytes
