-- ===== src/Live/Dhan/Wire/Bodies.antt =====
-- live/dhan/wire.py: the `struct` formats of the header and of the bodies, with their sizes.
use trading_workstation.Prelude.{ℕ, ℤ, List}
use trading_workstation.Live.Dhan.Wire.Bytes.{Reader, ◌>>=◌, pure, u8, i16, i32, f32}
use trading_workstation.Live.Dhan.Wire.Packets.{
  DhanPacketHeader, DhanQuotePacket, DhanDepthLevel, DhanFullPacket,
}

abbrev pub header_size : ℕ
header_size = 8

-- <BhBi
unfoldable pub header_struct : Reader (ℕ × ℤ × ℕ × ℤ)
header_struct = do
  response_code ← u8
  payload_length ← i16
  segment_byte ← u8
  security_id ← i32
  pure (response_code, payload_length, segment_byte, security_id)

abbrev pub ticker_size : ℕ
ticker_size = 8

-- <fi
unfoldable pub ticker_body : Reader (ℕ × ℤ)
ticker_body = do value ← f32; second ← i32; pure (value, second)

abbrev pub oi_size : ℕ
oi_size = 4

abbrev pub disconnect_size : ℕ
disconnect_size = 2

abbrev pub quote_size : ℕ
quote_size = 42

module _ {F : Type 0} (real : ℕ → F) (header : DhanPacketHeader) where
  -- <fhifiiiffff
  unfoldable pub quote_body : Reader (DhanQuotePacket F)
  quote_body = do
    ltp ← f32
    ltq ← i16
    ltt ← i32
    atp ← f32
    volume ← i32
    sell_qty ← i32
    buy_qty ← i32
    day_open ← f32
    day_close ← f32
    day_high ← f32
    day_low ← f32
    pure (record {
      header = header;
      last_traded_price = real ltp;
      last_traded_quantity = ltq;
      last_trade_time_epoch = ltt;
      average_trade_price = real atp;
      volume = volume;
      total_sell_quantity = sell_qty;
      total_buy_quantity = buy_qty;
      day_open = real day_open;
      day_close = real day_close;
      day_high = real day_high;
      day_low = real day_low;
    })

  -- <fhifiiiiiiffff; the high and the low of the open interest are dropped
  unfoldable pub full_body_prefix : Reader (List (DhanDepthLevel F) → DhanFullPacket F)
  full_body_prefix = do
    ltp ← f32
    ltq ← i16
    ltt ← i32
    atp ← f32
    volume ← i32
    sell_qty ← i32
    buy_qty ← i32
    oi ← i32
    high_oi ← i32
    low_oi ← i32
    day_open ← f32
    day_close ← f32
    day_high ← f32
    day_low ← f32
    pure (λ depth. record {
      header = header;
      last_traded_price = real ltp;
      last_traded_quantity = ltq;
      last_trade_time_epoch = ltt;
      average_trade_price = real atp;
      volume = volume;
      total_sell_quantity = sell_qty;
      total_buy_quantity = buy_qty;
      open_interest = oi;
      day_open = real day_open;
      day_close = real day_close;
      day_high = real day_high;
      day_low = real day_low;
      depth = depth;
    })

module _ {F : Type 0} (real : ℕ → F) where
  -- <iihhff
  unfoldable pub depth_level : Reader (DhanDepthLevel F)
  depth_level = do
    bid_quantity ← i32
    ask_quantity ← i32
    bid_orders ← i16
    ask_orders ← i16
    bid_price ← f32
    ask_price ← f32
    pure (record {
      bid_quantity = bid_quantity;
      ask_quantity = ask_quantity;
      bid_orders = bid_orders;
      ask_orders = ask_orders;
      bid_price = real bid_price;
      ask_price = real ask_price;
    })

abbrev pub full_prefix_size : ℕ
full_prefix_size = 54

abbrev pub depth_level_size : ℕ
depth_level_size = 20
