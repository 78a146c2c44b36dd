-- ===== src/Live/Dhan/Wire/Ranges.antt =====
-- The packets of live/dhan/wire.py that have an encoding, and the packet that is read from it.
use trading_workstation.Prelude.{ℕ, ◌<◌, ◌≡◌, List, [], ◌∷◌, All, ℤ, length}
use mathlib.Core.List.{map}
use trading_workstation.Live.Dhan.Wire.Packets.{
  ticker_code, prev_close_code, quote_code, oi_code, full_code, disconnect_code, DhanPacketHeader,
  DhanQuotePacket, DhanDepthLevel, DhanFullPacket, DhanPacket, ticker, prev_close, quote, oi, full,
  disconnect_notice,
}
use trading_workstation.Live.Dhan.Wire.Fields.{Fits, half_16, half_32, f32_bound}

-- The ranges of a packet's fields: signed numbers of 16 and of 32 bits, and patterns of 32 bits.
abbrev pub InRange : List ℤ → List ℤ → List ℕ → Type 0
InRange shorts longs patterns =
    All (Fits half_16) shorts × All (Fits half_32) longs × All (λ w. w < f32_bound) patterns

abbrev pub HeaderFits : ℕ → DhanPacketHeader → Type 0
HeaderFits code h =
    (h.response_code ≡ code) × InRange (h.payload_length ∷ []) (h.security_id ∷ []) []

abbrev pub QuoteFits : DhanQuotePacket ℕ → Type 0
QuoteFits q =
    InRange (q.last_traded_quantity ∷ [])
      (q.last_trade_time_epoch ∷ q.volume ∷ q.total_sell_quantity ∷ q.total_buy_quantity ∷ [])
      (q.last_traded_price ∷ q.average_trade_price ∷ q.day_open ∷ q.day_close ∷ q.day_high
        ∷ q.day_low ∷ [])

abbrev pub FullFits : DhanFullPacket ℕ → ℤ → ℤ → Type 0
FullFits q high_oi low_oi =
    InRange (q.last_traded_quantity ∷ [])
      (q.last_trade_time_epoch ∷ q.volume ∷ q.total_sell_quantity ∷ q.total_buy_quantity
        ∷ q.open_interest ∷ high_oi ∷ low_oi ∷ [])
      (q.last_traded_price ∷ q.average_trade_price ∷ q.day_open ∷ q.day_close ∷ q.day_high
        ∷ q.day_low ∷ [])

abbrev pub LevelFits : DhanDepthLevel ℕ → Type 0
LevelFits l =
    InRange (l.bid_orders ∷ l.ask_orders ∷ []) (l.bid_quantity ∷ l.ask_quantity ∷ [])
      (l.bid_price ∷ l.ask_price ∷ [])

-- The code is that of the kind, and the fields are in range; a full packet has five levels.
abbrev pub Encodable : DhanPacket ℕ → ℤ → ℤ → Type 0
Encodable (ticker p) high_oi low_oi =
    HeaderFits ticker_code p.header
    × InRange [] (p.last_trade_time_epoch ∷ []) (p.last_traded_price ∷ [])
Encodable (prev_close p) high_oi low_oi =
    HeaderFits prev_close_code p.header
    × InRange [] (p.previous_open_interest ∷ []) (p.previous_close ∷ [])
Encodable (quote p) high_oi low_oi = HeaderFits quote_code p.header × QuoteFits p
Encodable (oi p) high_oi low_oi = HeaderFits oi_code p.header × InRange [] (p.open_interest ∷ []) []
Encodable (full p) high_oi low_oi =
    HeaderFits full_code p.header
    × FullFits p high_oi low_oi
    × (length p.depth ≡ 5)
    × All LevelFits p.depth
Encodable (disconnect_notice p) high_oi low_oi =
    HeaderFits disconnect_code p.header × InRange (p.reason_code ∷ []) [] []

module _ {F : Type 0} (real : ℕ → F) where
  abbrev pub real_quote : DhanQuotePacket ℕ → DhanQuotePacket F
  real_quote q = record {
    header = q.header;
    last_traded_price = real q.last_traded_price;
    last_traded_quantity = q.last_traded_quantity;
    last_trade_time_epoch = q.last_trade_time_epoch;
    average_trade_price = real q.average_trade_price;
    volume = q.volume;
    total_sell_quantity = q.total_sell_quantity;
    total_buy_quantity = q.total_buy_quantity;
    day_open = real q.day_open;
    day_close = real q.day_close;
    day_high = real q.day_high;
    day_low = real q.day_low;
  }

  abbrev pub real_full : DhanFullPacket ℕ → List (DhanDepthLevel F) → DhanFullPacket F
  real_full q depth = record {
    header = q.header;
    last_traded_price = real q.last_traded_price;
    last_traded_quantity = q.last_traded_quantity;
    last_trade_time_epoch = q.last_trade_time_epoch;
    average_trade_price = real q.average_trade_price;
    volume = q.volume;
    total_sell_quantity = q.total_sell_quantity;
    total_buy_quantity = q.total_buy_quantity;
    open_interest = q.open_interest;
    day_open = real q.day_open;
    day_close = real q.day_close;
    day_high = real q.day_high;
    day_low = real q.day_low;
    depth = depth;
  }

  abbrev pub real_level : DhanDepthLevel ℕ → DhanDepthLevel F
  real_level l = record {
    bid_quantity = l.bid_quantity;
    ask_quantity = l.ask_quantity;
    bid_orders = l.bid_orders;
    ask_orders = l.ask_orders;
    bid_price = real l.bid_price;
    ask_price = real l.ask_price;
  }

  abbrev pub real_packet : DhanPacket ℕ → DhanPacket F
  real_packet (ticker p) = ticker (record {
    header = p.header;
    last_traded_price = real p.last_traded_price;
    last_trade_time_epoch = p.last_trade_time_epoch;
  })
  real_packet (prev_close p) = prev_close (record {
    header = p.header;
    previous_close = real p.previous_close;
    previous_open_interest = p.previous_open_interest;
  })
  real_packet (quote p) = quote (real_quote p)
  real_packet (oi p) = oi p
  real_packet (full p) = full (real_full p (map real_level p.depth))
  real_packet (disconnect_notice p) = disconnect_notice p
