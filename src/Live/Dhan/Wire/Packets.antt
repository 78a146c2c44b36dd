-- ===== src/Live/Dhan/Wire/Packets.antt =====
-- live/dhan/wire.py: the codes and the packets. `Real` is the type of a float32.
use trading_workstation.Prelude.{ℕ, Option, none, some, List, ℤ, ◌==◌, if◌then◌else◌}

pub data DhanFeedRequestCode : Type 0 where
  connect disconnect subscribe_ticker unsubscribe_ticker subscribe_quote : DhanFeedRequestCode
  unsubscribe_quote subscribe_full unsubscribe_full subscribe_depth : DhanFeedRequestCode
  unsubscribe_depth : DhanFeedRequestCode

-- the number of a member of the `IntEnum`
abbrev pub request_code_number : DhanFeedRequestCode → ℕ
request_code_number connect = 11
request_code_number disconnect = 12
request_code_number subscribe_ticker = 15
request_code_number unsubscribe_ticker = 16
request_code_number subscribe_quote = 17
request_code_number unsubscribe_quote = 18
request_code_number subscribe_full = 21
request_code_number unsubscribe_full = 22
request_code_number subscribe_depth = 23
request_code_number unsubscribe_depth = 24

-- `DhanFeedResponseCode` is an `IntEnum`: its members are numbers.
abbrev pub index_code : ℕ
index_code = 1

abbrev pub ticker_code : ℕ
ticker_code = 2

abbrev pub quote_code : ℕ
quote_code = 4

abbrev pub oi_code : ℕ
oi_code = 5

abbrev pub prev_close_code : ℕ
prev_close_code = 6

abbrev pub market_status_code : ℕ
market_status_code = 7

abbrev pub full_code : ℕ
full_code = 8

abbrev pub disconnect_code : ℕ
disconnect_code = 50

pub data DhanExchangeSegment : Type 0 where
  idx_i nse_eq nse_fno nse_currency bse_eq mcx_comm bse_currency bse_fno : DhanExchangeSegment

abbrev pub exchange_segment_by_wire_byte : ℕ → Option DhanExchangeSegment
exchange_segment_by_wire_byte byte =
    if byte == 0
    then some idx_i
    else if byte == 1
    then some nse_eq
    else if byte == 2
    then some nse_fno
    else if byte == 3
    then some nse_currency
    else if byte == 4
    then some bse_eq
    else if byte == 5
    then some mcx_comm
    else if byte == 7
    then some bse_currency
    else if byte == 8
    then some bse_fno
    else none

pub record DhanPacketHeader : Type 0 where
  pub response_code : ℕ
  pub payload_length : ℤ
  pub exchange_segment : DhanExchangeSegment
  pub security_id : ℤ

pub record DhanTickerPacket (Real : Type 0) : Type 0 where
  pub header : DhanPacketHeader
  pub last_traded_price : Real
  pub last_trade_time_epoch : ℤ

pub record DhanPrevClosePacket (Real : Type 0) : Type 0 where
  pub header : DhanPacketHeader
  pub previous_close : Real
  pub previous_open_interest : ℤ

pub record DhanQuotePacket (Real : Type 0) : Type 0 where
  pub header : DhanPacketHeader
  pub last_traded_price : Real
  pub last_traded_quantity : ℤ
  pub last_trade_time_epoch : ℤ
  pub average_trade_price : Real
  pub volume : ℤ
  pub total_sell_quantity : ℤ
  pub total_buy_quantity : ℤ
  pub day_open : Real
  pub day_close : Real
  pub day_high : Real
  pub day_low : Real

pub record DhanOpenInterestPacket : Type 0 where
  pub header : DhanPacketHeader
  pub open_interest : ℤ

pub record DhanDepthLevel (Real : Type 0) : Type 0 where
  pub bid_quantity : ℤ
  pub ask_quantity : ℤ
  pub bid_orders : ℤ
  pub ask_orders : ℤ
  pub bid_price : Real
  pub ask_price : Real

pub record DhanFullPacket (Real : Type 0) : Type 0 where
  pub header : DhanPacketHeader
  pub last_traded_price : Real
  pub last_traded_quantity : ℤ
  pub last_trade_time_epoch : ℤ
  pub average_trade_price : Real
  pub volume : ℤ
  pub total_sell_quantity : ℤ
  pub total_buy_quantity : ℤ
  pub open_interest : ℤ
  pub day_open : Real
  pub day_close : Real
  pub day_high : Real
  pub day_low : Real
  pub depth : List (DhanDepthLevel Real)

pub record DhanDisconnectPacket : Type 0 where
  pub header : DhanPacketHeader
  pub reason_code : ℤ

pub data DhanPacket (Real : Type 0) : Type 0 where
  ticker : DhanTickerPacket Real → DhanPacket Real
  prev_close : DhanPrevClosePacket Real → DhanPacket Real
  quote : DhanQuotePacket Real → DhanPacket Real
  oi : DhanOpenInterestPacket → DhanPacket Real
  full : DhanFullPacket Real → DhanPacket Real
  disconnect_notice : DhanDisconnectPacket → DhanPacket Real
