-- ===== src/Live/Dhan/Wire.antt =====
-- live/dhan/wire.py: the packets of the feed, and the requests.
pub mod Bytes
pub mod Packets
pub mod Bodies
pub mod Fields
pub mod Encode
pub mod Ranges
pub mod ReadBack
pub mod Lengths
pub mod Dispatch
pub mod RoundTrip
pub mod Readers
pub mod Sizes
use trading_workstation.Prelude.{
  ℕ, ◌+◌, ◌*◌, Bool, ◌||◌, Option, none, some, List, [], ◌∷◌, ltb, ◌==◌, length, if◌then◌else◌,
}
use trading_workstation.Prelude.Options.{◌>>=◌}
use trading_workstation.Live.Dhan.Wire.Bytes.{drop, unpack_from, i16, i32}
use trading_workstation.Live.Dhan.Wire.Packets.{
  DhanFeedRequestCode, request_code_number, disconnect, ticker_code, prev_close_code, quote_code,
  oi_code, full_code, disconnect_code, DhanExchangeSegment, exchange_segment_by_wire_byte,
  DhanPacketHeader, DhanDepthLevel, DhanPacket, ticker, prev_close, quote, oi, full,
  disconnect_notice,
}
use trading_workstation.Live.Dhan.Wire.Bodies.{
  header_size, header_struct, ticker_size, ticker_body, oi_size, disconnect_size, quote_size,
  quote_body, full_body_prefix, depth_level, full_prefix_size, depth_level_size,
}

-- `none` is the DhanWireFormatError, here and below.
unfoldable pub parse_header : List ℕ → Option DhanPacketHeader
parse_header bytes = if ltb (length bytes) header_size then none else do
  (response_code, payload_length, segment_byte, security_id) ← unpack_from header_struct bytes 0
  segment ← exchange_segment_by_wire_byte segment_byte
  some (record {
    response_code = response_code;
    payload_length = payload_length;
    exchange_segment = segment;
    security_id = security_id;
  })

-- `real` gives the number that a pattern of 32 bits stands for.
module _ {F : Type 0} (real : ℕ → F) where
  unfoldable pub parse_ticker : DhanPacketHeader → List ℕ → Option (DhanPacket F)
  parse_ticker header body = if ltb (length body) ticker_size then none else do
    (value, second) ← unpack_from ticker_body body 0
    if header.response_code == ticker_code
        then some (
            ticker (record {
              header = header;
              last_traded_price = real value;
              last_trade_time_epoch = second;
            }))
        else some (
            prev_close (record {
              header = header;
              previous_close = real value;
              previous_open_interest = second;
            }))

  unfoldable pub parse_quote : DhanPacketHeader → List ℕ → Option (DhanPacket F)
  parse_quote header body =
      if ltb (length body) quote_size
      then none
      else do packet ← unpack_from (quote_body real header) body 0; some (quote packet)

  unfoldable pub parse_oi : DhanPacketHeader → List ℕ → Option (DhanPacket F)
  parse_oi header body = if ltb (length body) oi_size then none else do
    open_interest ← unpack_from i32 body 0
    some (oi (record { header = header; open_interest = open_interest }))

  -- `_DEPTH_LEVEL.unpack_from(body, depth_offset + i * _DEPTH_LEVEL.size)`
  unfoldable pub depth_at : List ℕ → ℕ → Option (DhanDepthLevel F)
  depth_at body i = unpack_from (depth_level real) body (full_prefix_size + i * depth_level_size)

  unfoldable pub parse_full : DhanPacketHeader → List ℕ → Option (DhanPacket F)
  parse_full header body =
      if ltb (length body) (full_prefix_size + 5 * depth_level_size) then none else do
        packet ← unpack_from (full_body_prefix real header) body 0
        level_0 ← depth_at body 0
        level_1 ← depth_at body 1
        level_2 ← depth_at body 2
        level_3 ← depth_at body 3
        level_4 ← depth_at body 4
        some (full (packet (level_0 ∷ level_1 ∷ level_2 ∷ level_3 ∷ level_4 ∷ [])))

  unfoldable pub parse_disconnect : DhanPacketHeader → List ℕ → Option (DhanPacket F)
  parse_disconnect header body = if ltb (length body) disconnect_size then none else do
    reason_code ← unpack_from i16 body 0
    some (disconnect_notice (record { header = header; reason_code = reason_code }))

  -- the dispatch on the response code
  unfoldable pub parse_body : DhanPacketHeader → List ℕ → Option (DhanPacket F)
  parse_body header body =
      let code = header.response_code in
      if (code == ticker_code) || (code == prev_close_code)
      then parse_ticker header body
      else if code == quote_code
      then parse_quote header body
      else if code == oi_code
      then parse_oi header body
      else if code == full_code
      then parse_full header body
      else if code == disconnect_code
      then parse_disconnect header body
      else none

  unfoldable pub parse_packet : List ℕ → Option (DhanPacket F)
  parse_packet bytes = do header ← parse_header bytes; parse_body header (drop header_size bytes)

abbrev pub max_instruments_per_subscribe_message : ℕ
max_instruments_per_subscribe_message = 100

-- The JSON objects, field by field. A security's id is a text, which is only passed on.
pub record SubscribeMessage : Type 0 where
  pub request_code : ℕ
  pub instrument_count : ℕ
  pub instrument_list : List (DhanExchangeSegment × ℕ)

-- `none` is the ValueError.
unfoldable pub build_subscribe_message :
    DhanFeedRequestCode → List (DhanExchangeSegment × ℕ) → Option SubscribeMessage
build_subscribe_message request_code instruments =
    if ltb max_instruments_per_subscribe_message (length instruments)
    then none
    else some (record {
      request_code = request_code_number request_code;
      instrument_count = length instruments;
      instrument_list = instruments;
    })

-- the request code of the message
abbrev pub build_disconnect_message : ℕ
build_disconnect_message = request_code_number disconnect
