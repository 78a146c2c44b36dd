-- ===== src/Live/Dhan/Wire/Dispatch.antt =====
-- live/dhan/wire.py: which branch of `parse_packet` a response code takes.
use trading_workstation.Prelude.{ℕ, ◌≡◌, ◌⊎◌, List, arith}
use trading_workstation.Live.Dhan.Wire.Packets.{
  ticker_code, prev_close_code, quote_code, oi_code, full_code, disconnect_code, DhanPacketHeader,
}
use trading_workstation.Live.Dhan.Wire.{
  parse_ticker, parse_quote, parse_oi, parse_full, parse_disconnect, parse_body,
}

module _ {F : Type 0} (real : ℕ → F) where
  module _ (h : DhanPacketHeader) (body : List ℕ) where
    pub parse_body_quote :
        h.response_code ≡ quote_code → parse_body real h body ≡ parse_quote real h body
    unfolding parse_body
    parse_body_quote e = ground arith

    pub parse_body_oi : h.response_code ≡ oi_code → parse_body real h body ≡ parse_oi real h body
    unfolding parse_body
    parse_body_oi e = ground arith

    pub parse_body_full :
        h.response_code ≡ full_code → parse_body real h body ≡ parse_full real h body
    unfolding parse_body
    parse_body_full e = ground arith

    pub parse_body_disconnect :
        h.response_code ≡ disconnect_code → parse_body real h body ≡ parse_disconnect real h body
    unfolding parse_body
    parse_body_disconnect e = ground arith

    pub parse_body_ticker :
        (h.response_code ≡ ticker_code) ⊎ (h.response_code ≡ prev_close_code)
        → parse_body real h body ≡ parse_ticker real h body
    unfolding parse_body
    parse_body_ticker e = ground arith
