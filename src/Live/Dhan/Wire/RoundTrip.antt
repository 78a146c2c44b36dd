-- ===== src/Live/Dhan/Wire/RoundTrip.antt =====
-- live/dhan/wire.py: what the documented layout encodes is what `parse_packet` reads.
use trading_workstation.Prelude.{
  ℕ, ◌++◌, ◌+◌, ◌*◌, ◌≡◌, refl, ◌∙◌, inl, inr, ◌==◌, if◌then◌else◌, some, List, [], ◌∷◌, All, ℤ,
  length, arith,
}
use mathlib.Core.List.{map}
use trading_workstation.Live.Dhan.Wire.Bytes.{drop-add}
use trading_workstation.Live.Dhan.Wire.Packets.{
  ticker_code, DhanPacketHeader, DhanQuotePacket, DhanDepthLevel, DhanFullPacket, DhanPacket,
  ticker, prev_close, quote, oi, full, disconnect_notice,
}
use trading_workstation.Live.Dhan.Wire.Bodies.{
  header_size, ticker_size, oi_size, disconnect_size, quote_size, full_prefix_size,
  depth_level_size,
}
use trading_workstation.Live.Dhan.Wire.Encode.{
  put_i16, put_i32, put_header, put_ticker_body, put_quote_body, put_full_prefix, put_levels,
  header_of, put_body, encode,
}
use trading_workstation.Live.Dhan.Wire.Fields.{Fits, half_16, half_32, i32-put_i32, i16-put_i16}
use trading_workstation.Live.Dhan.Wire.{
  parse_header, parse_ticker, parse_quote, parse_oi, depth_at, parse_full, parse_disconnect,
  parse_body, parse_packet,
}
use trading_workstation.Live.Dhan.Wire.Ranges.{
  InRange, QuoteFits, FullFits, LevelFits, Encodable, real_quote, real_full, real_level,
  real_packet,
}
use trading_workstation.Live.Dhan.Wire.ReadBack.{
  ticker_body-put_ticker_body, segment_of_byte, header_struct-put_header, quote_body-put_quote_body,
  full_body_prefix-put_full_prefix, depth_level-put_level,
}
use trading_workstation.Live.Dhan.Wire.Lengths.{
  enough, length-put_header, drop-put_header, length-put_i32, length-put_i16,
  length-put_ticker_body, length-put_quote_body, length-put_full, drop-put_full_prefix,
  drop-put_levels,
}
use trading_workstation.Live.Dhan.Wire.Dispatch.{
  parse_body_quote, parse_body_oi, parse_body_full, parse_body_disconnect, parse_body_ticker,
}

parse_header-put_header :
    (h : DhanPacketHeader) (rest : List ℕ)
    → InRange (h.payload_length ∷ []) (h.security_id ∷ []) []
    → parse_header (put_header h rest) ≡ some h
unfolding parse_header
parse_header-put_header h rest fits =
    rw
      (
        length-put_header,
        enough header_size (length rest),
        header_struct-put_header h rest fits,
        segment_of_byte,
      )
      refl

module _ {F : Type 0} (real : ℕ → F) where
  parse_ticker_lem :
      (h : DhanPacketHeader) (value : ℕ) (second : ℤ) (rest : List ℕ)
      → InRange [] (second ∷ []) (value ∷ [])
      → parse_ticker real h (put_ticker_body value second rest)
        ≡ some (
            if h.response_code == ticker_code
            then ticker (record {
              header = h;
              last_traded_price = real value;
              last_trade_time_epoch = second;
            })
            else prev_close (record {
              header = h;
              previous_close = real value;
              previous_open_interest = second;
            }))
  unfolding parse_ticker
  parse_ticker_lem h value second rest fits =
      rw
        (
          length-put_ticker_body,
          enough ticker_size (length rest),
          ticker_body-put_ticker_body value second rest fits,
        )
        (ground arith)

  parse_quote-put_quote_body :
      (q : DhanQuotePacket ℕ) (rest : List ℕ)
      → QuoteFits q
      → parse_quote real q.header (put_quote_body q rest) ≡ some (quote (real_quote real q))
  unfolding parse_quote
  parse_quote-put_quote_body q rest h =
      rw
        (
          length-put_quote_body,
          enough quote_size (length rest),
          quote_body-put_quote_body real q rest h,
        )
        refl

  depth_at-put_levels :
      (q : DhanFullPacket ℕ) (high_oi low_oi : ℤ) (before : List (DhanDepthLevel ℕ))
      (l : DhanDepthLevel ℕ) (after : List (DhanDepthLevel ℕ)) (rest : List ℕ)
      → LevelFits l
      → depth_at real
          (put_full_prefix q high_oi low_oi (put_levels (before ++ (l ∷ after)) rest))
          (length before)
        ≡ some (real_level real l)
  unfolding depth_at
  depth_at-put_levels q high_oi low_oi before l after rest h =
      rw
        (
          drop-add,
          drop-put_full_prefix,
          drop-put_levels before (l ∷ after) rest,
          depth_level-put_level real l (put_levels after rest) h,
        )
        refl

  parse_oi-put_i32 :
      (h : DhanPacketHeader) (z : ℤ) (rest : List ℕ)
      → Fits half_32 z
      → parse_oi real h (put_i32 z rest) ≡ some (oi (record { header = h; open_interest = z }))
  unfolding parse_oi
  parse_oi-put_i32 h z rest fits =
      rw (length-put_i32, enough oi_size (length rest), i32-put_i32 z rest fits) refl

  parse_disconnect-put_i16 :
      (h : DhanPacketHeader) (z : ℤ) (rest : List ℕ)
      → Fits half_16 z
      → parse_disconnect real h (put_i16 z rest)
        ≡ some (disconnect_notice (record { header = h; reason_code = z }))
  unfolding parse_disconnect
  parse_disconnect-put_i16 h z rest fits =
      rw (length-put_i16, enough disconnect_size (length rest), i16-put_i16 z rest fits) refl

  parse_full-put_full_prefix :
      (q : DhanFullPacket ℕ) (high_oi low_oi : ℤ) (l0 l1 l2 l3 l4 : DhanDepthLevel ℕ)
      (rest : List ℕ)
      → let levels = l0 ∷ l1 ∷ l2 ∷ l3 ∷ l4 ∷ [] in
        FullFits q high_oi low_oi
        → All LevelFits levels
        → parse_full real q.header (put_full_prefix q high_oi low_oi (put_levels levels rest))
          ≡ some (full (real_full real q (map (real_level real) levels)))
  unfolding parse_full
  parse_full-put_full_prefix q high_oi low_oi l0 l1 l2 l3 l4 rest fits
        (f0, (f1, (f2, (f3, (f4, _))))) =
      let at_ = depth_at-put_levels q high_oi low_oi in
      rw
        (
          length-put_full q high_oi low_oi (l0 ∷ l1 ∷ l2 ∷ l3 ∷ l4 ∷ []) rest refl,
          enough (full_prefix_size + 5 * depth_level_size) (length rest),
          full_body_prefix-put_full_prefix real q high_oi low_oi _ fits,
          at_ [] l0 (l1 ∷ l2 ∷ l3 ∷ l4 ∷ []) rest f0,
          at_ (l0 ∷ []) l1 (l2 ∷ l3 ∷ l4 ∷ []) rest f1,
          at_ (l0 ∷ l1 ∷ []) l2 (l3 ∷ l4 ∷ []) rest f2,
          at_ (l0 ∷ l1 ∷ l2 ∷ []) l3 (l4 ∷ []) rest f3,
          at_ (l0 ∷ l1 ∷ l2 ∷ l3 ∷ []) l4 [] rest f4,
        )
        refl

  parse_full_five :
      (q : DhanFullPacket ℕ) (high_oi low_oi : ℤ) (rest : List ℕ) (levels : List (DhanDepthLevel ℕ))
      → FullFits q high_oi low_oi
      → length levels ≡ 5
      → All LevelFits levels
      → parse_full real q.header (put_full_prefix q high_oi low_oi (put_levels levels rest))
        ≡ some (full (real_full real q (map (real_level real) levels)))
  parse_full_five q hi lo rest (l0 ∷ l1 ∷ l2 ∷ l3 ∷ l4 ∷ []) fits five f =
      parse_full-put_full_prefix q hi lo l0 l1 l2 l3 l4 rest fits f
  parse_full_five q hi lo rest _ fits five f = ground arith

  parse_body-put_body :
      (p : DhanPacket ℕ) (high_oi low_oi : ℤ) (rest : List ℕ)
      → Encodable p high_oi low_oi
      → parse_body real (header_of p) (put_body p high_oi low_oi rest) ≡ some (real_packet real p)
  parse_body-put_body (ticker p) hi lo rest ((e, _), f) =
      parse_body_ticker real p.header _ (inl e)
      ∙ parse_ticker_lem p.header _ _ rest f
      ∙ ground arith
  parse_body-put_body (prev_close p) hi lo rest ((e, _), f) =
      parse_body_ticker real p.header _ (inr e)
      ∙ parse_ticker_lem p.header _ _ rest f
      ∙ ground arith
  parse_body-put_body (quote p) hi lo rest ((e, _), f) =
      parse_body_quote real p.header _ e ∙ parse_quote-put_quote_body p rest f
  parse_body-put_body (oi p) hi lo rest ((e, _), (_, (f, _), _)) =
      parse_body_oi real p.header _ e ∙ parse_oi-put_i32 p.header _ rest f
  parse_body-put_body (full p) hi lo rest ((e, _), f, five, levels) =
      parse_body_full real p.header _ e ∙ parse_full_five p hi lo rest p.depth f five levels
  parse_body-put_body (disconnect_notice p) hi lo rest ((e, _), ((f, _), _, _)) =
      parse_body_disconnect real p.header _ e ∙ parse_disconnect-put_i16 p.header _ rest f

  header_fits :
      (p : DhanPacket ℕ) (high_oi low_oi : ℤ)
      → Encodable p high_oi low_oi
      → InRange ((header_of p).payload_length ∷ []) ((header_of p).security_id ∷ []) []
  header_fits (ticker p) hi lo h = h.0.1
  header_fits (prev_close p) hi lo h = h.0.1
  header_fits (quote p) hi lo h = h.0.1
  header_fits (oi p) hi lo h = h.0.1
  header_fits (full p) hi lo h = h.0.1
  header_fits (disconnect_notice p) hi lo h = h.0.1

  -- A packet of any of the six kinds that parse_packet reads, with its kind's response code, its
  -- numbers in the ranges of their fields and, for a full packet, five depth levels, is read back
  -- from its documented encoding, whatever bytes follow it: each field as it was, each float32 as
  -- the number its pattern stands for.
  pub parse_packet-encode :
      (p : DhanPacket ℕ) (high_oi low_oi : ℤ) (rest : List ℕ)
      → Encodable p high_oi low_oi
      → parse_packet real (encode p high_oi low_oi rest) ≡ some (real_packet real p)
  unfolding parse_packet
  parse_packet-encode p hi lo rest h =
      rw
        (
          parse_header-put_header (header_of p) (put_body p hi lo rest) (header_fits p hi lo h),
          drop-put_header,
        )
        (parse_body-put_body p hi lo rest h)
