-- ===== src/Live/Dhan/Wire/Sizes.antt =====
-- live/dhan/wire.py: which buffers `parse_packet` accepts.
use trading_workstation.Prelude.{
  ℕ, zero, suc, ◌+◌, ◌-◌, ◌*◌, ◌≤◌, ◌≡◌, ◌↔◌, inl, inr, refl, ap, sym, ◌∙◌, Bool, true, false, ◌||◌,
  Option, none, some, List, [], ◌∷◌, length, ltb, ◌==◌, if◌then◌else◌, Bool-cases, arith, leb,
  leb→le, is_some,
}
use trading_workstation.Prelude.Options.{◌>>=◌, >>=-eq-some}
use trading_workstation.Live.Dhan.Wire.Bytes.{Reader, i16, i32, drop, unpack_from}
use trading_workstation.Live.Dhan.Wire.Packets.{
  DhanPacketHeader, DhanPacket, ticker_code, prev_close_code, quote_code, oi_code, full_code,
  disconnect_code,
}
use trading_workstation.Live.Dhan.Wire.Bodies.{
  header_size, header_struct, ticker_size, ticker_body, oi_size, disconnect_size, quote_size,
  quote_body, full_body_prefix, depth_level, full_prefix_size, depth_level_size,
}
use trading_workstation.Live.Dhan.Wire.Readers.{
  Reads, ticker_body-Reads, i32-Reads, i16-Reads, quote_body-Reads, full_body_prefix-Reads,
  depth_level-Reads,
}
use trading_workstation.Live.Dhan.Wire.{
  parse_header, parse_ticker, parse_quote, parse_oi, depth_at, parse_full, parse_disconnect,
  parse_body, parse_packet,
}

abbrev Returns : {A : Type 0} → Option A → Type 0
Returns {A} o = (a : A) × (o ≡ some a)

unpack_from-Returns :
    {A : Type 0} (n : ℕ) (m : Reader A) (bytes : List ℕ) (offset : ℕ)
    → Reads n m
    → n ≤ length (drop offset bytes)
    → Returns (unpack_from m bytes offset)
unpack_from-Returns n m bytes offset reads enough =
    let r = reads.returns (drop offset bytes) enough in (r.0.0, rw (r.1) refl)

module _ {A B : Type 0} (k : ℕ) (m : Reader A) (f : A → Option B) (body : List ℕ) where
  -- the test on the length, then the reader, then what is done with its result
  abbrev guarded : Option B
  guarded = if ltb (length body) k then none else (unpack_from m body 0 >>= f)

  guarded_needs : Returns guarded → k ≤ length body
  guarded_needs (b, e) = ground arith

  guarded-Returns :
      (n : ℕ)
      → Reads n m
      → n ≤ length body
      → k ≤ length body
      → ((a : A) → Returns (f a))
      → Returns guarded
  guarded-Returns n reads enough long total =
      let r = unpack_from-Returns n m body 0 reads enough in
      let t = total r.0 in
      let ok : ltb (length body) k ≡ false = ground arith in (t.0, rw (ok, r.1) (t.1))

bind-Returns :
    {A B : Type 0} (o : Option A) (f : A → Option B)
    → Returns o
    → ((a : A) → Returns (f a))
    → Returns (o >>= f)
bind-Returns (some a) f r total = total a
bind-Returns none f r total = cc r.1

either_some : {A : Type 0} (b : Bool) (x y : A) → Returns (if b then some x else some y)
either_some true x y = (x, refl)
either_some false x y = (y, refl)

length-drop : (n : ℕ) (bytes : List ℕ) → length (drop n bytes) ≡ length bytes - n
length-drop zero bytes = omega arith
length-drop (suc n) [] = omega arith
length-drop (suc n) (b ∷ bytes) = omega (arith, length-drop n bytes)

-- The size of the body that follows a header with the response code.
abbrev pub body_size : ℕ → Option ℕ
body_size code =
    if (code == ticker_code) || (code == prev_close_code)
    then some 8
    else if code == quote_code
    then some 42
    else if code == oi_code
    then some 4
    else if code == full_code
    then some 154
    else if code == disconnect_code
    then some 2
    else none

-- The body has the size that its header asks for.
abbrev pub fits : Option ℕ → ℕ → Bool
fits none n = false
fits (some size) n = leb size n

le→leb : (m n : ℕ) → m ≤ n → leb m n ≡ true
le→leb m n h = ground arith

is_some-leb : {A : Type 0} {o : Option A} {m n : ℕ} → Returns o ↔ m ≤ n → is_some o ≡ leb m n
is_some-leb {o = none} {m} {n} (f, g) = elim (Bool-cases (leb m n)) [
  | inl e ↦ cc (g (leb→le m n e)).1
  | inr e ↦ sym e
]
is_some-leb {o = some a} {m} {n} (f, g) = let e = f (a, refl) in ground arith

module _ {F : Type 0} (real : ℕ → F) (h : DhanPacketHeader) (body : List ℕ) where
  parse_quote_iff : Returns (parse_quote real h body) ↔ quote_size ≤ length body
  unfolding parse_quote
  parse_quote_iff = (
    guarded_needs quote_size (quote_body real h) _ body,
    λ e. guarded-Returns _ _ _ body quote_size (quote_body-Reads real h) e e (λ p. (_, refl)),
  )

  parse_oi_iff : Returns (parse_oi real h body) ↔ oi_size ≤ length body
  unfolding parse_oi
  parse_oi_iff = (
    guarded_needs oi_size i32 _ body,
    λ e. guarded-Returns _ _ _ body oi_size i32-Reads e e (λ p. (_, refl)),
  )

  parse_disconnect_iff : Returns (parse_disconnect real h body) ↔ disconnect_size ≤ length body
  unfolding parse_disconnect
  parse_disconnect_iff = (
    guarded_needs disconnect_size i16 _ body,
    λ e. guarded-Returns _ _ _ body disconnect_size i16-Reads e e (λ p. (_, refl)),
  )

  parse_ticker_iff : Returns (parse_ticker real h body) ↔ ticker_size ≤ length body
  unfolding parse_ticker
  parse_ticker_iff = (
    guarded_needs ticker_size ticker_body _ body,
    λ e. guarded-Returns _ _ _ body ticker_size ticker_body-Reads e e (λ p. either_some _ _ _),
  )

  depth_at-Returns :
      (i : ℕ)
      → full_prefix_size + (i + 1) * depth_level_size ≤ length body
      → Returns (depth_at real body i)
  unfolding depth_at
  depth_at-Returns i enough =
      unpack_from-Returns depth_level_size (depth_level real) body
        (full_prefix_size + i * depth_level_size) (depth_level-Reads real)
        (omega (arith, length-drop (full_prefix_size + i * depth_level_size) body))

  parse_full_iff :
      Returns (parse_full real h body) ↔ full_prefix_size + 5 * depth_level_size ≤ length body
  unfolding parse_full
  parse_full_iff = (
    guarded_needs (full_prefix_size + 5 * depth_level_size) (full_body_prefix real h) _ body,
    λ e.
        guarded-Returns _ _ _ body full_prefix_size (full_body_prefix-Reads real h) (omega arith) e
          (λ p. bind-Returns _ _ (depth_at-Returns 0 (omega arith)) (λ _.
            bind-Returns _ _ (depth_at-Returns 1 (omega arith)) (λ _.
              bind-Returns _ _ (depth_at-Returns 2 (omega arith)) (λ _.
                bind-Returns _ _ (depth_at-Returns 3 (omega arith))
                  (λ _. bind-Returns _ _ (depth_at-Returns 4 (omega arith)) (λ _. (_, refl))))))),
  )

  parse_body_returns :
      is_some (parse_body real h body) ≡ fits (body_size h.response_code) (length body)
  unfolding parse_body
  parse_body_returns =
      let quote_ = is_some-leb parse_quote_iff in
      let oi_ = is_some-leb parse_oi_iff in
      let full_ = is_some-leb parse_full_iff in
      let disconnect_ = is_some-leb parse_disconnect_iff in
      let ticker_ = is_some-leb parse_ticker_iff in ground arith

fits-true : (o : Option ℕ) (n : ℕ) → fits o n ≡ true → (size : ℕ) × (o ≡ some size) × (size ≤ n)
fits-true none n e = cc
fits-true (some size) n e = (size, refl, leb→le size n e)

is_some-true : {A : Type 0} (o : Option A) → is_some o ≡ true → Returns o
is_some-true none e = cc
is_some-true (some a) e = (a, refl)

parse_header_needs :
    (bytes : List ℕ) (h : DhanPacketHeader)
    → parse_header bytes ≡ some h
    → header_size ≤ length bytes
unfolding parse_header
parse_header_needs bytes h e = guarded_needs header_size header_struct _ bytes (h, e)

module _ {F : Type 0} (real : ℕ → F) where
  -- parse_packet returns exactly when parse_header returns on the buffer, the header's response code
  -- is one of the six that it reads, and the buffer holds the whole body of that kind after the
  -- header's eight bytes; the packet's size is never read past the end, and no shorter buffer is
  -- accepted.
  pub parse_packet_returns_iff :
      (bytes : List ℕ)
      → ((p : DhanPacket F) × (parse_packet real bytes ≡ some p)) ↔ (
          (h : DhanPacketHeader) × (size : ℕ) × (parse_header bytes ≡ some h)
          × (body_size h.response_code ≡ some size)
          × (header_size + size ≤ length bytes))
  unfolding parse_packet
  parse_packet_returns_iff bytes = (
    λ (p, e).
        let (h, eh, eb) = >>=-eq-some (parse_header bytes) _ e in
        let body = drop header_size bytes in
        let (size, es, el) = fits-true _ _ (sym (parse_body_returns real h body) ∙ ap is_some eb) in
        (
          h,
          size,
          eh,
          es,
          omega (arith, length-drop header_size bytes, parse_header_needs bytes h eh),
        ),
    λ (h, size, eh, es, el).
        let body = drop header_size bytes in
        let enough : size ≤ length body = omega (arith, length-drop header_size bytes) in
        let ok : fits (body_size h.response_code) (length body) ≡ true =
          ap (λ o. fits o (length body)) es ∙ le→leb size (length body) enough in
        let (p, ep) = is_some-true _ (parse_body_returns real h body ∙ ok) in
        (p, ap (λ o. o >>= λ g. parse_body real g body) eh ∙ ep),
  )
