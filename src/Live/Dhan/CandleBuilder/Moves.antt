-- ===== src/Live/Dhan/CandleBuilder/Moves.antt =====
-- live/dhan/candle_builder.py: what one tick does to the start of the open bucket.
use mathlib.Core.Path.{subst}
use mathlib.Core.Option.{some-injective}
use trading_workstation.Prelude.{
  if_split, ℕ, suc, ◌+◌, ◌≤◌, ◌≡◌, ◌⊎◌, inl, inr, refl, sym, ap, ◌∙◌, Bool, true, false, not, ◌||◌,
  Option, none, some, Double, arith, ltb, ltb→lt, num, if◌then◌else◌,
}
use trading_workstation.Prelude.Options.{>>=-eq-some}
use trading_workstation.Live.Dhan.CandleBuilder.Models.{
  Tick, BucketState, RejectedTickCounts, CandleBuilder, OhlcvBar, bucket_start_for,
}
use trading_workstation.Live.Dhan.CandleBuilder.Timestamps.{
  admit_timestamp, disagrees, agrees, count_implausible_timestamp,
}
use trading_workstation.Live.Dhan.CandleBuilder.{
  check_price, finalize, merged_state, merge, merge_if_valid, roll_over, complete_and_merge,
  take_tick, on_tick, deviates, with_counts, bar_of, state_or_seeded,
}

-- the ticks whose price was found invalid
abbrev pub invalid_prices : RejectedTickCounts → ℕ
invalid_prices c =
    c.non_positive_price + c.negative_volume + c.implausible_deviation + c.non_finite_value

module _ {F : Type 0} where
  -- the start of the open bucket
  abbrev pub floor_of : Option (BucketState F) → ℕ
  floor_of none = 0
  floor_of (some s) = s.bucket_start

  -- What a step does to the start of the open bucket.
  abbrev pub Moves : ℕ → Option (OhlcvBar F) → ℕ → Type 0
  Moves before none after = before ≤ after
  Moves before (some bar) after = (before ≤ bar.timestamp) × (suc bar.timestamp ≤ after)

  -- A step of a confirmed builder.
  pub record Step (b : CandleBuilder F) (bar : Option (OhlcvBar F)) (left : CandleBuilder F)
      : Type 0 where
    pub confirmed : left.baseline_confirmed ≡ true
    pub monotone : invalid_prices b.rejected_tick_counts ≤ invalid_prices left.rejected_tick_counts
    pub moves :
        invalid_prices left.rejected_tick_counts ≡ invalid_prices b.rejected_tick_counts
        → Moves (floor_of b.state) bar (floor_of left.state)

module _ {F : Type 0} ⦃d : Double F⦄ where
  open d use {is_finite, lt, le}

  admit_confirmed :
      (tick : Tick F) (b : CandleBuilder F)
      → b.baseline_confirmed ≡ true
      → (admit_timestamp tick b ≡ (true, b))
        ⊎ (admit_timestamp tick b ≡ (false, count_implausible_timestamp b))
  unfolding admit_timestamp disagrees agrees
  admit_confirmed tick b h = ground arith

  -- A finding of the price check: it is valid and nothing moves, or it is with_counts.
  abbrev Counts : CandleBuilder F → Bool × CandleBuilder F → Type 0
  Counts b (valid, checked) =
      (c : RejectedTickCounts) × (checked ≡ record b { rejected_tick_counts = c })
      × (((valid ≡ true) × (c ≡ b.rejected_tick_counts))
          ⊎ ((valid ≡ false) × (invalid_prices c ≡ suc (invalid_prices b.rejected_tick_counts))))

  abbrev Checks : CandleBuilder F → Option (Bool × CandleBuilder F) → Type 0
  Checks b o = (r : Bool × CandleBuilder F) → o ≡ some r → Counts b r

  check_leaf :
      (b : CandleBuilder F) (valid : Bool) (c : RejectedTickCounts)
      → (((valid ≡ true) × (c ≡ b.rejected_tick_counts))
          ⊎ ((valid ≡ false) × (invalid_prices c ≡ suc (invalid_prices b.rejected_tick_counts))))
      → Checks b (some (valid, record b { rejected_tick_counts = c }))
  check_leaf b valid c h r e = subst (Counts b) (some-injective _ _ e) (c, refl, h)

  far_Counts :
      (b : CandleBuilder F) (far : Bool)
      → Checks b (
          some (
            if far
            then (
              false,
              with_counts (λ c. record c { implausible_deviation = suc c.implausible_deviation }) b,
            )
            else (true, b)))
  far_Counts b true = check_leaf b false _ (inr (refl, omega arith))
  far_Counts b false = check_leaf b true b.rejected_tick_counts (inl (refl, refl))

  check_price-Counts : (tick : Tick F) (b : CandleBuilder F) → Checks b (check_price tick b)
  unfolding check_price
  check_price-Counts tick b =
      let rejected =
        λ (c : RejectedTickCounts)
            (h : invalid_prices c ≡ suc (invalid_prices b.rejected_tick_counts)).
          check_leaf b false c (inr (refl, h)) in
      if_split (Checks b) (not (is_finite tick.price) || not (is_finite tick.volume)) _ _
        (λ _. rejected _ (omega arith))
        (λ _.
          if_split (Checks b) (le tick.price (num 0)) _ _ (λ _. rejected _ (omega arith))
            (λ _.
              if_split (Checks b) (lt tick.volume (num 0)) _ _ (λ _. rejected _ (omega arith))
                (λ _ r e.
                  let (far, _, last) =
                    >>=-eq-some (deviates tick.price b.last_known_price b.max_tick_deviation_pct) _
                      e in
                  far_Counts b far r last)))

  merged_start :
      (start : ℕ) (tick : Tick F) (state : Option (BucketState F))
      → (merged_state start tick state).bucket_start
        ≡ (state_or_seeded start tick state).bucket_start
  unfolding merged_state
  merged_start start tick state =
      if_split
        (λ (s : BucketState F). s.bucket_start ≡ (state_or_seeded start tick state).bucket_start) _
        _ _ (λ _. refl) (λ _. refl)

  -- What the rest of a step does to the builder.
  abbrev Rest : CandleBuilder F → Option (OhlcvBar F) × CandleBuilder F → Type 0
  Rest b (bar, left) =
      (left.baseline_confirmed ≡ b.baseline_confirmed)
      × (invalid_prices left.rejected_tick_counts ≡ invalid_prices b.rejected_tick_counts)

  abbrev Completes :
      CandleBuilder F
      → Option (BucketState F)
      → Option (Option (OhlcvBar F) × CandleBuilder F)
      → Type 0
  Completes b state o =
      (r : Option (OhlcvBar F) × CandleBuilder F)
      → o ≡ some r
      → Rest b r × Moves (floor_of state) r.0 (floor_of r.1.state)

  finalized :
      (s : BucketState F) (bar : OhlcvBar F) → finalize s false ≡ some bar → bar_of s false ≡ bar
  unfolding finalize
  finalized s bar e = ground arith

  rolled :
      (start : ℕ) (valid : Bool) (tick : Tick F) (s : BucketState F) (b : CandleBuilder F)
      (r : Option (OhlcvBar F) × CandleBuilder F)
      → roll_over start valid tick s b ≡ some r
      → (some (bar_of s false), merge_if_valid valid start tick (record b { state = none })) ≡ r
  unfolding roll_over
  rolled start valid tick s b r e =
      let (bar, f, last) = >>=-eq-some (finalize s false) _ e in
      ap (λ x. (some x, merge_if_valid valid start tick (record b { state = none })))
        (finalized s bar f)
      ∙ some-injective _ _ last

  complete_valid :
      (start : ℕ) (tick : Tick F) (state : Option (BucketState F)) (b : CandleBuilder F)
      → b.state ≡ state
      → Completes b state (complete_and_merge start true tick state b)
  unfolding complete_and_merge merge
  complete_valid start tick none b same =
      let P : Option (OhlcvBar F) × CandleBuilder F → Type 0 =
        λ r. Rest b r × Moves 0 r.0 (floor_of r.1.state) in
      λ r e. subst P (some-injective _ _ e) ((refl, refl), omega arith)
  complete_valid start tick (some s) b same =
      let P : Option (OhlcvBar F) × CandleBuilder F → Type 0 =
        λ r. Rest b r × Moves s.bucket_start r.0 (floor_of r.1.state) in
      if_split (Completes b (some s)) (ltb start s.bucket_start) _ _
        (λ late r e. subst P (some-injective _ _ e) ((refl, refl), rw same (omega arith)))
        (λ not_late.
          if_split (Completes b (some s)) (ltb s.bucket_start start) _ _
            (λ later r e. subst P (rolled start true tick s b r e) (
              (refl, refl),
              (omega arith, rw (merged_start start tick none) (omega (arith, ltb→lt _ _ later))),
            ))
            (λ not_later r e.
              subst P (some-injective _ _ e)
                ((refl, refl), rw (merged_start start tick b.state, same) (omega arith))))

  complete_invalid :
      (start : ℕ) (tick : Tick F) (state : Option (BucketState F)) (b : CandleBuilder F)
      (r : Option (OhlcvBar F) × CandleBuilder F)
      → complete_and_merge start false tick state b ≡ some r
      → Rest b r
  unfolding complete_and_merge
  complete_invalid start tick none b = λ r e. subst (Rest b) (some-injective _ _ e) (refl, refl)
  complete_invalid start tick (some s) b =
      let P : Option (Option (OhlcvBar F) × CandleBuilder F) → Type 0 =
        λ o. (r : Option (OhlcvBar F) × CandleBuilder F) → o ≡ some r → Rest b r in
      if_split P (ltb start s.bucket_start) _ _
        (λ _ r e. subst (Rest b) (some-injective _ _ e) (refl, refl))
        (λ _.
          if_split P (ltb s.bucket_start start) _ _
            (λ _ r e. subst (Rest b) (rolled start false tick s b r e) (refl, refl))
            (λ _ r e. subst (Rest b) (some-injective _ _ e) (refl, refl)))

  finish-Step :
      (start : ℕ) (tick : Tick F) (b : CandleBuilder F) (valid : Bool) (c : RejectedTickCounts)
      (bar : Option (OhlcvBar F)) (left : CandleBuilder F)
      → b.baseline_confirmed ≡ true
      → ((valid ≡ true) × (c ≡ b.rejected_tick_counts))
        ⊎ ((valid ≡ false) × (invalid_prices c ≡ suc (invalid_prices b.rejected_tick_counts)))
      → complete_and_merge start valid tick b.state (record b { rejected_tick_counts = c })
        ≡ some (bar, left)
      → Step b bar left
  finish-Step start tick b true c bar left sure (inl (_, same)) e =
      let ((confirmed, counts), moves) =
        complete_valid start tick b.state (record b { rejected_tick_counts = c }) refl _ e in
      let kept = counts ∙ ap invalid_prices same in
      record { confirmed = confirmed ∙ sure; monotone = omega arith; moves = λ _. moves }
  finish-Step start tick b true c bar left sure (inr (no_, _)) e = cc
  finish-Step start tick b false c bar left sure (inl (no_, _)) e = cc
  finish-Step start tick b false c bar left sure (inr (_, more)) e =
      let (confirmed, counts) =
        complete_invalid start tick b.state (record b { rejected_tick_counts = c }) _ e in
      record {
        confirmed = confirmed ∙ sure;
        monotone = omega arith;
        moves = λ same. absurd (omega arith);
      }

  take_tick-Step :
      (tick : Tick F) (b : CandleBuilder F) (bar : Option (OhlcvBar F)) (left : CandleBuilder F)
      → b.baseline_confirmed ≡ true
      → take_tick tick (true, b) ≡ some (bar, left)
      → Step b bar left
  unfolding take_tick
  take_tick-Step tick b bar left sure e =
      let ((valid, checked), f, g) = >>=-eq-some (check_price tick b) _ e in
      let (start, _, last) = >>=-eq-some (bucket_start_for checked tick.timestamp) _ g in
      let (c, same, kind) = check_price-Counts tick b (valid, checked) f in
      finish-Step start tick b valid c bar left sure kind
        (subst (λ x. complete_and_merge start valid tick x.state x ≡ some (bar, left)) same last)

  counted_timestamp-Step :
      (b : CandleBuilder F)
      → b.baseline_confirmed ≡ true
      → Step b none (count_implausible_timestamp b)
  counted_timestamp-Step b sure = record {
    confirmed = sure;
    monotone = omega arith;
    moves = λ _. omega arith;
  }

  pub on_tick-Step :
      (tick : Tick F) (b : CandleBuilder F) (bar : Option (OhlcvBar F)) (left : CandleBuilder F)
      → b.baseline_confirmed ≡ true
      → on_tick tick b ≡ some (bar, left)
      → Step b bar left
  unfolding on_tick take_tick
  on_tick-Step tick b bar left sure e = elim (admit_confirmed tick b sure) [
    | inl admitted ↦ take_tick-Step tick b bar left sure (sym (ap (take_tick tick) admitted) ∙ e)
    | inr refused ↦
        let r = some-injective _ _ (sym (ap (take_tick tick) refused) ∙ e) in
        subst (λ (x : Option (OhlcvBar F) × CandleBuilder F). Step b x.0 x.1) r
          (counted_timestamp-Step b sure)
  ]
