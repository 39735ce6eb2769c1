-- ===== src/Strategy/Aggregator/Forming.antt =====
-- The bucket that forms between candles, and what finalizing it does.
use agente_tradin_ia_v2_mult.Common.{
  ℕ, ◌+◌, ◌≤◌, ◌<◌, Bool, true, false, Option, none, some, List, [], ◌∷◌, length, ◌≡◌, refl, sym,
  ap, ◌∙◌, subst, arith, Bool-cases, inl, inr, leb, some_injective,
}
use agente_tradin_ia_v2_mult.Float.{Float}
use agente_tradin_ia_v2_mult.MarketData.{CandleTick}
use agente_tradin_ia_v2_mult.Strategy.Slots.{
  AggregatedCandle, CandleAggregator, expected_slots_of, insert, sort, is_late, has_slot,
}
use agente_tradin_ia_v2_mult.Strategy.Aggregator.{build_ordered, finalize, finalize_at, finish}

module _ {F : Type 0} ⦃f : Float F⦄ where
  abbrev pub finalized_buckets : CandleAggregator F → ℕ
  finalized_buckets a = a.stats.complete_buckets + a.stats.incomplete_buckets

  -- A bucket that forms is behind all that are finalized, holds a candle, and is not full.
  pub record IsForming (a : CandleAggregator F) : Type 0 where
    pub ahead :
        (start : ℕ) → a.forming_start ≡ some start → is_late start a.last_finalized_start ≡ false
    pub started : (start : ℕ) → a.forming_start ≡ some start → 1 ≤ length a.slots
    pub unfilled : (start : ℕ) → a.forming_start ≡ some start → length a.slots < expected_slots_of a

  -- What comes of a call that may finalize a bucket: the one it gives back, if any, is later than
  -- those before it, is the last from then on, and is counted; nothing else is.
  unfoldable pub Finalizes :
      CandleAggregator F → CandleAggregator F → Option (AggregatedCandle F) → Type 0
  Finalizes a a' none =
      (a'.last_finalized_start ≡ a.last_finalized_start)
      × (finalized_buckets a' ≡ finalized_buckets a)
  Finalizes a a' (some c) =
      (is_late c.open_time a.last_finalized_start ≡ false)
      × (a'.last_finalized_start ≡ some c.open_time)
      × (finalized_buckets a' ≡ finalized_buckets a + 1)

  insert_nonempty :
      (s : ℕ × CandleTick F) (slots : List (ℕ × CandleTick F))
      → (h : ℕ × CandleTick F) × (t : List (ℕ × CandleTick F)) × (insert s slots ≡ h ∷ t)
  insert_nonempty s [] = (s, [], refl)
  insert_nonempty s (s' ∷ slots) = elim (Bool-cases (leb s.0 s'.0)) [
    | inl y ↦ (s, s' ∷ slots, ground arith)
    | inr n ↦ (s', insert s slots, ground arith)
  ]

  build_some :
      (a : CandleAggregator F) (start : ℕ) (slots : List (ℕ × CandleTick F)) (p : Bool)
      → 1 ≤ length slots
      → (c : AggregatedCandle F) × (build_ordered a start (sort slots) p ≡ some c)
        × (c.open_time ≡ start)
  unfolding build_ordered
  build_some a start [] p h = absurd (omega (arith, h))
  build_some a start (s ∷ slots) p h =
      let i = insert_nonempty s (sort slots) in rw i.2 (_, refl, refl)

  pub finalize-some :
      (a : CandleAggregator F) (start : ℕ)
      → a.forming_start ≡ some start
      → 1 ≤ length a.slots
      → (c : AggregatedCandle F) × (finalize a ≡ finish a start (some c)) × (c.open_time ≡ start)
  unfolding finalize
  finalize-some a start hs h =
      let b = build_some a start a.slots false h in
      (b.0, ap (finalize_at a) hs ∙ ap (finish a start) b.1, b.2)

  pub has_slot_nonempty :
      (t : ℕ) (slots : List (ℕ × CandleTick F)) → has_slot t slots ≡ true → 1 ≤ length slots
  has_slot_nonempty t [] h = absurd (ground arith)
  has_slot_nonempty t (s ∷ slots) h = omega arith

  between : (a : CandleAggregator F) → a.forming_start ≡ none → IsForming a
  between a h = record {
    ahead = λ start e. absurd (ground (arith, h, e));
    started = λ start e. absurd (ground (arith, h, e));
    unfilled = λ start e. absurd (ground (arith, h, e));
  }

  -- Two ways to say that a bucket forms.
  pub forms :
      (a : CandleAggregator F) (start : ℕ)
      → a.forming_start ≡ some start
      → is_late start a.last_finalized_start ≡ false
      → 1 ≤ length a.slots
      → length a.slots < expected_slots_of a
      → IsForming a
  forms a start h l n m = record {
    ahead =
        λ s e. subst (λ s. is_late s a.last_finalized_start ≡ false) (some_injective (sym h ∙ e)) l;
    started = λ s e. n;
    unfilled = λ s e. m;
  }

  pub record StepsTo (a a' : CandleAggregator F) (c : Option (AggregatedCandle F)) : Type 0 where
    pub forming : IsForming a'
    pub finalizes : Finalizes a a' c
    pub same_timeframe : a'.timeframe ≡ a.timeframe

  pub finish_steps :
      (a : CandleAggregator F) (start : ℕ) (c : AggregatedCandle F)
      → c.open_time ≡ start
      → is_late start a.last_finalized_start ≡ false
      → StepsTo a (finish a start (some c)).0 (some c)
  unfolding Finalizes
  finish_steps a start c h l = record {
    forming = between (finish a start (some c)).0 refl;
    finalizes = (
      subst (λ s. is_late s a.last_finalized_start ≡ false) (sym h) l,
      ap some (sym h),
      elim (Bool-cases c.complete) [ inl y ↦ ground (arith, y) | inr n ↦ ground (arith, n) ],
    );
    same_timeframe = refl;
  }
