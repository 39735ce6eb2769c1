-- ===== src/Orchestrator/Triggers/Levels.antt =====
-- Which prices of a candle trigger the stop or the target of a position.
use agente_tradin_ia_v2_mult.Common.{
  Bool, true, false, Option, none, some, ◌≡◌, ◌↔◌, inl, inr, refl, sym, ap, ◌∙◌, arith, Bool-cases,
  some_injective, if◌then◌else◌,
}
use agente_tradin_ia_v2_mult.Float.{Float, IsOrdered}
use agente_tradin_ia_v2_mult.MarketData.{CandleTick}
use agente_tradin_ia_v2_mult.Persistence.Models.{buy, same_side, Position}
use agente_tradin_ia_v2_mult.Orchestrator.Triggers.{
  stop_loss, take_profit, reached, first_trigger, touched,
}

module _ {F : Type 0} ⦃f : Float F⦄ where
  -- At this price the position is at its stop, or worse; or at its target, or better.
  abbrev pub at_stop : Position F → F → F → Bool
  at_stop p s v = if same_side p.side buy then f.le v s else f.le s v

  abbrev pub at_target : Position F → F → F → Bool
  at_target p t v = if same_side p.side buy then f.le t v else f.le v t

  -- Some price in the range of the candle has this property.
  abbrev pub Trades : CandleTick F → (F → Bool) → Type 0
  Trades c test = (v : F) × (f.le c.low v ≡ true) × (f.le v c.high ≡ true) × (test v ≡ true)

  module _ (ordered : IsOrdered F) (c : CandleTick F) (range : f.le c.low c.high ≡ true) where
    below_iff : (s : F) → (f.le c.low s ≡ true) ↔ Trades c (λ v. f.le v s)
    below_iff s = (
      λ h. (c.low, (ordered.refl_of_le c.low c.high range).0, range, h),
      λ t. ordered.le_trans c.low t.0 s t.1 t.3,
    )

    above_iff : (s : F) → (f.le s c.high ≡ true) ↔ Trades c (λ v. f.le s v)
    above_iff s = (
      λ h. (c.high, range, (ordered.refl_of_le c.low c.high range).1, h),
      λ t. ordered.le_trans s t.0 c.high t.3 t.2,
    )

  reached_iff :
      (test : F → Bool) (o : Option F) (x : F)
      → (reached test o ≡ some x) ↔ ((o ≡ some x) × (test x ≡ true))
  reached_iff test none x = ground arith
  reached_iff test (some y) x = (
    λ h. elim (Bool-cases (test y)) [
      | inl e ↦
          let same : some y ≡ some x = ground (arith, h, e) in
          (same, ap test (sym (some_injective same)) ∙ e)
      | inr e ↦ absurd (ground (arith, h, e))
    ],
    λ h. let e = ap test (some_injective h.0) ∙ h.1 in ground (arith, h.0, e),
  )

  reached-none_iff :
      (test : F → Bool) (o : Option F)
      → (reached test o ≡ none) ↔ ((s : F) → o ≡ some s → test s ≡ false)
  reached-none_iff test none = (λ h s e. absurd (ground (arith, e)), λ h. refl)
  reached-none_iff test (some y) = (
    λ h s e. let z : test y ≡ false = ground (arith, h) in ap test (sym (some_injective e)) ∙ z,
    λ h. let z = h y refl in ground (arith, z),
  )

  first_trigger-stop_iff :
      (s t : Option F) (x : F) → (first_trigger s t ≡ some (stop_loss x)) ↔ (s ≡ some x)
  first_trigger-stop_iff none none x = ground arith
  first_trigger-stop_iff none (some t) x = ground arith
  first_trigger-stop_iff (some s) t x = ground arith

  first_trigger-target_iff :
      (s t : Option F) (x : F)
      → (first_trigger s t ≡ some (take_profit x)) ↔ ((s ≡ none) × (t ≡ some x))
  first_trigger-target_iff none none x = ground arith
  first_trigger-target_iff none (some t) x = ground arith
  first_trigger-target_iff (some s) t x = ground arith

  -- Levels that a test finds where a predicate has them.
  triggered_iff :
      (hit_stop hit_target : F → Bool) (S T : F → Type 0)
      → ((s : F) → (hit_stop s ≡ true) ↔ S s)
      → ((t : F) → (hit_target t ≡ true) ↔ T t)
      → (a b : Option F) (x : F)
      → let r = first_trigger (reached hit_stop a) (reached hit_target b) in
        ((r ≡ some (stop_loss x)) ↔ ((a ≡ some x) × S x))
        × ((r ≡ some (take_profit x)) ↔ ((b ≡ some x) × T x × ((s : F) → a ≡ some s → ¬ S s)))
  triggered_iff hit_stop hit_target S T hs ht a b x =
      let i = first_trigger-stop_iff (reached hit_stop a) (reached hit_target b) x in
      let j = first_trigger-target_iff (reached hit_stop a) (reached hit_target b) x in
      let k = reached_iff hit_stop a x in
      let l = reached_iff hit_target b x in
      let m = reached-none_iff hit_stop a in
      (
        (λ h. let q = k.0 (i.0 h) in (q.0, (hs x).0 q.1), λ h. i.1 (k.1 (h.0, (hs x).1 h.1))),
        (
          λ h.
              let q = j.0 h in
              let w = l.0 q.1 in
              (
                w.0,
                (ht x).0 w.1,
                λ s e z. let u = m.0 q.0 s e in let v = (hs s).1 z in ground (arith, u, v),
              ),
          λ h. j.1 (
            m.1 (λ s e. elim (Bool-cases (hit_stop s)) [
              | inl y ↦ absurd (h.2 s e ((hs s).0 y))
              | inr y ↦ y
            ]),
            l.1 (h.0, (ht x).1 h.1),
          ),
        ),
      )

  module _ (ordered : IsOrdered F) (c : CandleTick F) (range : f.le c.low c.high ≡ true) where
    side_iff :
        (long : Bool) (a b : Option F) (x : F)
        → let stop_at = λ (s v : F). if long then f.le v s else f.le s v in
          let target_at = λ (t v : F). if long then f.le t v else f.le v t in
          let r =
            if long
            then first_trigger (reached (λ s. f.le c.low s) a) (reached (λ t. f.le t c.high) b)
            else first_trigger (reached (λ s. f.le s c.high) a) (reached (λ t. f.le c.low t) b) in
          ((r ≡ some (stop_loss x)) ↔ ((a ≡ some x) × Trades c (stop_at x)))
          × ((r ≡ some (take_profit x)) ↔ (
              (b ≡ some x)
              × Trades c (target_at x)
              × ((s : F) → a ≡ some s → ¬ Trades c (stop_at s))))
    side_iff true =
        triggered_iff (λ s. f.le c.low s) (λ t. f.le t c.high) _ _ (below_iff ordered c range)
          (above_iff ordered c range)
    side_iff false =
        triggered_iff (λ s. f.le s c.high) (λ t. f.le c.low t) _ _ (above_iff ordered c range)
          (below_iff ordered c range)

    -- For an ordered type and a candle whose low is not above its high: a position is stopped at a
    -- level exactly if that is its stop and some price in the range of the candle is at the stop or
    -- worse, and takes its profit exactly if the level is its target, some price in the range is at
    -- the target or better, and none is at its stop or worse, if it has one.
    pub touched_iff :
        (p : Position F) (x : F)
        → ((touched p c ≡ some (stop_loss x)) ↔ ((p.stop_loss ≡ some x) × Trades c (at_stop p x)))
          × ((touched p c ≡ some (take_profit x)) ↔ (
              (p.take_profit ≡ some x)
              × Trades c (at_target p x)
              × ((s : F) → p.stop_loss ≡ some s → ¬ Trades c (at_stop p s))))
    unfolding touched
    touched_iff p x = side_iff (same_side p.side buy) p.stop_loss p.take_profit x
