-- ===== src/Execution/BybitDemo/Sides.antt =====
-- The sides that the exchange reports, against those on file.
use agente_tradin_ia_v2_mult.Common.{
  String, true, false, Option, none, some, List, [], ◌∷◌, ◌≡◌, ◌⊎◌, refl, subst, arith, All, inl,
  inr,
}
use agente_tradin_ia_v2_mult.Float.{Float}
use agente_tradin_ia_v2_mult.Persistence.Models.{Side, buy, sell, other, is_tradable, same_side}
use agente_tradin_ia_v2_mult.Execution.Reconciliation.{PositionView}
use agente_tradin_ia_v2_mult.Execution.Reconciliation.Agreement.{IsReported}
use agente_tradin_ia_v2_mult.Execution.BybitDemo.{
  PositionRow, side_text, or_zero, position_view, get_position,
}

-- The words that the exchange has for a side, and that `submit` sends.
abbrev pub IsExchangeSide : String → Type 0
IsExchangeSide s = (s ≡ "Buy") ⊎ (s ≡ "Sell")

word_side :
    (word : String) (side : Side)
    → IsExchangeSide word
    → is_tradable side ≡ true
    → same_side (side_text word) side ≡ false
unfolding side_text
word_side word buy (inl e) t = rw e refl
word_side word sell (inl e) t = rw e refl
word_side word buy (inr e) t = rw e refl
word_side word sell (inr e) t = rw e refl
word_side word (other s) w t = absurd (ground (arith, t))

module _ {F : Type 0} ⦃f : Float F⦄ where
  position_view-side :
      (symbol : String) (row : PositionRow F) (size price : Option F) (remote : PositionView F)
      → position_view symbol row size price ≡ some (some remote)
      → remote.side ≡ side_text row.side
  position_view-side symbol row none price remote h = absurd (ground (arith, h))
  position_view-side symbol row (some size) none remote h = absurd (ground (arith, h))
  position_view-side symbol row (some size) (some price) remote h = ground (arith, h)

  abbrev pub AreExchangeSides : Option (List (PositionRow F)) → Type 0
  AreExchangeSides none = Unit
  AreExchangeSides (some rows) = All (λ row. IsExchangeSide row.side) rows

  -- What the exchange reports with its words for the sides is never a position on file.
  pub get_position-disagrees :
      (symbol : String) (rows : Option (List (PositionRow F))) (here remote : PositionView F)
      → AreExchangeSides rows
      → get_position symbol rows ≡ some (some remote)
      → is_tradable here.side ≡ true
      → IsReported here (some (some remote))
      → ⊥
  unfolding get_position
  get_position-disagrees symbol none here remote w p t agree = absurd (ground (arith, p))
  get_position-disagrees symbol (some []) here remote w p t agree = absurd (ground (arith, p))
  get_position-disagrees symbol (some (row ∷ rows)) here remote w p t agree =
      let side =
        position_view-side symbol row (or_zero row.size) (or_zero row.avg_price) remote p in
      let differ = word_side row.side here.side w.0 t in
      let same : same_side (side_text row.side) here.side ≡ true =
        subst (λ s. same_side s here.side ≡ true) side agree.1 in
      absurd (ground (arith, differ, same))
