-- ===== src/Execution/FillService/Positions.antt =====
-- How applying a snapshot moves the positions.
use text.Mathlib.TextPositions.{eq_refl as str_eq_refl}
use agente_tradin_ia_v2_mult.Common.{
  ℕ, String, Bool, true, false, ◌&&◌, Option, none, some, List, [], ◌∷◌, ◌≡◌, inl, inr, refl, subst,
  arith, Bool-cases, ◌∙◌, All, All-append, str_eq,
}
use agente_tradin_ia_v2_mult.Float.{Float}
use agente_tradin_ia_v2_mult.Execution.Base.{OrderStatusSnapshot}
use agente_tradin_ia_v2_mult.Persistence.Models.{Order, Execution, Position}
use agente_tradin_ia_v2_mult.Persistence.Repo.{
  is_open, close_position, reduce_position, add_to_position,
}
use agente_tradin_ia_v2_mult.Execution.Books.{
  Outcome, done, illegal_transition, zero_division, Books, Decision, FillApplicationResult, ◌>>=◌,
}
use agente_tradin_ia_v2_mult.Execution.FillService.{
  Applying, applying, reanchor, apply_entry, apply_close, apply_row, apply_rows, conclude,
  apply_order_snapshot, realized_delta, closes_fully,
}
use agente_tradin_ia_v2_mult.Execution.FillService.Steps.{apply_order_snapshot-Applied}
use agente_tradin_ia_v2_mult.Execution.FillService.Status.{settled-symbol}

module _ {F : Type 0} where
  -- An open row of the symbol.
  abbrev pub is_open_of : String → Position F → Bool
  is_open_of symbol p = is_open p.status && str_eq p.symbol symbol

  abbrev pub NoneOpen : String → List (Position F) → Type 0
  NoneOpen symbol = All λ p. is_open_of symbol p ≡ false

  abbrev pub IsOpenOf : String → Option (Position F) → Type 0
  IsOpenOf symbol none = Unit
  IsOpenOf symbol (some p) = is_open_of symbol p ≡ true

  -- The row in focus is the only open row of the symbol; without one there is none.
  pub record IsFocused (symbol : String) (before : List (Position F))
      (position : Option (Position F)) (behind : List (Position F)) : Type 0 where
    pub none_before : NoneOpen symbol before
    pub focus_open : IsOpenOf symbol position
    pub none_behind : NoneOpen symbol behind

  abbrev pub FocusedLoop : String → Applying F → Type 0
  FocusedLoop symbol a = IsFocused symbol a.before a.position a.behind

module _ {F : Type 0} ⦃f : Float F⦄ where
  reanchor-open :
      (symbol : String) (protection : Option (F × F)) (p : Position F)
      → is_open_of symbol (reanchor protection p) ≡ is_open_of symbol p
  unfolding reanchor
  reanchor-open symbol none p = refl
  reanchor-open symbol (some (s, t)) p = ground arith

  close_position_closed :
      (now : ℕ) (p : Position F) (delta fee : F) (symbol : String)
      → is_open_of symbol (close_position now p delta fee) ≡ false
  unfolding close_position
  close_position_closed now p delta fee symbol = refl

  reduce_position_open :
      (p : Position F) (qty delta fee : F) (symbol : String)
      → is_open_of symbol (reduce_position p qty delta fee) ≡ is_open_of symbol p
  unfolding reduce_position
  reduce_position_open p qty delta fee symbol = refl

  abbrev Keeps : (Applying F → Type 0) → Outcome (Applying F) → Type 0
  Keeps P (done a) = P a
  Keeps P illegal_transition = Unit
  Keeps P zero_division = Unit

  apply_close-Focused :
      (now : ℕ) (symbol : String) (row : Execution F) (a : Applying F)
      (position : Option (Position F))
      → IsFocused symbol a.before position a.behind
      → a.position ≡ position
      → FocusedLoop symbol (apply_close now row position a)
  unfolding apply_close
  apply_close-Focused now symbol row a none h e = ground arith
  apply_close-Focused now symbol row a (some p) h e = elim (Bool-cases (closes_fully p row)) [
    | inl full ↦ rw full (record {
      none_before =
          All-append (λ x. is_open_of symbol x ≡ false) a.before
            (close_position now p (realized_delta p row) row.fee ∷ a.behind) h.none_before
            (close_position_closed now p (realized_delta p row) row.fee symbol, h.none_behind);
      focus_open = tt;
      none_behind = tt;
    })
    | inr part ↦ rw part (record {
      none_before = h.none_before;
      focus_open =
          reduce_position_open p row.fill_qty (realized_delta p row) row.fee symbol ∙ h.focus_open;
      none_behind = h.none_behind;
    })
  ]

  add_to_position_open :
      (p : Position F) (qty price fee : F) (symbol : String) {p' : Position F}
      → add_to_position p qty price fee ≡ some p'
      → is_open_of symbol p' ≡ is_open_of symbol p
  unfolding add_to_position
  add_to_position_open p qty price fee symbol e = ground arith

  apply_entry-Focused :
      (protection : Option (F × F)) (o : Order F) (row : Execution F) (a : Applying F)
      (position : Option (Position F))
      → IsFocused o.symbol a.before position a.behind
      → a.position ≡ position
      → Keeps (FocusedLoop o.symbol) (apply_entry protection o row position a)
  unfolding apply_entry
  apply_entry-Focused protection o row a none h e =
      ground (arith, h, reanchor-open o.symbol protection, str_eq_refl o.symbol)
  apply_entry-Focused protection o row a (some p) h e = ground (
    arith,
    h,
    add_to_position_open p row.fill_qty row.fill_price row.fee o.symbol,
    λ (p' : Position F). reanchor-open o.symbol protection p',
  )

  apply_row-Focused :
      (c : Bool) (now : ℕ) (protection : Option (F × F)) (o : Order F) (row : Execution F)
      (a : Applying F)
      → FocusedLoop o.symbol a
      → Keeps (FocusedLoop o.symbol) (apply_row c now protection o row a)
  unfolding apply_row
  apply_row-Focused true now protection o row a h =
      apply_close-Focused now o.symbol row a a.position h refl
  apply_row-Focused false now protection o row a h =
      apply_entry-Focused protection o row a a.position h refl

  Keeps->>= :
      (P Q : Applying F → Type 0) (m : Outcome (Applying F)) (k : Applying F → Outcome (Applying F))
      → Keeps P m
      → ((a : Applying F) → P a → Keeps Q (k a))
      → Keeps Q (m >>= k)
  Keeps->>= P Q (done a) k h g = g a h
  Keeps->>= P Q illegal_transition k h g = tt
  Keeps->>= P Q zero_division k h g = tt

  apply_rows-Focused :
      (c : Bool) (now : ℕ) (protection : Option (F × F)) (o : Order F) (rows : List (Execution F))
      (a : Applying F)
      → FocusedLoop o.symbol a
      → Keeps (FocusedLoop o.symbol) (apply_rows c now protection o rows a)
  unfolding apply_rows
  apply_rows-Focused c now protection o [] a h = h
  apply_rows-Focused c now protection o (row ∷ rows) a h =
      Keeps->>= (FocusedLoop o.symbol) (FocusedLoop o.symbol) (apply_row c now protection o row a)
        (apply_rows c now protection o rows) (apply_row-Focused c now protection o row a h)
        (λ a' h'. apply_rows-Focused c now protection o rows a' h')

  loop-Focused :
      {m : Outcome (Applying F)} {a : Applying F} (symbol : String)
      → m ≡ done a
      → Keeps (FocusedLoop symbol) m
      → FocusedLoop symbol a
  loop-Focused symbol e h = subst (Keeps (FocusedLoop symbol)) e h

  -- If the order's symbol has at most one open row, the one in focus, so it has after the call,
  -- for any fills of an entry or of a closing order.
  pub apply_order_snapshot-IsFocused :
      (now max_failures : ℕ) (decision : Option (Decision F)) (is_close : Bool)
      (snap : OrderStatusSnapshot F) (b : Books F) {r : Books F × FillApplicationResult F}
      → apply_order_snapshot now max_failures decision is_close snap b ≡ done r
      → IsFocused b.order.symbol b.before b.position b.behind
      → IsFocused b.order.symbol r.0.before r.0.position r.0.behind
  unfolding conclude
  apply_order_snapshot-IsFocused now m d c snap b {r} e h =
      let s = apply_order_snapshot-Applied now m d c snap b e in
      let same = (settled-symbol now m d c snap b s).0 in
      rw (s.result, ← same)
        (loop-Focused _ s.applied (apply_rows-Focused c now _ _ _ (applying b) (rw same h)))
