-- ===== src/Execution/PaperLocal/Net.antt =====
-- The book as a signed quantity.
use text.Mathlib.TextPositions.{eq_refl as str_eq_refl}
use agente_tradin_ia_v2_mult.Execution.Reconciliation.{Dict, get, set}
use agente_tradin_ia_v2_mult.Common.{
  ℕ, ◌*◌, ◌/◌, ◌^◌, [], ◌∷◌, str_eq, str_eq_iff, Option-cases, String, true, false, Option, none,
  some, ◌≡◌, refl, sym, subst, arith, Bool-cases, inl, inr, if◌then◌else◌, some_injective,
}
use agente_tradin_ia_v2_mult.Common.Int.{ℤ, pos, ◌+ℤ◌, ◌-ℤ◌, ◌*ℤ◌, ◌/ℤ◌, ltb_ℤ, leb_ℤ, eqb_ℤ}
use agente_tradin_ia_v2_mult.Float.{Float}
use agente_tradin_ia_v2_mult.Persistence.Models.{Side, buy, same_side, is_tradable}
use agente_tradin_ia_v2_mult.Execution.PaperLocal.{
  PaperPosition, position_after, delete, write_position, apply_to_position,
}

-- Exact arithmetic, in integers of the given unit: a literal is one as far as the unit reaches.
abbrev pub exact : ℕ → Float ℤ
exact unit = record {
  add = ◌+ℤ◌;
  sub = ◌-ℤ◌;
  mul = λ a b. ◌/ℤ◌ (a *ℤ b) (pos unit);
  quot = λ a b. ◌/ℤ◌ (a *ℤ pos unit) b;
  lt = ltb_ℤ;
  le = leb_ℤ;
  eq = eqb_ℤ;
  is_finite = λ _. true;
  of_ℕ = λ n. pos (n * unit);
  literal = λ m k. pos (m * unit / 10 ^ k);
}

-- A quantity bought counts for more, one sold for less.
abbrev pub signed : Side → ℤ → ℤ
signed side qty = if same_side side buy then qty else pos 0 -ℤ qty

abbrev pub net : Option (PaperPosition ℤ) → ℤ
net none = pos 0
net (some p) = signed p.side p.qty

abbrev pub IsTradable : Option (PaperPosition ℤ) → Type 0
IsTradable none = Unit {0}
IsTradable (some p) = is_tradable p.side ≡ true

-- A position holds what it should, or it is gone, and what it should hold is at most 1e-12 either way.
abbrev pub IsWithin : ℕ → Option (PaperPosition ℤ) → ℤ → Type 0
IsWithin unit (some p) qty = net (some p) ≡ qty
IsWithin unit none qty =
    (leb_ℤ qty (pos (unit / 1_000_000_000_000)) ≡ true)
    × (leb_ℤ (pos 0 -ℤ qty) (pos (unit / 1_000_000_000_000)) ≡ true)

reduced : (a b : ℤ) → pos 0 -ℤ (a -ℤ b) ≡ (pos 0 -ℤ a) +ℤ b
unfolding ◌+ℤ◌ ◌-ℤ◌
reduced a b = ground arith

turned : (a b : ℤ) → b -ℤ a ≡ (pos 0 -ℤ a) +ℤ b
unfolding ◌+ℤ◌ ◌-ℤ◌
turned a b = ground arith

turned_back : (a b : ℤ) → pos 0 -ℤ (b -ℤ a) ≡ a +ℤ (pos 0 -ℤ b)
unfolding ◌+ℤ◌ ◌-ℤ◌
turned_back a b = ground arith

taken : (a b : ℤ) → a -ℤ b ≡ a +ℤ (pos 0 -ℤ b)
unfolding ◌+ℤ◌ ◌-ℤ◌
taken a b = ground arith

doubled : (a b : ℤ) → pos 0 -ℤ (a +ℤ b) ≡ (pos 0 -ℤ a) +ℤ (pos 0 -ℤ b)
unfolding ◌+ℤ◌ ◌-ℤ◌
doubled a b = ground arith

from_none : (a : ℤ) → a ≡ pos 0 +ℤ a
unfolding ◌+ℤ◌
from_none a = ground arith

-- A difference within the tolerance, on either side.
abbrev IsSmall : ℕ → ℤ → Type 0
IsSmall t x = (leb_ℤ x (pos t) ≡ true) × (leb_ℤ (pos 0 -ℤ x) (pos t) ≡ true)

small :
    (t : ℕ) (x : ℤ) → leb_ℤ (if ltb_ℤ x (pos 0) then pos 0 -ℤ x else x) (pos t) ≡ true → IsSmall t x
unfolding ◌-ℤ◌
small t x h = ground arith

IsSmall-back : (t : ℕ) (x : ℤ) → IsSmall t x → IsSmall t (pos 0 -ℤ x)
unfolding ◌-ℤ◌
IsSmall-back t x h = ground arith

after_none :
    (unit : ℕ) (symbol : String) (side : Side) (qty price : ℤ) (p' : Option (PaperPosition ℤ))
    → position_after {F = ℤ} ⦃f = exact unit⦄ symbol side qty price none ≡ some p'
    → IsWithin unit p' (pos 0 +ℤ signed side qty)
unfolding position_after
after_none unit symbol side qty price p' h =
    subst (λ o. IsWithin unit o (pos 0 +ℤ signed side qty)) (some_injective h)
      (from_none (signed side qty))

after_same :
    (unit : ℕ) (symbol : String) (side : Side) (qty price : ℤ) (p : PaperPosition ℤ)
    (p' : Option (PaperPosition ℤ))
    → is_tradable side ≡ true
    → same_side p.side side ≡ true
    → position_after {F = ℤ} ⦃f = exact unit⦄ symbol side qty price (some p) ≡ some p'
    → IsWithin unit p' (net (some p) +ℤ signed side qty)
unfolding position_after
after_same unit symbol side qty price p p' ht hs h = ground (arith, doubled p.qty qty)

closed_out :
    (t : ℕ) (side : Side) (p : PaperPosition ℤ) (qty : ℤ)
    → is_tradable side ≡ true
    → is_tradable p.side ≡ true
    → same_side p.side side ≡ false
    → leb_ℤ (if ltb_ℤ (qty -ℤ p.qty) (pos 0) then pos 0 -ℤ (qty -ℤ p.qty) else qty -ℤ p.qty) (pos t)
      ≡ true
    → IsSmall t (net (some p) +ℤ signed side qty)
closed_out t side p qty ht hp hs h =
    let s = small t (qty -ℤ p.qty) h in
    ground (arith, s, IsSmall-back t (qty -ℤ p.qty) s, turned p.qty qty, turned_back p.qty qty)

after_other :
    (unit : ℕ) (symbol : String) (side : Side) (qty price : ℤ) (p : PaperPosition ℤ)
    (p' : Option (PaperPosition ℤ))
    → is_tradable side ≡ true
    → is_tradable p.side ≡ true
    → same_side p.side side ≡ false
    → position_after {F = ℤ} ⦃f = exact unit⦄ symbol side qty price (some p) ≡ some p'
    → IsWithin unit p' (net (some p) +ℤ signed side qty)
unfolding position_after
after_other unit symbol side qty price p p' ht hp hs h = ground (
  arith,
  reduced p.qty qty,
  turned p.qty qty,
  turned_back p.qty qty,
  taken p.qty qty,
  closed_out (unit / 1_000_000_000_000) side p qty ht hp hs,
)

position_after-IsWithin :
    (unit : ℕ) (symbol : String) (side : Side) (qty price : ℤ) (p p' : Option (PaperPosition ℤ))
    → is_tradable side ≡ true
    → IsTradable p
    → position_after {F = ℤ} ⦃f = exact unit⦄ symbol side qty price p ≡ some p'
    → IsWithin unit p' (net p +ℤ signed side qty)
position_after-IsWithin unit symbol side qty price none p' ht hp h =
    after_none unit symbol side qty price p' h
position_after-IsWithin unit symbol side qty price (some p) p' ht hp h =
    elim (Bool-cases (same_side p.side side)) [
      | inl same ↦ after_same unit symbol side qty price p p' ht same h
      | inr differs ↦ after_other unit symbol side qty price p p' ht hp differs h
    ]

pub get-set : {V : Type 0} (k : String) (v : V) (d : Dict V) → get k (set k v d) ≡ some v
get-set k v [] = ground (arith, str_eq_refl k)
get-set k v (item ∷ d) = ground (arith, get-set k v d)

pub get-set_other :
    {V : Type 0} (j k : String) (v : V) (d : Dict V)
    → str_eq j k ≡ false
    → get j (set k v d) ≡ get j d
get-set_other j k v [] h = ground (arith, h)
get-set_other j k v (item ∷ d) h = elim (Bool-cases (str_eq k item.0)) [
  | inl e ↦
      let same = (str_eq_iff k item.0).0 e in
      let differs : str_eq j item.0 ≡ false = subst (λ t. str_eq j t ≡ false) same h in
      ground (arith, e, differs)
  | inr n ↦ ground (arith, n, get-set_other j k v d h)
]

get-delete : {V : Type 0} (k : String) (d : Dict V) → get k (delete k d) ≡ none
get-delete k [] = refl
get-delete k (item ∷ d) = ground (arith, get-delete k d)

get-delete_other :
    {V : Type 0} (j k : String) (d : Dict V) → str_eq j k ≡ false → get j (delete k d) ≡ get j d
get-delete_other j k [] h = refl
get-delete_other j k (item ∷ d) h = elim (Bool-cases (str_eq k item.0)) [
  | inl e ↦
      let same = (str_eq_iff k item.0).0 e in
      let differs : str_eq j item.0 ≡ false = subst (λ t. str_eq j t ≡ false) same h in
      ground (arith, e, differs, get-delete_other j k d h)
  | inr n ↦ ground (arith, n, get-delete_other j k d h)
]

get-write :
    (j k : String) (p : Option (PaperPosition ℤ)) (book : Dict (PaperPosition ℤ))
    → (get k (write_position k p book) ≡ p)
      × (str_eq j k ≡ false → get j (write_position k p book) ≡ get j book)
get-write j k none book = (get-delete k book, get-delete_other j k book)
get-write j k (some p) book = (get-set k p book, get-set_other j k p book)

-- In exact arithmetic, over integers of any unit, a fill of a BUY or SELL order moves the signed
-- quantity that the book holds of its symbol, where that is held on one of the two sides, by the
-- fill's own: it opens, grows, reduces or turns the position around accordingly, and takes it off
-- the book only if at most 1e-12 would be left of it on either side. No other symbol's position is
-- touched.
pub apply_to_position-IsWithin :
    (unit : ℕ) (symbol : String) (side : Side) (qty price : ℤ) (book book' : Dict (PaperPosition ℤ))
    → is_tradable side ≡ true
    → IsTradable (get symbol book)
    → apply_to_position {F = ℤ} ⦃f = exact unit⦄ symbol side qty price book ≡ some book'
    → IsWithin unit (get symbol book') (net (get symbol book) +ℤ signed side qty)
      × ((other_symbol : String)
          → str_eq other_symbol symbol ≡ false
          → get other_symbol book' ≡ get other_symbol book)
unfolding apply_to_position
apply_to_position-IsWithin unit symbol side qty price book book' ht hp h =
    let after : Option (Option (PaperPosition ℤ)) =
      position_after {F = ℤ} ⦃f = exact unit⦄ symbol side qty price (get symbol book) in
    elim (Option-cases after) [
      | inl n ↦ absurd (ground (arith, n, h))
      | inr p ↦
          let e : write_position symbol p.0 book ≡ book' =
            some_injective (rw (p.1, apply_to_position) at h) in
          let w = get-write symbol symbol p.0 book in
          subst
            (λ b.
              IsWithin unit (get symbol b) (net (get symbol book) +ℤ signed side qty)
              × ((other_symbol : String)
                  → str_eq other_symbol symbol ≡ false
                  → get other_symbol b ≡ get other_symbol book))
            e
            (
              subst (λ o. IsWithin unit o (net (get symbol book) +ℤ signed side qty)) (sym w.0)
                  (position_after-IsWithin unit symbol side qty price (get symbol book) p.0 ht hp
                    p.1),
              λ j. (get-write j symbol p.0 book).1,
            )
    ]
