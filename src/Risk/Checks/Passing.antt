-- ===== src/Risk/Checks/Passing.antt =====
-- When a sequence of checks goes on, and with what value.
use agente_tradin_ia_v2_mult.Common.{
  Bool, true, false, Option, none, some, ◌≡◌, ◌↔◌, refl, ap, arith,
}
use agente_tradin_ia_v2_mult.Risk.Checks.{
  Check, Entry, Checks, Verdict, go, stop, zero_division, Decide, after, ◌>>=◌, ◌>>◌, pure, note,
  check_as, or_zero_division, decided,
}

-- Whatever was recorded before, the decision ends with `a` exactly if `P a`.
abbrev pub Passes : {F A : Type 0} → Decide F A → (A → Type 0) → Type 0
Passes {F} {A} m P = (checks : Checks F) (a : A) → (decided (m checks) ≡ some a) ↔ P a

pub Passes-check_as :
    {F : Type 0} (name as_name : Check) (passed : Bool)
    → Passes (check_as {F = F} name as_name passed) (λ _. passed ≡ true)
Passes-check_as name as_name true checks tt = ground arith
Passes-check_as name as_name false checks tt = ground arith

pub Passes-note :
    {F : Type 0} (name : Check) (entry : Entry F) → Passes (note name entry) (λ _. Unit {0})
Passes-note name entry checks tt = ground arith

pub Passes-pure : {F A : Type 0} (a : A) → Passes (pure {F = F} a) (λ b. a ≡ b)
Passes-pure a checks b = ground arith

pub Passes-or_zero_division :
    {F A : Type 0} (r : Option A) → Passes (or_zero_division {F = F} r) (λ b. r ≡ some b)
Passes-or_zero_division none checks b = ground arith
Passes-or_zero_division (some a) checks b = ground arith

decided-after_to :
    {F A B : Type 0} (k : A → Decide F B) (v : Verdict F A) (b : B)
    → decided (after k v) ≡ some b
    → (a : A) × (checks : Checks F) × (v ≡ go a checks) × (decided (k a checks) ≡ some b)
decided-after_to k (go a checks) b h = (a, checks, refl, h)
decided-after_to k (stop _ _) b h = absurd (ground arith)
decided-after_to k zero_division b h = absurd (ground arith)

decided-after_from :
    {F A B : Type 0} (k : A → Decide F B) (v : Verdict F A) (a : A) (b : B)
    → decided v ≡ some a
    → ((checks : Checks F) → decided (k a checks) ≡ some b)
    → decided (after k v) ≡ some b
decided-after_from k (go a' checks) a b h hk = ground (arith, hk checks)
decided-after_from k (stop _ _) a b h hk = absurd (ground arith)
decided-after_from k zero_division a b h hk = absurd (ground arith)

pub Passes->>= :
    {F A B : Type 0} {P : A → Type 0} {Q : A → B → Type 0} (m : Decide F A) (k : A → Decide F B)
    → Passes m P
    → ((a : A) → Passes (k a) (Q a))
    → Passes (m >>= k) (λ b. (a : A) × P a × Q a b)
Passes->>= m k pm pk checks b = (
  λ h.
      let r = decided-after_to k (m checks) b h in
      (r.0, (pm checks r.0).0 (ap decided r.2), (pk r.0 r.1 b).0 r.3),
  λ h.
      decided-after_from k (m checks) h.0 b ((pm checks h.0).1 h.1)
        (λ checks'. (pk h.0 checks' b).1 h.2),
)

pub Passes->> :
    {F B : Type 0} {P : Type 0} {Q : B → Type 0} (m : Decide F (Unit {0})) (k : Decide F B)
    → Passes m (λ _. P)
    → Passes k Q
    → Passes (m >> k) (λ b. P × Q b)
Passes->> m k pm pk checks b =
    let i = Passes->>= m (λ _. k) pm (λ _. pk) checks b in
    (λ h. let r = i.0 h in (r.1, r.2), λ h. i.1 (tt, h.0, h.1))
