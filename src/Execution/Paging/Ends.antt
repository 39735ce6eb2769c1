-- ===== src/Execution/Paging/Ends.antt =====
-- How the loop over pages ends, and what it has gone through then.
use agente_tradin_ia_v2_mult.Common.{
  ℕ, zero, suc, String, Option, none, some, List, ◌∷◌, ◌++◌, map, str_eq, str_eq_iff, ◌≡◌, ◌⊎◌,
  refl, sym, ap, ◌∙◌, arith, Bool-cases, inl, inr,
}
use mathlib.Core.List.{map-append}
use agente_tradin_ia_v2_mult.Execution.Paging.{
  Reply, raises, timed_out, malformed, page, is_seen, Reader, follow, after_rows, on_reply,
  walk_pages,
}

-- The pages from a request on, to one that names no further page, and their rows.
pub data Pages {R : Type 0} (reply : ℕ → Option String → Reply R)
    : ℕ → Option String → List R → Type 0 where
  last :
      {k : ℕ} {cursor : Option String} (rows : List R)
      → reply k cursor ≡ page rows none
      → Pages reply k cursor rows
  last_empty :
      {k : ℕ} {cursor : Option String} (rows : List R)
      → reply k cursor ≡ page rows (some "")
      → Pages reply k cursor rows
  more :
      {k : ℕ} {cursor : Option String} (rows rest all : List R) (c : String)
      → reply k cursor ≡ page rows (some c)
      → Pages reply (suc k) (some c) rest
      → all ≡ rows ++ rest
      → Pages reply k cursor all

-- Rows that are read, and further rows.
pub parsed-append :
    {R A : Type 0} (f : R → Option A) (rows rest : List R) (xs ys : List A)
    → map f rows ≡ map some xs
    → map f rest ≡ map some ys
    → map f (rows ++ rest) ≡ map some (xs ++ ys)
parsed-append f rows rest xs ys h k =
    map-append f rows rest
    ∙ ap (λ zs. zs ++ map f rest) h
    ∙ ap (λ zs. map some xs ++ zs) k
    ∙ sym (map-append some xs ys)

-- What taking rows in does to what was gathered, page by page.
pub record Adding {R A O : Type 0} (read : Reader R A O) : Type 1 where
  pub Adds : A → A → List R → Type 0
  pub one : (a b : A) (rows : List R) → read.take rows a ≡ inl b → Adds a b rows
  pub two :
      (a b c : A) (rows rest : List R) → Adds a b rows → Adds b c rest → Adds a c (rows ++ rest)

module _ {R A O : Type 0} (read : Reader R A O) (adding : Adding read)
    (reply : ℕ → Option String → Reply R) where
  -- The loop came to the end of the pages.
  pub record Closed (k : ℕ) (cursor : Option String) (a : A) (o : O) : Type 0 where
    pub rows : List R
    pub gathered : A
    pub pages : Pages reply k cursor rows
    pub adds : adding.Adds a gathered rows
    pub closes : o ≡ read.close gathered

  -- Or it ended before.
  abbrev pub Ended : O → Type 0
  Ended o =
      (o ≡ read.raised)
      ⊎ (((a : A) × (o ≡ read.fail a)) ⊎ ((rows : List R) × (a : A) × (read.take rows a ≡ inr o)))

  abbrev Outcome : ℕ → Option String → A → O → Type 0
  Outcome k cursor a o = Closed k cursor a o ⊎ Ended o

  prolong :
      (k : ℕ) (cursor : Option String) (a b : A) (o : O) (rows : List R) (c : String)
      → reply k cursor ≡ page rows (some c)
      → read.take rows a ≡ inl b
      → Outcome (suc k) (some c) b o
      → Outcome k cursor a o
  prolong k cursor a b o rows c e t (inr n) = inr n
  prolong k cursor a b o rows c e t (inl l) = inl (record {
    rows = rows ++ l.rows;
    gathered = l.gathered;
    pages = more rows l.rows (rows ++ l.rows) c e l.pages refl;
    adds = adding.two a b l.gathered rows l.rows (adding.one a b rows t) l.adds;
    closes = l.closes;
  })

  follow-Outcome :
      (rest : String → O) (seen : List String) (next : Option String) (k : ℕ)
      (cursor : Option String) (a b : A) (rows : List R)
      → reply k cursor ≡ page rows next
      → read.take rows a ≡ inl b
      → ((c : String) → Outcome (suc k) (some c) b (rest c))
      → Outcome k cursor a (follow read rest seen next b)
  unfolding follow
  follow-Outcome rest seen none k cursor a b rows e t ih = inl (record {
    rows = rows;
    gathered = b;
    pages = last rows e;
    adds = adding.one a b rows t;
    closes = refl;
  })
  follow-Outcome rest seen (some c) k cursor a b rows e t ih = elim (Bool-cases (str_eq c "")) [
    | inl blank ↦ inl (record {
      rows = rows;
      gathered = b;
      pages = last_empty rows (e ∙ ap (λ x. page rows (some x)) ((str_eq_iff c "").0 blank));
      adds = adding.one a b rows t;
      closes = ground (arith, blank);
    })
    | inr named ↦ elim (Bool-cases (is_seen c seen)) [
      | inl old ↦ inr (inr (inl (b, ground (arith, named, old))))
      | inr new ↦ rw (named, new) (prolong k cursor a b (rest c) rows c e t (ih c))
    ]
  ]

  after_rows-Outcome :
      (next : String → A → O) (seen : List String) (cursor' : Option String) (k : ℕ)
      (cursor : Option String) (a : A) (rows : List R) (t : A ⊎ O)
      → reply k cursor ≡ page rows cursor'
      → read.take rows a ≡ t
      → ((c : String) (b : A) → Outcome (suc k) (some c) b (next c b))
      → Outcome k cursor a (after_rows read (λ b. follow read (λ c. next c b) seen cursor' b) t)
  after_rows-Outcome next seen cursor' k cursor a rows (inl b) e t ih =
      follow-Outcome (λ c. next c b) seen cursor' k cursor a b rows e t (λ c. ih c b)
  after_rows-Outcome next seen cursor' k cursor a rows (inr o) e t ih = inr (inr (inr (rows, a, t)))

  on_reply-Outcome :
      (next : String → A → O) (seen : List String) (k : ℕ) (cursor : Option String) (a : A)
      (r : Reply R)
      → reply k cursor ≡ r
      → ((c : String) (b : A) → Outcome (suc k) (some c) b (next c b))
      → Outcome k cursor a (on_reply read next seen a r)
  unfolding on_reply
  on_reply-Outcome next seen k cursor a raises e ih = inr (inl refl)
  on_reply-Outcome next seen k cursor a timed_out e ih = inr (inr (inl (a, refl)))
  on_reply-Outcome next seen k cursor a malformed e ih = inr (inr (inl (a, refl)))
  on_reply-Outcome next seen k cursor a (page rows cursor') e ih =
      after_rows-Outcome next seen cursor' k cursor a rows (read.take rows a) e refl ih

  pub walk_pages-Outcome :
      (pages k : ℕ) (cursor : Option String) (seen : List String) (a : A)
      → Outcome k cursor a (walk_pages read reply pages k cursor seen a)
  unfolding walk_pages
  walk_pages-Outcome zero k cursor seen a = inr (inr (inl (a, refl)))
  walk_pages-Outcome (suc pages) k cursor seen a =
      on_reply-Outcome (λ c. walk_pages read reply pages (suc k) (some c) (c ∷ seen)) seen k cursor
        a (reply k cursor) refl (λ c b. walk_pages-Outcome pages (suc k) (some c) (c ∷ seen) b)
