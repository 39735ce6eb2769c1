-- ===== src/Execution/Paging.antt =====
-- app/execution: the loop over the pages of an answer of the exchange, which funding.py and
-- bybit_demo.py write three times.
pub mod Ends
use agente_tradin_ia_v2_mult.Common.{
  ℕ, zero, suc, String, Bool, true, false, ◌||◌, Option, none, some, List, [], ◌∷◌, str_eq, ◌⊎◌,
  inl, inr, if◌then◌else◌,
}

-- What a request comes to: an exception that is not caught, one that is, a payload without a list of
-- rows, or a page with its `nextPageCursor`.
pub data Reply (R : Type 0) : Type 0 where
  raises timed_out malformed : Reply R
  page : List R → Option String → Reply R

-- `cursor in seen_cursors`
unfoldable pub is_seen : String → List String → Bool
is_seen s [] = false
is_seen s (t ∷ ts) = str_eq s t || is_seen s ts

-- What a caller makes of the loop: `take` adds the rows of a page to what was gathered, or ends the
-- loop; `close` is for the end of the pages, `fail` for a page that does not come or a broken
-- sequence of pages, and `raised` for an exception.
pub record Reader (R A O : Type 0) : Type 0 where
  pub take : List R → A → A ⊎ O
  pub close : A → O
  pub fail : A → O
  pub raised : O

module _ {R A O : Type 0} (read : Reader R A O) where
  -- After the rows of a page: an absent or empty cursor is the end, a cursor that was seen is a break.
  unfoldable pub follow : (String → O) → List String → Option String → A → O
  unfolding is_seen
  follow rest seen none gathered = read.close gathered
  follow rest seen (some c) gathered =
      let more = rest c in
      if str_eq c ""
      then read.close gathered
      else if is_seen c seen
      then read.fail gathered
      else more

  abbrev pub after_rows : (A → O) → A ⊎ O → O
  after_rows rest (inl gathered) = rest gathered
  after_rows rest (inr out) = out

  -- One round, `next` being the rounds after it from a cursor.
  unfoldable pub on_reply : (String → A → O) → List String → A → Reply R → O
  unfolding follow
  on_reply next seen gathered raises = read.raised
  on_reply next seen gathered timed_out = read.fail gathered
  on_reply next seen gathered malformed = read.fail gathered
  on_reply next seen gathered (page rows cursor) =
      after_rows (λ gathered'. follow (λ c. next c gathered') seen cursor gathered')
        (read.take rows gathered)

  -- The loop, for the pages that are left; `reply` is what the exchange answers to the number of the
  -- request and the cursor.
  unfoldable pub walk_pages :
      (ℕ → Option String → Reply R) → ℕ → ℕ → Option String → List String → A → O
  unfolding on_reply
  walk_pages reply zero k cursor seen gathered = read.fail gathered
  walk_pages reply (suc pages) k cursor seen gathered =
      on_reply (λ c. walk_pages reply pages (suc k) (some c) (c ∷ seen)) seen gathered
        (reply k cursor)
