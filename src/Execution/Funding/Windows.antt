-- ===== src/Execution/Funding/Windows.antt =====
-- The windows that the collection of funding has covered, by the pages of the exchange.
use agente_tradin_ia_v2_mult.Common.{
  ℕ, ◌+◌, ◌*◌, ◌≤◌, String, Bool, Option, none, some, List, [], ◌++◌, map, ◌≡◌,
}
use agente_tradin_ia_v2_mult.Execution.Paging.{Reply}
use agente_tradin_ia_v2_mult.Execution.Paging.Ends.{Pages}
use agente_tradin_ia_v2_mult.Execution.Funding.{
  FundingRecord, FundingRow, FundingBooks, parse_row, list_funding, funding_window, window_end,
  window_start, collect_funding,
}
use agente_tradin_ia_v2_mult.Execution.Funding.Pages.{list_funding_complete}
use agente_tradin_ia_v2_mult.Execution.Funding.Coverage.{
  Covered, here, next, Collected, collect_funding-covers,
}

-- What the exchange answers to a window's start and end, the number of a request and its cursor.
abbrev pub Answers : Type 0 → Type 0
Answers F = ℕ → ℕ → ℕ → Option String → Reply (FundingRow F)

module _ {F : Type 0} where
  abbrev pub listing : Answers F → String → ℕ → ℕ → Option (List (FundingRecord F) × Bool)
  listing reply symbol start until = list_funding (reply start until) symbol

  -- Windows one after the other, each read to the last of its pages, with all their records.
  pub data Listed (reply : Answers F) (symbol : String) (now : ℕ)
      : ℕ → ℕ → List (FundingRecord F) → Type 0 where
    none_left : {start : ℕ} → Listed reply symbol now start start []
    window :
        {start reached : ℕ} (rows : List (FundingRow F)) (rs rest all : List (FundingRecord F))
        → Pages (reply start (window_end now start)) 0 none rows
        → map (parse_row symbol) rows ≡ map some rs
        → Listed reply symbol now (window_end now start) reached rest
        → all ≡ rs ++ rest
        → Listed reply symbol now start reached all

  Covered-Listed :
      (reply : Answers F) (symbol : String) (now : ℕ) {start reached : ℕ}
      {all : List (FundingRecord F)}
      → Covered (listing reply symbol) now start reached all
      → Listed reply symbol now start reached all
  Covered-Listed reply symbol now here = none_left
  Covered-Listed reply symbol now {start} (next rs rest all e c a) =
      let (rows, pages, parsed) =
        list_funding_complete (reply start (window_end now start)) symbol rs e in
      window rows rs rest all pages parsed (Covered-Listed reply symbol now c) a

  -- With a round of fuel for each seven days since the first window starts, the collection returns.
  -- From that start on it has gone through windows of each of which it has read every page, with rows
  -- that are all valid, up to now or to a window that could not be listed completely. The records of
  -- these windows are on file, as is every row that was; and the checkpoint stands at the end of the
  -- last of them, or, if there is none, where it stood.
  pub collect_funding-Listed :
      (reply : Answers F) (symbol : String) (fuel now : ℕ) (b : FundingBooks F)
      → now ≤ window_start now b.covered_until + fuel * funding_window
      → let list = listing reply symbol in
        let start = window_start now b.covered_until in
        (b' : FundingBooks F) × (collect_funding list fuel now b ≡ some b')
        × (c : Collected list now start b b') × Listed reply symbol now start c.reached c.listed
  collect_funding-Listed reply symbol fuel now b h =
      let (b', e, c) = collect_funding-covers (listing reply symbol) fuel now b h in
      (b', e, c, Covered-Listed reply symbol now c.windows)
