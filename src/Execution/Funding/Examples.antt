-- ===== src/Execution/Funding/Examples.antt =====
-- The theorems on funding at work on two pages and two windows.
use agente_tradin_ia_v2_mult.Common.{
  ℕ, zero, suc, String, Bool, true, false, Option, none, some, List, [], ◌∷◌, ◌≡◌, refl, arith, ltb,
  if◌then◌else◌,
}
use agente_tradin_ia_v2_mult.Execution.Funding.{
  FundingRecord, FundingRow, FundingBooks, collect_funding,
}
use agente_tradin_ia_v2_mult.Execution.Paging.{Reply, page, malformed}
use agente_tradin_ia_v2_mult.Execution.Funding.Coverage.{Collected}
use agente_tradin_ia_v2_mult.Execution.Funding.Windows.{
  Answers, listing, Listed, collect_funding-Listed,
}

abbrev settlement : String → FundingRecord ℕ
settlement id = record {
  funding_id = id;
  symbol = "BTCUSDT";
  amount = 12;
  occurred_at = 1_700_000_000_000_000;
}

abbrev row : String → FundingRow ℕ
row id = record {
  id = some id;
  symbol = none;
  funding = some 12;
  transaction_time = some 1_700_000_000_000;
}

abbrev two_pages : ℕ → Option String → Reply (FundingRow ℕ)
two_pages zero _ = page (row "a" ∷ []) (some "c1")
two_pages (suc zero) _ = page (row "b" ∷ []) none
two_pages (suc (suc _)) _ = malformed

abbrev books : FundingBooks ℕ
books = record {
  events = [];
  covered_until = some 1_000;
  incomplete_windows = 0;
  failed_collections = 0;
}

-- The first window is listed completely, the next is not.
abbrev first_only : ℕ → ℕ → Option (List (FundingRecord ℕ) × Bool)
first_only zero until = none
first_only (suc start) until =
    if ltb start 1_000 then some (settlement "a" ∷ [], true) else some (settlement "b" ∷ [], false)

-- The exchange lists the two pages whatever the window, and a single symbol.
abbrev always : Answers ℕ
always start until = two_pages

collect_funding-Listed_example :
    let list = listing always "BTCUSDT" in
    (b' : FundingBooks ℕ) × (collect_funding list 2 700_000_000_000 books ≡ some b')
    × (c : Collected list 700_000_000_000 1_000 books b') × Listed always "BTCUSDT" 700_000_000_000
        1_000 c.reached c.listed
collect_funding-Listed_example =
    collect_funding-Listed always "BTCUSDT" 2 700_000_000_000 books (omega arith)

second_window_stops :
    collect_funding first_only 2 700_000_000_000 books
    ≡ some (record {
      events = settlement "a" ∷ settlement "b" ∷ [];
      covered_until = some 604_800_001_000;
      incomplete_windows = 1;
      failed_collections = 0;
    })
unfolding collect_funding
second_window_stops = refl
