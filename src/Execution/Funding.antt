-- ===== src/Execution/Funding.antt =====
-- app/execution/funding.py: the funding that the exchange reports, page by page, and the table that
-- it is kept in; and the loop over windows of `Orchestrator._maybe_collect_funding`
-- (app/orchestrator.py), with the checkpoint of app/persistence/repo.py. Instants are microseconds.
pub mod Pages
pub mod Events
pub mod Coverage
pub mod Windows
pub mod Examples
use agente_tradin_ia_v2_mult.Common.{
  ℕ, zero, suc, ◌+◌, ◌-◌, ◌*◌, String, Bool, true, false, ◌&&◌, ◌||◌, Option, none, some, List, [],
  ◌∷◌, ◌++◌, str_eq, ltb, if◌then◌else◌, inl,
}
use agente_tradin_ia_v2_mult.Execution.Paging.{Reply, Reader, walk_pages}

pub record FundingRecord (F : Type 0) : Type 0 where
  pub funding_id : String
  pub symbol : String
  pub amount : F
  pub occurred_at : ℕ

-- What can be read of a row: `none` is a field that is missing or of the wrong type. The time is in
-- milliseconds.
pub record FundingRow (F : Type 0) : Type 0 where
  pub id : Option String
  pub symbol : Option String
  pub funding : Option F
  pub transaction_time : Option ℕ

-- `a or b`, on texts.
abbrev pub or_text : Option String → String → String
or_text none b = b
or_text (some a) b = if str_eq a "" then b else a

-- `_MAX_FUNDING_PAGES`
abbrev pub max_funding_pages : ℕ
max_funding_pages = 50

module _ {F : Type 0} where
  abbrev record_of : String → String → F → Option ℕ → Option (FundingRecord F)
  record_of id symbol amount none = none
  record_of id symbol amount (some ms) =
      some (record { funding_id = id; symbol = symbol; amount = amount; occurred_at = ms * 1_000 })

  abbrev with_amount : String → String → Option F → Option ℕ → Option (FundingRecord F)
  with_amount id symbol none time = none
  with_amount id symbol (some amount) time = record_of id symbol amount time

  abbrev with_id : Option String → String → Option F → Option ℕ → Option (FundingRecord F)
  with_id none symbol amount time = none
  with_id (some id) symbol amount time =
      if str_eq id ""
      then none
      else if str_eq symbol ""
      then none
      else with_amount id symbol amount time

  -- `_parse_row`; `none` is a reason against the row.
  unfoldable pub parse_row : String → FundingRow F → Option (FundingRecord F)
  parse_row symbol row = with_id row.id (or_text row.symbol symbol) row.funding row.transaction_time

  -- The records of the valid rows of a page, and whether all are valid.
  unfoldable pub valid_records : String → List (FundingRow F) → List (FundingRecord F)
  unfolding parse_row
  valid_records symbol [] = []
  valid_records symbol (row ∷ rows) =
      let rest = valid_records symbol rows in
      elim (parse_row symbol row) [ none ↦ rest | some r ↦ r ∷ rest ]

  unfoldable pub all_valid : String → List (FundingRow F) → Bool
  unfolding parse_row
  all_valid symbol [] = true
  all_valid symbol (row ∷ rows) =
      let rest = all_valid symbol rows in
      elim (parse_row symbol row) [ none ↦ false | some _ ↦ rest ]

  -- What `list_funding` makes of the pages: the records of valid rows, and whether all were valid. No
  -- result is an exception.
  unfoldable pub funding_reader :
      String
      → Reader
          (FundingRow F)
          (List (FundingRecord F) × Bool)
          (Option (List (FundingRecord F) × Bool))
  unfolding valid_records all_valid
  funding_reader symbol = record {
    take = λ rows a. inl (a.0 ++ valid_records symbol rows, a.1 && all_valid symbol rows);
    close = λ a. some a;
    fail = λ a. some (a.0, false);
    raised = none;
  }

  unfoldable pub list_funding :
      (ℕ → Option String → Reply (FundingRow F)) → String → Option (List (FundingRecord F) × Bool)
  unfolding funding_reader walk_pages
  list_funding reply symbol =
      walk_pages (funding_reader symbol) reply max_funding_pages 0 none [] ([], true)

  -- A row of the table is the record that it was made of.
  unfoldable pub recorded : String → List (FundingRecord F) → Bool
  recorded id [] = false
  recorded id (r ∷ rs) = str_eq id r.funding_id || recorded id rs

  -- `record_new_funding_events`
  unfoldable pub record_new_funding_events :
      List (FundingRecord F) → List (FundingRecord F) → List (FundingRecord F)
  unfolding recorded
  record_new_funding_events events [] = events
  record_new_funding_events events (r ∷ rs) =
      record_new_funding_events
        (if recorded r.funding_id events then events else events ++ (r ∷ [])) rs

-- What the collection works on: the table of events, the checkpoint of the symbol, and how many
-- incomplete windows and exceptions it told of.
pub record FundingBooks (F : Type 0) : Type 0 where
  pub events : List (FundingRecord F)
  pub covered_until : Option ℕ
  pub incomplete_windows : ℕ
  pub failed_collections : ℕ

-- `FUNDING_WINDOW_SECONDS`
abbrev pub funding_window : ℕ
funding_window = 604_800_000_000

-- `min(window_start + timedelta(seconds=FUNDING_WINDOW_SECONDS), now)`
abbrev pub window_end : ℕ → ℕ → ℕ
window_end now start = if ltb now (start + funding_window) then now else start + funding_window

-- `advance_funding_checkpoint`, on `covered_until`
unfoldable pub advance_funding_checkpoint : ℕ → Option ℕ → Option ℕ
advance_funding_checkpoint until none = some until
advance_funding_checkpoint until (some t) = if ltb t until then some until else some t

-- Where the first window starts; without a checkpoint one window before now.
abbrev pub window_start : ℕ → Option ℕ → ℕ
window_start now (some t) = t
window_start now none = now - funding_window

module _ {F : Type 0} where
  -- The `while` loop and its `except`, with fuel for the windows; `none` is a lack of fuel. What
  -- `list_funding` gives depends on the window.
  unfoldable pub collect_windows :
      (ℕ → ℕ → Option (List (FundingRecord F) × Bool))
      → ℕ
      → ℕ
      → ℕ
      → FundingBooks F
      → Option (FundingBooks F)
  unfolding record_new_funding_events advance_funding_checkpoint
  collect_windows list now zero start b = if ltb start now then none else some b
  collect_windows list now (suc fuel) start b = elim (ltb start now) [
    | false ↦ some b
    | true ↦ elim (list start (window_end now start)) [
      | none ↦ some (record b { failed_collections = b.failed_collections + 1 })
      | some (records, complete) ↦
          let events = record_new_funding_events b.events records in
          elim complete [
            | false ↦
                some (record b { events = events; incomplete_windows = b.incomplete_windows + 1 })
            | true ↦ collect_windows list now fuel (window_end now start) (record b {
              events = events;
              covered_until = advance_funding_checkpoint (window_end now start) b.covered_until;
            })
          ]
    ]
  ]

  -- The part of `_maybe_collect_funding` that follows the test of the interval.
  unfoldable pub collect_funding :
      (ℕ → ℕ → Option (List (FundingRecord F) × Bool))
      → ℕ
      → ℕ
      → FundingBooks F
      → Option (FundingBooks F)
  unfolding collect_windows
  collect_funding list fuel now b =
      collect_windows list now fuel (window_start now b.covered_until) b
