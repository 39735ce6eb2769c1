-- ===== src/Execution/Funding/Pages.antt =====
-- What a listing of funding that is reported complete has gone through.
use agente_tradin_ia_v2_mult.Common.{
  ℕ, String, Bool, true, ◌&&◌, Option, none, some, List, [], ◌∷◌, ◌++◌, map, ◌≡◌, refl, sym, ap,
  ◌∙◌, arith, Option-cases, ◌⊎◌, inl, inr,
}
use mathlib.Core.List.{append_assoc}
use agente_tradin_ia_v2_mult.Execution.Paging.{Reply}
use agente_tradin_ia_v2_mult.Execution.Paging.Ends.{
  parsed-append, Pages, Adding, Closed, Ended, walk_pages-Outcome,
}
use agente_tradin_ia_v2_mult.Execution.Funding.{
  FundingRecord, FundingRow, parse_row, valid_records, all_valid, funding_reader, list_funding,
  max_funding_pages,
}

module _ {F : Type 0} where
  valid_lem :
      (symbol : String) (rows : List (FundingRow F))
      → all_valid symbol rows ≡ true
      → map (parse_row symbol) rows ≡ map some (valid_records symbol rows)
  unfolding all_valid valid_records
  valid_lem symbol [] h = refl
  valid_lem symbol (row ∷ rows) h = elim (Option-cases (parse_row symbol row)) [
    | inl n ↦ absurd (ground (arith, n, h))
    | inr r ↦
        let k : all_valid symbol rows ≡ true = ground (arith, r.1, h) in
        ground (arith, r.1, valid_lem symbol rows k)
  ]

  -- If all rows are valid in the end, all were so far, and the records are those of the rows.
  abbrev Parses :
      String
      → List (FundingRecord F) × Bool
      → List (FundingRecord F) × Bool
      → List (FundingRow F)
      → Type 0
  Parses symbol a b rows =
      b.1 ≡ true
      → (a.1 ≡ true)
        × (found : List (FundingRecord F)) × (map (parse_row symbol) rows ≡ map some found)
        × (b.0 ≡ a.0 ++ found)

  taken :
      (symbol : String) (a b : List (FundingRecord F) × Bool) (rows : List (FundingRow F))
      → ◌≡◌ {A = (List (FundingRecord F) × Bool) ⊎ Option (List (FundingRecord F) × Bool)}
          (inl (a.0 ++ valid_records symbol rows, a.1 && all_valid symbol rows))
          (inl b)
      → Parses symbol a b rows
  taken symbol a b rows e t =
      let flags : (a.1 && all_valid symbol rows) ≡ true = ground (arith, e, t) in
      (
        ground (arith, flags),
        valid_records symbol rows,
        valid_lem symbol rows (ground (arith, flags)),
        ground (arith, e),
      )

  both :
      (symbol : String) (a b c : List (FundingRecord F) × Bool) (rows rest : List (FundingRow F))
      → Parses symbol a b rows
      → Parses symbol b c rest
      → Parses symbol a c (rows ++ rest)
  both symbol a b c rows rest h k t =
      let (flag', found', parsed', adds') = k t in
      let (flag, found, parsed, adds) = h flag' in
      (
        flag,
        found ++ found',
        parsed-append (parse_row symbol) rows rest found found' parsed parsed',
        adds' ∙ ap (λ xs. xs ++ found') adds ∙ append_assoc a.0 found found',
      )

  abbrev funding_adding : (symbol : String) → Adding (funding_reader {F = F} symbol)
  unfolding funding_reader
  funding_adding symbol = record { Adds = Parses symbol; one = taken symbol; two = both symbol }

  complete-Pages :
      (reply : ℕ → Option String → Reply (FundingRow F)) (symbol : String)
      (out : List (FundingRecord F)) (o : Option (List (FundingRecord F) × Bool))
      → o ≡ some (out, true)
      → Closed (funding_reader symbol) (funding_adding symbol) reply 0 none ([], true) o
        ⊎ Ended (funding_reader symbol) (funding_adding symbol) reply o
      → (rows : List (FundingRow F)) × Pages reply 0 none rows
        × (map (parse_row symbol) rows ≡ map some out)
  unfolding funding_reader
  complete-Pages reply symbol out o h (inl c) =
      let e : ◌≡◌ {A = Option (List (FundingRecord F) × Bool)} (some c.gathered)
          (some (out, true)) =
        sym c.closes ∙ h in
      let (flag, found, parsed, adds) = c.adds (ground (arith, e)) in
      (c.rows, c.pages, parsed ∙ ap (map some) (sym adds ∙ ground (arith, e)))
  complete-Pages reply symbol out o h (inr (inl e)) = absurd (ground (arith, e, h))
  complete-Pages reply symbol out o h (inr (inr (inl (a, e)))) = absurd (ground (arith, e, h))
  complete-Pages reply symbol out o h (inr (inr (inr (rows, a, e)))) = absurd (ground (arith, e))

  -- A listing that is reported complete has gone through every page from the first request to one
  -- that names no further page, each row of them is valid, and its records are those of the rows, in
  -- order.
  pub list_funding_complete :
      (reply : ℕ → Option String → Reply (FundingRow F)) (symbol : String)
      (out : List (FundingRecord F))
      → list_funding reply symbol ≡ some (out, true)
      → (rows : List (FundingRow F)) × Pages reply 0 none rows
        × (map (parse_row symbol) rows ≡ map some out)
  unfolding list_funding
  list_funding_complete reply symbol out h =
      complete-Pages reply symbol out (list_funding reply symbol) h (
        walk_pages-Outcome (funding_reader symbol) (funding_adding symbol) reply max_funding_pages 0
          none [] ([], true))
