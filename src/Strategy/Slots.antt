-- ===== src/Strategy/Slots.antt =====
-- app/strategy/aggregator.py: the buckets, their slots, and the state of an aggregator. Instants are
-- microseconds since the epoch, and the minutes of a timeframe are one of the supported three, any
-- other being refused when an aggregator is made. A dictionary is the list of its items.
use agente_tradin_ia_v2_mult.Common.{
  ℕ, zero, suc, ◌+◌, ◌*◌, ◌/◌, ◌%◌, String, Bool, true, false, ◌||◌, Option, none, some, List, [],
  ◌∷◌, leb, ◌==◌, if◌then◌else◌,
}
use agente_tradin_ia_v2_mult.Core.Freshness.{minute}
use agente_tradin_ia_v2_mult.MarketData.{CandleTick}

-- `SUPPORTED_TIMEFRAME_MINUTES`
pub data Timeframe : Type 0 where
  one five fifteen : Timeframe

abbrev pub minutes_of : Timeframe → ℕ
minutes_of one = 1
minutes_of five = 5
minutes_of fifteen = 15

-- `minutes_to_canonical`
abbrev pub canonical : Timeframe → String
canonical one = "1m"
canonical five = "5m"
canonical fifteen = "15m"

pub record AggregatedCandle (F : Type 0) : Type 0 where
  pub symbol : String
  pub timeframe : String
  pub open_time : ℕ
  pub close_time : ℕ
  pub «open» : F
  pub high : F
  pub low : F
  pub close : F
  pub volume : F
  pub complete : Bool
  pub partial : Bool
  pub expected_slots : ℕ
  pub received_slots : ℕ
  pub missing_slots : List ℕ

pub record AggregationStats : Type 0 where
  pub complete_buckets : ℕ
  pub incomplete_buckets : ℕ
  pub duplicate_candles : ℕ
  pub late_candles_discarded : ℕ

abbrev pub hour : ℕ
hour = 3_600_000_000

-- The minute of the hour, floored; seconds and microseconds 0.
unfoldable pub bucket_start : ℕ → ℕ → ℕ
bucket_start open_time minutes =
    open_time / hour * hour + open_time % hour / minute / minutes * minutes * minute

pub record CandleAggregator (F : Type 0) : Type 0 where
  pub symbol : String
  pub timeframe : Timeframe
  pub stats : AggregationStats
  pub forming_start : Option ℕ
  pub slots : List (ℕ × CandleTick F)
  pub last_finalized_start : Option ℕ

-- `timeframe_minutes // operational_minutes`, with operational candles of one minute.
abbrev pub expected_slots_of : {F : Type 0} → CandleAggregator F → ℕ
expected_slots_of a = minutes_of a.timeframe

abbrev pub has_slot : {F : Type 0} → ℕ → List (ℕ × CandleTick F) → Bool
has_slot t [] = false
has_slot t (s ∷ slots) = t == s.0 || has_slot t slots

-- `[start + step * i for i in range(n)]`
abbrev pub slot_times : ℕ → ℕ → List ℕ
slot_times start zero = []
slot_times start (suc n) = start ∷ slot_times (start + minute) n

abbrev pub missing_in : {F : Type 0} → List (ℕ × CandleTick F) → List ℕ → List ℕ
missing_in slots [] = []
missing_in slots (t ∷ times) =
    let rest = missing_in slots times in if has_slot t slots then rest else t ∷ rest

abbrev pub insert :
    {F : Type 0} → ℕ × CandleTick F → List (ℕ × CandleTick F) → List (ℕ × CandleTick F)
insert s [] = s ∷ []
insert s (s' ∷ slots) = if leb s.0 s'.0 then s ∷ s' ∷ slots else s' ∷ insert s slots

-- `sorted`, by the slot.
abbrev pub sort : {F : Type 0} → List (ℕ × CandleTick F) → List (ℕ × CandleTick F)
sort [] = []
sort (s ∷ slots) = insert s (sort slots)

abbrev pub last_close : {F : Type 0} → CandleTick F → List (ℕ × CandleTick F) → F
last_close c [] = c.close
last_close c (s ∷ slots) = last_close s.1 slots

abbrev pub is_empty : {A : Type 0} → List A → Bool
is_empty [] = true
is_empty (_ ∷ _) = false

abbrev pub count_bucket : Bool → AggregationStats → AggregationStats
count_bucket true s = record s { complete_buckets = s.complete_buckets + 1 }
count_bucket false s = record s { incomplete_buckets = s.incomplete_buckets + 1 }

abbrev pub or_else : {A : Type 0} → Option A → Option A → Option A
or_else none b = b
or_else (some a) b = some a

-- `self._last_finalized_start is not None and start <= self._last_finalized_start`
abbrev pub is_late : ℕ → Option ℕ → Bool
is_late start none = false
is_late start (some last) = leb start last

abbrev pub option_cons : {A : Type 0} → Option A → List A → List A
option_cons none xs = xs
option_cons (some x) xs = x ∷ xs
