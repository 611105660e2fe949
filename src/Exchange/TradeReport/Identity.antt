-- ===== src/Exchange/TradeReport/Identity.antt =====
-- exchange/trade_report.go: the IDs under which the reporter holds tracked orders.
use fin_kit.Prelude.Int.{int_eq}
use fin_kit.Core.{Int64Map, IsMap, Float64}
use fin_kit.Exchange.Heap.{Heap}
use fin_kit.Exchange.TradeReport.Sides.{Known}
use fin_kit.Exchange.TradeReport.Effects.{Unshared}
use fin_kit.Exchange.TradeReport.{TradeReporter}

module _ (F : Float64) (H : Int64Map) (M : IsMap H) where
  -- What all calls keep.
  Identified : Heap × TradeReporter H → Type 0
  Identified (heap, r) = Known H heap r × Unshared H r
