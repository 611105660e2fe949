-- ===== src/Exchange/Engine/Tests.antt =====
-- Runs of the engine of exchange/matching_engine.go, over a plain core book and map.
use fin_kit.Exchange.Engine.Rejection.{rejection, submit_order-refused, modify_order-loses}
use fin_kit.Exchange.ErrorText.{error_text}
use fin_kit.Prelude.{
  nat_eqb, is_some, ℕ, ◌≡◌, refl, Bool, true, false, none, some, [], ◌∷◌, arith, if◌then◌else◌,
  string_eq, string_eq_iff,
}
use fin_kit.Prelude.Int.{ℤ, pos, int_eq, eqb_ℤ, eqb_ℤ_iff}
use fin_kit.Prelude.Dict.{lookup}
use fin_kit.Core.{buy}
use fin_kit.Core.Samples.{list_map, list_map-IsMap, plain_book, plain_book-IsBook, fractions}
use fin_kit.Exchange.OrderType.{
  Order, Trade, limit, market, new, partial, order_not_found, rejected, invalid_quantity, err, ok,
  ◌>>=◌,
}
use fin_kit.Exchange.Matcher.{
  validate_order as match_validate, match_order, by_type, match_limit_order, best_opposite_level,
}
use fin_kit.Exchange.OrderBook.{
  OrderBook, to_core_order, add_order, new_order_book, apply_options, remove_order, get_order,
  get_account_id,
}
use fin_kit.Exchange.TradeReport.{register_order, cancel_order as report_cancel, get_order_report}
use fin_kit.Exchange.TradeReport.Effects.{Unshared}
use fin_kit.Exchange.Engine.State.{
  World, MatchingEngine, new_matching_engine, with_matching_engine_order_capacity, put_book,
  get_order_book, get_or_create_order_book, book_symbol, validate_order,
}
use fin_kit.Exchange.Engine.Submit.{set_timestamp, settle, finish, final_report}
use fin_kit.Exchange.Engine.Books.{AllAgree}
use fin_kit.Exchange.Engine.Runs.{submits, cancels, modifies, closes, run, run-new-AllAgree}
use fin_kit.Exchange.Engine.Isolation.{submit_order-other, cancel_order-gone, modify_order-gone}
use fin_kit.Exchange.Engine.Unmatched.{IsTaker, IsNew, submit_order-IsNew}
use fin_kit.Exchange.Engine.{
  replacement, new_object, process, reject, submit_order, cancel_order, modify_order,
}

abbrev bid : Order
bid = record {
  order_id = pos 1;
  account_id = "alice";
  symbol = "ACME";
  price = pos 100;
  quantity = pos 10;
  visible_qty = pos 0;
  side = buy;
  kind = limit;
  timestamp = pos 1;
  filled_qty = pos 0;
  canceled_qty = pos 0;
  remaining_qty = pos 10;
}

abbrev no_trade : Trade
no_trade = record {
  trade_id = pos 0;
  buy_order_id = pos 0;
  sell_order_id = pos 0;
  buy_account_id = "";
  sell_account_id = "";
  price = pos 0;
  quantity = pos 0;
  timestamp = pos 0;
  buy_fill_type = partial;
  sell_fill_type = partial;
  buy_remaining_qty = pos 0;
  sell_remaining_qty = pos 0;
}

-- The bid is at every pointer, and tracked.
abbrev world : World
world = record {
  heap = record {
    orders = λ p. bid;
    trades = λ p. no_trade;
    tracked = λ p. record {
      order = 0;
      status = new;
      filled_qty = pos 0;
      remaining_qty = pos 10;
      total_value = pos 0;
      trades = [];
    };
    next_tracked = 1;
  };
  next_order = 1;
  next_trade = 0;
  ticks = 0;
}

abbrev clock : ℕ → ℤ
clock n = pos n

-- A book with the bid.
abbrev acme : OrderBook plain_book list_map
acme = record {
  core_book = λ j. if eqb_ℤ (pos 1) j then some (to_core_order bid) else none;
  symbol = "ACME";
  symbol_id = 1;
  order_accounts = (pos 1, "alice") ∷ [];
  track_self_trade = false;
}

abbrev engine : Bool → MatchingEngine plain_book list_map
engine running = record {
  order_books = ("ACME", acme) ∷ [];
  self_trade_check = record { account_orders = [] };
  trade_reporter = record { orders = (pos 1, 0) ∷ []; trade_counter = pos 0 };
  order_matcher = record { max_depth_levels = pos 100 };
  order_id_counter = pos 0;
  running = running;
  order_capacity = pos 0;
}

run-new-AllAgree_example :
    AllAgree plain_book list_map
      (run fractions plain_book list_map clock
        (submits (some 0)
          ∷ modifies "ACME" (pos 1) (pos 4) (pos 101)
          ∷ cancels "DEFAULT" (pos 1) "enough"
          ∷ closes
          ∷ [])
        (
          new_matching_engine plain_book list_map
              (with_matching_engine_order_capacity (pos 16) ∷ []),
          world,
        )).0
run-new-AllAgree_example =
    run-new-AllAgree fractions plain_book list_map clock plain_book-IsBook list_map-IsMap
      (with_matching_engine_order_capacity (pos 16) ∷ []) world
      (submits (some 0)
        ∷ modifies "ACME" (pos 1) (pos 4) (pos 101)
        ∷ cancels "DEFAULT" (pos 1) "enough"
        ∷ closes
        ∷ [])

submit_order-other_example :
    (let ((e', w'), _) =
        submit_order fractions plain_book list_map clock (some 0) (engine true, world) in
      lookup "OTHER" e'.order_books ≡ lookup "OTHER" (engine true).order_books)
unfolding book_symbol
submit_order-other_example =
    submit_order-other fractions plain_book list_map clock 0 "OTHER" (engine true) world
      (λ same. absurd (ground (arith, string_eq_iff "ACME" "OTHER", same)))

-- The book without the bid.
abbrev acme_after : OrderBook plain_book list_map
acme_after = (remove_order plain_book list_map (pos 1) acme (engine true).self_trade_check).0

cancel_order-gone_example :
    (get_order plain_book list_map (pos 1) acme_after ≡ err order_not_found)
    × (get_account_id plain_book list_map acme_after (pos 1) ≡ none)
unfolding cancel_order get_order_book put_book remove_order report_cancel to_core_order
cancel_order-gone_example =
    cancel_order-gone fractions plain_book list_map clock plain_book-IsBook list_map-IsMap "ACME"
      (pos 1) "enough" (engine true) world acme_after refl refl

modify_order-gone_example :
    (get_order plain_book list_map (pos 1) acme_after ≡ err order_not_found)
    × (get_account_id plain_book list_map acme_after (pos 1) ≡ none)
unfolding modify_order get_order_book get_order get_account_id put_book remove_order to_core_order
    replacement new_object submit_order validate_order book_symbol get_or_create_order_book process
    register_order set_timestamp match_order match_validate by_type match_limit_order
    best_opposite_level settle finish final_report add_order new_order_book apply_options
modify_order-gone_example =
    modify_order-gone fractions plain_book list_map clock plain_book-IsBook list_map-IsMap "ACME"
      (pos 1) (pos 4) (pos 101) (engine true) world acme_after
      (λ same. absurd (ground (arith, string_eq_iff "DEFAULT" "ACME", same))) refl refl

-- An order with the bid's ID, another account and no quantity, at pointer 5.
abbrev copycat : Order
copycat = record bid { account_id = "mallory"; quantity = pos 0 }

abbrev world_with_copycat : World
world_with_copycat = record world {
  heap = record world.heap { orders = λ p. if nat_eqb p 5 then copycat else bid };
}

engine-Unshared : Unshared list_map (engine true).trade_reporter
engine-Unshared i j t there again = ground (arith, eqb_ℤ_iff (pos 1) i, eqb_ℤ_iff (pos 1) j)

submit_order-refused_example :
    (let ((e', w'), (report, failure)) =
        submit_order fractions plain_book list_map clock
          (some 5)
          (engine true, world_with_copycat) in
      (e' ≡ engine true)
      × (w'.heap.orders ≡ world_with_copycat.heap.orders)
      × (is_some failure ≡ false)
      × (is_some report ≡ true)
      × (rejection fractions report ≡ some (error_text invalid_quantity))
      × (get_order_report fractions list_map (pos 1) (pos 9) e'.trade_reporter w'.heap ≡ (
          get_order_report fractions list_map
            (pos 1)
            (pos 9)
            (engine true).trade_reporter
            world_with_copycat.heap
          >>= λ old. ok (record old { status = rejected }))))
unfolding validate_order
submit_order-refused_example =
    submit_order-refused fractions plain_book list_map clock (some 5) (pos 1) (pos 9) (engine true)
      world_with_copycat engine-Unshared refl

modify_order-loses_example :
    (get_order plain_book list_map (pos 1) acme_after ≡ err order_not_found)
    × (get_account_id plain_book list_map acme_after (pos 1) ≡ none)
unfolding modify_order get_order_book get_order get_account_id put_book remove_order to_core_order
    replacement new_object submit_order validate_order reject
modify_order-loses_example =
    modify_order-loses fractions plain_book list_map clock plain_book-IsBook list_map-IsMap "ACME"
      (pos 1) (pos 0) (pos 101) (engine true) world acme_after refl refl refl

-- A market order of bob at pointer 6; the book has no asks.
abbrev taker : Order
taker = record bid { order_id = pos 2; account_id = "bob"; kind = market; timestamp = pos 0 }

abbrev world_with_taker : World
world_with_taker = record world {
  heap = record world.heap { orders = λ p. if nat_eqb p 6 then taker else bid };
}

taker-IsTaker : IsTaker taker
unfolding validate_order
taker-IsTaker = record { cancels = refl; whole = refl; valid = refl }

taker-best_opposite_level :
    best_opposite_level plain_book taker
      (get_or_create_order_book plain_book list_map taker (engine true)).1.core_book
    ≡ none
unfolding best_opposite_level get_or_create_order_book book_symbol
taker-best_opposite_level = refl

submit_order-IsNew_example :
    (let ((e', w'), answer) =
        submit_order fractions plain_book list_map clock (some 6) (engine true, world_with_taker) in
      IsNew fractions taker (w'.heap.orders 6) answer)
submit_order-IsNew_example =
    submit_order-IsNew fractions plain_book list_map clock list_map-IsMap 6 (engine true)
      world_with_taker refl taker-IsTaker taker-best_opposite_level
