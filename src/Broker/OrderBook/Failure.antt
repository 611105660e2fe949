-- ===== src/Broker/OrderBook/Failure.antt =====
-- broker/broker_orderbook.go, OnSnapshot: what an error in the middle of it leaves, and what it says.
use mathlib.Core.List.{append_assoc, append-nil}
use fin_kit.Prelude.{
  suc, ◌+◌, ◌^◌, ◌<◌, ◌≡◌, refl, sym, String, if◌then◌else◌, ◌∙◌, ap, true, some, List, [], ◌∷◌,
  ◌++◌, arith, nat_eqb, Option-cases, Bool-cases, inl, inr, length, length-append,
}
use fin_kit.Prelude.Int.{ℤ, pos, negsuc, leb_ℤ}
use fin_kit.Prelude.Int64.{sub64}
use fin_kit.Core.{CoreBook, IsBook, Side, buy, sell, is_buy, Float64, Subscribers, Time}
use fin_kit.Broker.Types.{
  Level, ExchangeSnapshot, Error, unix_nano, core, failed_to_insert_bid, failed_to_insert_ask,
}
use fin_kit.Broker.OrderBook.{
  virtual_order, insert_levels, rebuild, BrokerOrderBook, on_snapshot, conclude,
}
use fin_kit.Broker.OrderBook.Sync.{
  positive, kept_levels, next_id, Holds, insert-Holds, insert_levels-Holds, length-positive,
  cleared-Holds,
}

module _ (C : CoreBook) where
  -- A book of the first of these levels, up to one that the core book refuses with this message.
  pub record Partial (timestamp : ℤ) (levels : List (Side × Level)) (side : Side) (message : String)
      (book : C.Book) : Type 0 where
    pub taken : List (Side × Level)
    pub refused : Level
    pub rest : List (Side × Level)
    pub parts : levels ≡ taken ++ ((side, refused) ∷ rest)
    pub before : C.Book
    pub refuses :
        C.insert_order (virtual_order (negsuc (length taken)) side timestamp refused) before
        ≡ (book, some message)
    pub held : Holds C timestamp taken book

module _ (F : Float64) (C : CoreBook) where
  -- The error of OnSnapshot for a level of this side.
  abbrev pub side_error : Side → String → Error F.Float
  side_error side message =
      if is_buy side
      then failed_to_insert_bid (core message)
      else failed_to_insert_ask (core message)

  -- The error is the one that the core book refused a level with.
  pub record Refused (timestamp : ℤ) (levels : List (Side × Level)) (e : Error F.Float)
      (book : C.Book) : Type 0 where
    pub side : Side
    pub message : String
    pub cause : e ≡ side_error side message
    pub partly : Partial C timestamp levels side message book

module _ (F : Float64) (C : CoreBook) (B : IsBook C) where
  insert_levels-Partial :
      (side : Side) (timestamp : ℤ) (ls : List Level) (kept after : List (Side × Level))
      (book : C.Book) (e : Error F.Float)
      → length kept + length ls < 2 ^ 63
      → Holds C timestamp kept book
      → (insert_levels F C side timestamp ls (negsuc (length kept)) book).2 ≡ some e
      → (message : String) × (e ≡ core message)
        × Partial C timestamp
            (kept ++ (positive side ls ++ after))
            side
            message
            (insert_levels F C side timestamp ls (negsuc (length kept)) book).0
  unfolding insert_levels positive
  insert_levels-Partial side timestamp [] kept after book e room h failed = absurd (ground arith)
  insert_levels-Partial side timestamp (l ∷ ls) kept after book e room h failed =
      elim (Bool-cases (leb_ℤ l.total_qty (pos 0))) [
        | inl skipped ↦
            rw (skipped, insert_levels, positive)
              (insert_levels-Partial side timestamp ls kept after book e (omega arith) h
                (rw (skipped, insert_levels) at failed))
        | inr wanted ↦
            let o = virtual_order (negsuc (length kept)) side timestamp l in
            elim (Option-cases (C.insert_order o book).1) [
              | inr (message, refuses) ↦
                  rw (wanted, refuses, insert_levels, positive)
                    (
                      message,
                      ground arith,
                      record {
                        taken = kept;
                        refused = l;
                        rest = positive side ls ++ after;
                        parts = refl;
                        before = book;
                        refuses = ap (λ m. ((C.insert_order o book).0, m)) refuses;
                        held = λ j. B.insert_failed o book j message refuses ∙ h j;
                      },
                    )
              | inl done ↦
                  let more = kept ++ ((side, l) ∷ []) in
                  let one_more : length more ≡ suc (length kept) =
                    omega (arith, length-append kept ((side, l) ∷ [])) in
                  let id : negsuc (length more) ≡ sub64 (negsuc (length kept)) (pos 1) =
                    ap negsuc one_more ∙ sym (next_id (length kept) (omega arith)) in
                  let next =
                    insert_levels-Partial side timestamp ls more after (C.insert_order o book).0 e
                      (omega (arith, one_more))
                      (insert-Holds F C B timestamp kept side l book h done)
                      (rw id (rw (wanted, done, insert_levels) at failed)) in
                  rw (wanted, done, insert_levels, positive)
                    (rw (id, append_assoc kept ((side, l) ∷ []) (positive side ls ++ after)) at
                      next)
            ]
      ]

  rebuild-Refused :
      (snap : ExchangeSnapshot) (book : C.Book) (e : Error F.Float)
      → length snap.bids + length snap.asks < 2 ^ 63
      → (rebuild F C snap book).1 ≡ some e
      → Refused F C (unix_nano snap.timestamp) (kept_levels snap) e (rebuild F C snap book).0
  unfolding rebuild
  rebuild-Refused snap book e room failed =
      let timestamp = unix_nano snap.timestamp in
      let (bids, id, outcome) =
        insert_levels F C buy timestamp snap.bids (negsuc 0) (C.clear book) in
      elim (Option-cases outcome) [
        | inr (cause, bad) ↦
            let (message, same, partly) =
              insert_levels-Partial buy timestamp snap.bids [] (positive sell snap.asks)
                (C.clear book) cause (omega arith) (cleared-Holds F C B timestamp book) bad in
            rw (bad, rebuild)
              record {
                side = buy;
                message = message;
                cause = ground (arith, same);
                partly = partly;
              }
        | inl good ↦
            let (held, next) =
              insert_levels-Holds F C B buy timestamp snap.bids [] (C.clear book) (omega arith)
                (cleared-Holds F C B timestamp book) good in
            elim (Option-cases (insert_levels F C sell timestamp snap.asks id bids).2) [
              | inl good' ↦ absurd (ground arith)
              | inr (cause, bad) ↦
                  let (message, same, partly) =
                    insert_levels-Partial sell timestamp snap.asks (positive buy snap.bids) [] bids
                      cause (omega (arith, length-positive buy snap.bids)) held (rw next at bad) in
                  rw (good, bad, rebuild)
                    record {
                      side = sell;
                      message = message;
                      cause = ground (arith, same);
                      partly = rw next (rw (append-nil (positive sell snap.asks)) at partly);
                    }
            ]
      ]

module _ (F : Float64) (C : CoreBook) (N : Subscribers F) (B : IsBook C) where
  -- An OnSnapshot for the book's own symbol that fails, of a snapshot with less than 2^63 levels,
  -- fails because the core book refused one of the snapshot's levels of a positive quantity: the
  -- error has the message of that refusal and says bid or ask by the level's side. What it leaves
  -- is the core book after the refused insertion, which has the virtual orders of the levels
  -- before that one and no other order, whatever the book held before; the metrics are as they
  -- were. The core book keeps its laws.
  pub on_snapshot-Refused :
      (snap : ExchangeSnapshot) (now : Time) (b : BrokerOrderBook F C N) (e : Error F.Float)
      → length snap.bids + length snap.asks < 2 ^ 63
      → snap.symbol_id ≡ C.symbol_id b.core_book
      → (on_snapshot F C N (some snap) now b).1 ≡ some e
      → Refused F C
          (unix_nano snap.timestamp)
          (kept_levels snap)
          e
          (on_snapshot F C N (some snap) now b).0.core_book
        × ((on_snapshot F C N (some snap) now b).0.metrics ≡ b.metrics)
  unfolding on_snapshot conclude
  on_snapshot-Refused snap now b e room same failed =
      let matches : nat_eqb snap.symbol_id (C.symbol_id b.core_book) ≡ true =
        ground (arith, same) in
      elim (Option-cases (rebuild F C snap b.core_book).1) [
        | inl good ↦ absurd (ground arith)
        | inr (cause, bad) ↦
            rw (matches, bad, on_snapshot, conclude)
              (rebuild-Refused F C B snap b.core_book e room (ground arith), refl)
      ]
