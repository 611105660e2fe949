-- ===== src/Broker/OrderBook/Sync.antt =====
-- broker/broker_orderbook.go, OnSnapshot: the rebuilt book holds one virtual order for each level.
use mathlib.Core.List.{append_assoc, append-nil}
use fin_kit.Prelude.{
  ℕ, suc, ◌+◌, ◌^◌, ◌<◌, ◌≤◌, ◌≡◌, refl, sym, ◌∙◌, ap, Option, none, some, List, [], ◌∷◌, ◌++◌,
  arith, if◌then◌else◌, nat_eqb, Option-cases, Bool-cases, inl, inr, length, length-append,
  get_elem?, get_elem?-append_one,
}
use fin_kit.Prelude.Int.{ℤ, pos, negsuc, int_eq, leb_ℤ}
use fin_kit.Prelude.Int64.{sub64}
use fin_kit.Core.{CoreBook, IsBook, CoreOrder, Side, buy, sell, Float64, Subscribers, Time}
use fin_kit.Broker.Types.{Level, ExchangeSnapshot, unix_nano}
use fin_kit.Broker.OrderBook.{
  virtual_order, insert_levels, rebuild, BrokerOrderBook, on_snapshot, conclude,
}

-- The levels of one side that become orders.
unfoldable pub positive : Side → List Level → List (Side × Level)
positive side [] = []
positive side (l ∷ ls) =
    if leb_ℤ l.total_qty (pos 0) then positive side ls else (side, l) ∷ positive side ls

-- All levels of a snapshot that become orders, in the order of their virtual IDs.
abbrev pub kept_levels : ExchangeSnapshot → List (Side × Level)
kept_levels snap = positive buy snap.bids ++ positive sell snap.asks

-- The order of ID -(k + 1).
abbrev pub order_of : ℤ → ℕ → Option (Side × Level) → Option CoreOrder
order_of timestamp k none = none
order_of timestamp k (some (side, l)) = some (record {
  order_id = negsuc k;
  price = l.price;
  quantity = l.total_qty;
  side = side;
  timestamp = timestamp;
})

-- The order that a book of these levels has under an ID.
abbrev pub expected : ℤ → List (Side × Level) → ℤ → Option CoreOrder
expected timestamp kept (pos n) = none
expected timestamp kept (negsuc k) = order_of timestamp k (get_elem? kept k)

pub next_id : (n : ℕ) → suc n < 2 ^ 63 → sub64 (negsuc n) (pos 1) ≡ negsuc (suc n)
unfolding sub64
next_id n h = ground arith

module _ (C : CoreBook) where
  abbrev pub Holds : ℤ → List (Side × Level) → C.Book → Type 0
  Holds timestamp kept book = (j : ℤ) → C.get_order_details book j ≡ expected timestamp kept j

module _ (F : Float64) (C : CoreBook) (B : IsBook C) where
  pub insert-Holds :
      (timestamp : ℤ) (kept : List (Side × Level)) (side : Side) (l : Level) (book : C.Book)
      → Holds C timestamp kept book
      → (C.insert_order (virtual_order (negsuc (length kept)) side timestamp l) book).1 ≡ none
      → Holds C timestamp
          (kept ++ ((side, l) ∷ []))
          (C.insert_order (virtual_order (negsuc (length kept)) side timestamp l) book).0
  insert-Holds timestamp kept side l book h done (pos n) = ground (
    arith,
    h (pos n),
    B.insert_details (virtual_order (negsuc (length kept)) side timestamp l) book (pos n) done,
  )
  insert-Holds timestamp kept side l book h done (negsuc k) = ground (
    arith,
    h (negsuc k),
    get_elem?-append_one kept (side, l) k,
    B.insert_details (virtual_order (negsuc (length kept)) side timestamp l) book (negsuc k) done,
  )

  -- The loop, from a book of the levels `kept`.
  pub insert_levels-Holds :
      (side : Side) (timestamp : ℤ) (ls : List Level) (kept : List (Side × Level)) (book : C.Book)
      → length kept + length ls < 2 ^ 63
      → Holds C timestamp kept book
      → (insert_levels F C side timestamp ls (negsuc (length kept)) book).2 ≡ none
      → (let all = kept ++ positive side ls in
          let (book', id, _) = insert_levels F C side timestamp ls (negsuc (length kept)) book in
          Holds C timestamp all book' × (id ≡ negsuc (length all)))
  unfolding insert_levels positive
  insert_levels-Holds side timestamp [] kept book room h fine =
      let same : kept ++ [] ≡ kept = append-nil kept in rw same (h, refl)
  insert_levels-Holds side timestamp (l ∷ ls) kept book room h fine =
      elim (Bool-cases (leb_ℤ l.total_qty (pos 0))) [
        | inl skipped ↦
            rw (skipped, insert_levels, positive)
              (insert_levels-Holds side timestamp ls kept book (omega arith) h
                (rw (skipped, insert_levels) at fine))
        | inr taken ↦
            let o = virtual_order (negsuc (length kept)) side timestamp l in
            elim (Option-cases (C.insert_order o book).1) [
              | inr (message, failed) ↦ absurd (ground arith)
              | inl done ↦
                  let more = kept ++ ((side, l) ∷ []) in
                  let one_more : length more ≡ suc (length kept) =
                    omega (arith, length-append kept ((side, l) ∷ [])) in
                  let id : negsuc (length more) ≡ sub64 (negsuc (length kept)) (pos 1) =
                    ap negsuc one_more ∙ sym (next_id (length kept) (omega arith)) in
                  let rest =
                    insert_levels-Holds side timestamp ls more (C.insert_order o book).0
                      (omega (arith, one_more)) (insert-Holds timestamp kept side l book h done)
                      (rw id (rw (taken, done, insert_levels) at fine)) in
                  rw (taken, done, insert_levels, positive)
                    (rw (id, append_assoc kept ((side, l) ∷ []) (positive side ls)) at rest)
            ]
      ]

pub length-positive : (side : Side) (ls : List Level) → length (positive side ls) ≤ length ls
unfolding positive
length-positive side [] = omega arith
length-positive side (l ∷ ls) = ground (arith, length-positive side ls)

module _ (F : Float64) (C : CoreBook) (B : IsBook C) where
  pub cleared-Holds : (timestamp : ℤ) (book : C.Book) → Holds C timestamp [] (C.clear book)
  cleared-Holds timestamp book (pos n) = B.clear_details book (pos n)
  cleared-Holds timestamp book (negsuc k) = B.clear_details book (negsuc k)

  rebuild-Holds :
      (snap : ExchangeSnapshot) (book : C.Book)
      → length snap.bids + length snap.asks < 2 ^ 63
      → (rebuild F C snap book).1 ≡ none
      → Holds C (unix_nano snap.timestamp) (kept_levels snap) (rebuild F C snap book).0
  unfolding rebuild
  rebuild-Holds snap book room fine =
      let timestamp = unix_nano snap.timestamp in
      let (bids, id, failed) =
        insert_levels F C buy timestamp snap.bids (negsuc 0) (C.clear book) in
      elim (Option-cases failed) [
        | inr (e, bad) ↦ absurd (ground arith)
        | inl good ↦
            let (held, next) =
              insert_levels-Holds F C B buy timestamp snap.bids [] (C.clear book) (omega arith)
                (cleared-Holds timestamp book) good in
            elim (Option-cases (insert_levels F C sell timestamp snap.asks id bids).2) [
              | inr (e, bad) ↦ absurd (ground arith)
              | inl good' ↦
                  let both =
                    insert_levels-Holds F C B sell timestamp snap.asks (positive buy snap.bids) bids
                      (omega (arith, length-positive buy snap.bids)) held (rw next at good') in
                  rw (good, good', rebuild) (rw next (both.0))
            ]
      ]

module _ (F : Float64) (C : CoreBook) (N : Subscribers F) (B : IsBook C) where
  -- After an OnSnapshot without error, of a snapshot with less than 2^63 levels, the core book
  -- has exactly one order for each level of a positive quantity, bids first: the first under the
  -- ID -1, the next under -2 and so on, with the level's price and quantity, its side and the
  -- snapshot's time. It has no order under any other ID, whatever it held before. The core book
  -- keeps its laws.
  pub on_snapshot-details :
      (snap : ExchangeSnapshot) (now : Time) (b : BrokerOrderBook F C N)
      → length snap.bids + length snap.asks < 2 ^ 63
      → (on_snapshot F C N (some snap) now b).1 ≡ none
      → (j : ℤ)
      → C.get_order_details (on_snapshot F C N (some snap) now b).0.core_book j
        ≡ expected (unix_nano snap.timestamp) (kept_levels snap) j
  unfolding on_snapshot conclude rebuild
  on_snapshot-details snap now b room fine j =
      elim (Bool-cases (nat_eqb snap.symbol_id (C.symbol_id b.core_book))) [
        | inr other ↦ absurd (ground arith)
        | inl same ↦ elim (Option-cases (rebuild F C snap b.core_book).1) [
          | inr (e, bad) ↦ absurd (ground arith)
          | inl good ↦ ground (arith, rebuild-Holds F C B snap b.core_book room good j)
        ]
      ]
