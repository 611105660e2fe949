-- ===== src/Core/Samples.antt =====
-- Concrete core books and maps for the tests: they show that the laws can hold.
use fin_kit.Prelude.{
  ◌≡◌, refl, true, false, false, Option, none, some, [], ◌∷◌, String, arith, if◌then◌else◌, ◌==◌,
  is_some, length, ◌+◌,
}
use fin_kit.Prelude.Int.{
  ℤ, pos, negsuc, int_eq, eqb_ℤ_iff, ◌*ℤ◌, ◌+ℤ◌, ◌-ℤ◌, ltb_ℤ, leb_ℤ, pos_part, neg_part,
}
use fin_kit.Core.Floats.{Float64, IsFloat}
use fin_kit.Prelude.Dict.{Dict, lookup, insert, IsDict, lookup-insert}
use fin_kit.Core.Orders.{CoreOrder}
use fin_kit.Core.Books.{CoreBook, IsBook, with_quantity}
use fin_kit.Core.Maps.{Int64Map, IsMap}

-- A map as an association list without double keys: `erase_all` drops every entry of a key.
abbrev erase_all {ℓ} : {V : Type ℓ} → ℤ → Dict ℤ V → Dict ℤ V
erase_all k [] = []
erase_all k ((j, v) ∷ d) = if j == k then erase_all k d else (j, v) ∷ erase_all k d

lookup-erase_all {ℓ} :
    {V : Type ℓ} (k j : ℤ) (d : Dict ℤ V)
    → lookup j (erase_all k d) ≡ (if k == j then none else lookup j d)
lookup-erase_all k j [] = ground arith
lookup-erase_all k j ((i, v) ∷ d) =
    ground (arith, eqb_ℤ_iff i k, eqb_ℤ_iff i j, eqb_ℤ_iff k j, lookup-erase_all k j d)

-- The pairs of an association list whose key does not come again later.
abbrev distinct {ℓ} : {V : Type ℓ} → Dict ℤ V → Dict ℤ V
distinct [] = []
distinct ((k, v) ∷ d) = (k, v) ∷ erase_all k (distinct d)

lookup-distinct {ℓ} : {V : Type ℓ} (j : ℤ) (d : Dict ℤ V) → lookup j (distinct d) ≡ lookup j d
lookup-distinct j [] = refl
lookup-distinct j ((k, v) ∷ d) =
    ground (arith, lookup-erase_all k j (distinct d), lookup-distinct j d, eqb_ℤ_iff k j)

erase_all-IsDict {ℓ} : {V : Type ℓ} (k : ℤ) (d : Dict ℤ V) → IsDict d → IsDict (erase_all k d)
erase_all-IsDict k [] h = tt
erase_all-IsDict k ((j, v) ∷ d) h = ground (arith, lookup-erase_all k j d, erase_all-IsDict k d h.1)

distinct-IsDict {ℓ} : {V : Type ℓ} (d : Dict ℤ V) → IsDict (distinct d)
distinct-IsDict [] = tt
distinct-IsDict ((k, v) ∷ d) =
    ground (
      arith,
      lookup-erase_all k k (distinct d),
      erase_all-IsDict k (distinct d) (distinct-IsDict d),
    )

abbrev pub list_map : Int64Map
list_map = record {
  Map = λ V. Dict ℤ V;
  new_map = λ V capacity. [];
  get = λ {V} m k. lookup k m;
  set = λ {V} k v m. insert k v m;
  delete = λ {V} k m. erase_all k m;
  contains = λ {V} m k. is_some (lookup k m);
  len = λ {V} m. pos (length (distinct m));
  entries = λ {V} m. distinct m;
  clear = λ {V} m. [];
}

list_map-contains :
    (V : Type 0) (m : Dict ℤ V) (k : ℤ)
    → is_some (lookup k m) ≡ elim (lookup k m) [ none ↦ false | some _ ↦ true ]
list_map-contains V m k = ground arith

pub list_map-IsMap : IsMap list_map
list_map-IsMap = record {
  get-new = λ V n k. refl;
  get-set = λ V k j v m. lookup-insert k j v m;
  get-delete = λ V k j m. lookup-erase_all k j m;
  contains-get = list_map-contains;
  len-entries = λ V m. refl;
  lookup-entries = λ V m k. lookup-distinct k m;
  entries-IsDict = λ V m. distinct-IsDict m;
  get-clear = λ V m k. refl;
}

-- A book that keeps its orders as a function of their IDs, and refuses an ID that is there already
-- or is not there, and a price that is not positive.
abbrev pub plain_book : CoreBook
plain_book = record {
  Book = ℤ → Option CoreOrder;
  new_order_book = λ symbol id capacity j. none;
  insert_order = λ o b.
      if is_some (b o.order_id)
      then (b, some "duplicate order")
      else if leb_ℤ o.price (pos 0)
      then (b, some "invalid price")
      else (λ j. if o.order_id == j then some o else b j, none);
  delete_order = λ i b.
      if is_some (b i)
      then (λ j. if i == j then none else b j, none)
      else (b, some "order not found");
  modify_order = λ i q b.
      if is_some (b i)
      then (λ j. if i == j then with_quantity q (b i) else b j, none)
      else (b, some "order not found");
  get_order_details = λ b i. b i;
  get_best_bid = λ b. none;
  get_best_ask = λ b. none;
  get_top_n_bids = λ b n. [];
  get_top_n_asks = λ b n. [];
  get_spread = λ b. pos 0;
  get_mid_price = λ b. pos 0;
  get_bid_levels = λ b. pos 0;
  get_ask_levels = λ b. pos 0;
  get_order_count = λ b. pos 0;
  clear = λ b j. none;
  symbol = λ b. "ACME";
  symbol_id = λ b. 7;
  close = λ b. (b, none);
}

insert_details :
    (o : CoreOrder) (b : plain_book.Book) (j : ℤ)
    → (plain_book.insert_order o b).1 ≡ none
    → plain_book.get_order_details (plain_book.insert_order o b).0 j
      ≡ (if o.order_id == j then some o else plain_book.get_order_details b j)
insert_details o b j h = ground arith

insert_failed :
    (o : CoreOrder) (b : plain_book.Book) (j : ℤ) (message : String)
    → (plain_book.insert_order o b).1 ≡ some message
    → plain_book.get_order_details (plain_book.insert_order o b).0 j
      ≡ plain_book.get_order_details b j
insert_failed o b j message h = ground arith

delete_details :
    (i : ℤ) (b : plain_book.Book) (j : ℤ)
    → (plain_book.delete_order i b).1 ≡ none
    → plain_book.get_order_details (plain_book.delete_order i b).0 j
      ≡ (if i == j then none else plain_book.get_order_details b j)
delete_details i b j h = ground arith

delete_failed :
    (i : ℤ) (b : plain_book.Book) (j : ℤ) (message : String)
    → (plain_book.delete_order i b).1 ≡ some message
    → plain_book.get_order_details (plain_book.delete_order i b).0 j
      ≡ plain_book.get_order_details b j
delete_failed i b j message h = ground arith

modify_details :
    (i q : ℤ) (b : plain_book.Book) (j : ℤ)
    → (plain_book.modify_order i q b).1 ≡ none
    → plain_book.get_order_details (plain_book.modify_order i q b).0 j ≡ (
        if i == j
        then with_quantity q (plain_book.get_order_details b i)
        else plain_book.get_order_details b j)
modify_details i q b j h = ground arith

modify_failed :
    (i q : ℤ) (b : plain_book.Book) (j : ℤ) (message : String)
    → (plain_book.modify_order i q b).1 ≡ some message
    → plain_book.get_order_details (plain_book.modify_order i q b).0 j
      ≡ plain_book.get_order_details b j
modify_failed i q b j message h = ground arith

pub plain_book-IsBook : IsBook plain_book
plain_book-IsBook = record {
  new_details = λ symbol id capacity j. refl;
  insert_details = insert_details;
  insert_failed = insert_failed;
  delete_details = delete_details;
  delete_failed = delete_failed;
  modify_details = modify_details;
  modify_failed = modify_failed;
  clear_details = λ b j. refl;
}

-- Fractions in place of float64.
abbrev pub fractions : Float64
fractions = record {
  Float = ℤ × ℤ;
  zero = (pos 0, pos 1);
  of_int64 = λ n. (n, pos 1);
  one_thousandth = (pos 1, pos 1000);
  one_hundredth = (pos 1, pos 100);
  one = (pos 1, pos 1);
  add = λ (a, b) (c, d). (a *ℤ d +ℤ c *ℤ b, b *ℤ d);
  subtract = λ (a, b) (c, d). (a *ℤ d -ℤ c *ℤ b, b *ℤ d);
  multiply = λ (a, b) (c, d). (a *ℤ c, b *ℤ d);
  divide = λ (a, b) (c, d). (a *ℤ d, b *ℤ c);
  absolute = λ (a, b). (pos (pos_part a + neg_part a), b);
  less = λ (a, b) (c, d). ltb_ℤ (a *ℤ d) (c *ℤ b);
  at_most = λ (a, b) (c, d). leb_ℤ (a *ℤ d) (c *ℤ b);
}

times_one : (n : ℤ) → n *ℤ pos 1 ≡ n
unfolding ◌*ℤ◌
times_one (pos n) = ground arith
times_one (negsuc n) = ground arith

one_times : (n : ℤ) → pos 1 *ℤ n ≡ n
unfolding ◌*ℤ◌
one_times (pos n) = ground arith
one_times (negsuc n) = ground arith

zero_times : (n : ℤ) → pos 0 *ℤ n ≡ pos 0
unfolding ◌*ℤ◌
zero_times n = ground arith

subtract_self : (n : ℤ) → n -ℤ n ≡ pos 0
unfolding ◌-ℤ◌
subtract_self n = ground arith

share_sign :
    (a n : ℤ) → ltb_ℤ a (pos 0) ≡ false → ltb_ℤ (pos 0) n ≡ true → ltb_ℤ (a *ℤ n) (pos 0) ≡ false
unfolding ◌*ℤ◌
share_sign (pos a) (pos n) low positive = ground arith
share_sign (pos a) (negsuc n) low positive = absurd (ground arith)
share_sign (negsuc a) n low positive = absurd (ground arith)

positive_hundredth : fractions.less fractions.one_hundredth fractions.zero ≡ false
unfolding ◌*ℤ◌
positive_hundredth = refl

pub fractions-IsFloat : IsFloat fractions
fractions-IsFloat = record {
  subtract_self = λ n. rw (subtract_self (n *ℤ pos 1), times_one (pos 1)) refl;
  zero_share = λ (a, b) n low positive.
      rw (one_times n, zero_times (pos 1), zero_times b)
        (share_sign a n (rw (times_one a, zero_times b) at low)
          (rw (zero_times (pos 1), times_one n) at positive));
  multiply-one = λ n. rw (times_one n, times_one (pos 1)) refl;
  one_hundredth_positive = positive_hundredth;
}
