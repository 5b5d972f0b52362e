-- ===== src/Book/Types.antt =====
-- The data of mvp/src/order_book.h: sides, resting orders, trades, price levels and the order index.
use low_latency_hft_matching.Base.{
  ℕ, ◌-◌, ◌+◌, ℤ, List, Option, none, some, ◌==◌, if◌then◌else◌, is_some,
}

pub data Side : Type 0 where
  buy sell : Side

abbrev pub Price : Type 0
Price = ℤ

abbrev pub Quantity : Type 0
Quantity = ℤ

-- `OrderNode` less its links: a level is the list of its nodes.
pub record OrderNode : Type 0 where
  pub id : ℕ
  pub side : Side
  pub price : Price
  pub qty : Quantity
  pub ts : ℕ

pub record Trade : Type 0 where
  pub taker_id : ℕ
  pub maker_id : ℕ
  pub price : Price
  pub qty : Quantity

-- The FIFO of one price, head (oldest) first.
abbrev pub Level : Type 0
Level = List OrderNode

-- One `std::map`, in its key order, so that `begin()` is the head.
abbrev pub BookSide : Type 0
BookSide = List (Price × Level)

-- What `cancel` reads through an index entry: the side and the price of the live node.
abbrev pub Ref : Type 0
Ref = Side × Price

-- `std::unordered_map<OrderId, OrderNode*>`: its lookup and its size.
pub record Index : Type 0 where
  pub at : ℕ → Option Ref
  pub count : ℕ

unfoldable pub erase : ℕ → Index → Index
erase k m = record {
  at = λ j. if k == j then none else m.at j;
  count = if is_some (m.at k) then m.count - 1 else m.count;
}

unfoldable pub insert : ℕ → Ref → Index → Index
insert k r m = record {
  at = λ j. if k == j then some r else m.at j;
  count = if is_some (m.at k) then m.count else m.count + 1;
}

-- What the book sees of `ObjectPool`: slots taken and slots there are.
pub record PoolCount : Type 0 where
  pub in_use : ℕ
  pub capacity : ℕ

unfoldable pub acquire : PoolCount → Option PoolCount
acquire p = if p.in_use == p.capacity then none else some (record p { in_use = p.in_use + 1 })

unfoldable pub release : PoolCount → PoolCount
release p = record p { in_use = p.in_use - 1 }
