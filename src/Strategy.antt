-- ===== src/Strategy.antt =====
-- The strategy framework of mvp/src/backtest/strategy.h and strategy.cpp: a strategy's account, and
-- the context through which it places and cancels. Strategies are told apart by a number, which
-- stands for the pointer; all contexts of a replay share the engine and the routing table.
pub mod Delivery
use low_latency_hft_matching.Base.{
  ℕ, ◌+◌, ◌%◌, ◌^◌, List, [], ◌∷◌, Bool, true, false, Option, none, some, ◌==◌, if◌then◌else◌,
  ◌>>=◌,
}
use low_latency_hft_matching.Book.{opposite}
use low_latency_hft_matching.Book.Types.{Side, Price, Quantity, Trade}
use low_latency_hft_matching.Engine.{Engine}
use low_latency_hft_matching.Engine
use low_latency_hft_matching.Portfolio.{Portfolio, on_fill}

-- The portfolio and the counters of a `Strategy`.
pub record Account : Type 0 where
  pub portfolio : Portfolio
  pub orders_submitted : ℕ
  pub orders_filled : ℕ
  pub orders_canceled : ℕ

-- `uint64_t` counters.
abbrev pub increment : ℕ → ℕ
increment n = (n + 1) % 2 ^ 64

-- What the contexts share: the engine, the routing table and the strategies.
pub record Desk : Type 0 where
  pub engine : Engine
  pub routing : ℕ → Option ℕ
  pub accounts : ℕ → Account

unfoldable pub update {ℓ} : {A : Type ℓ} → ℕ → A → (ℕ → A) → ℕ → A
update k v f j = if j == k then v else f j

-- `Strategy::on_fill` and the count of the fill.
unfoldable pub credit : Side → Trade → Account → Account
credit side t a = record a {
  portfolio = on_fill side t.price t.qty a.portfolio;
  orders_filled = increment a.orders_filled;
}

-- A fill to the strategy with this number.
unfoldable pub credit_to : ℕ → Side → Trade → (ℕ → Account) → ℕ → Account
credit_to k side t accounts = update k (credit side t (accounts k)) accounts

-- A fill to the maker's strategy, if the routing table has one.
unfoldable pub credit_maker : Option ℕ → Side → Trade → (ℕ → Account) → ℕ → Account
credit_maker none side t accounts = accounts
credit_maker (some k) side t accounts = credit_to k side t accounts

-- The loop over the trades of a placement by `owner`.
unfoldable pub deliver : (ℕ → Option ℕ) → ℕ → Side → List Trade → (ℕ → Account) → ℕ → Account
deliver routing owner side [] accounts = accounts
deliver routing owner side (t ∷ trs) accounts =
    deliver routing owner side trs
      (credit_maker (routing t.maker_id) (opposite side) t (credit_to owner side t accounts))

unfoldable pub submitted : Account → Account
submitted a = record a { orders_submitted = increment a.orders_submitted }

-- `StrategyContext::place_limit`; `none` only if the book's loops run out of fuel.
unfoldable pub place_limit : ℕ → Side → Price → Quantity → Desk → Option (ℕ × Desk)
place_limit owner side price qty d = do
  r ← Engine.place_limit side price qty d.engine
  let routing = update r.0 (some owner) d.routing
  let accounts = update owner (submitted (d.accounts owner)) d.accounts
  some (
    r.0,
    record {
      engine = r.1;
      routing = routing;
      accounts = deliver routing owner side r.1.last_trades accounts;
    },
  )

unfoldable pub canceled : Account → Account
canceled a = record a { orders_canceled = increment a.orders_canceled }

-- `StrategyContext::cancel`.
unfoldable pub cancel : ℕ → ℕ → Desk → Bool × Desk
cancel owner id d =
    let r = Engine.cancel id d.engine in
    if r.0
    then (
      true,
      record {
        engine = r.1;
        routing = update id none d.routing;
        accounts = update owner (canceled (d.accounts owner)) d.accounts;
      },
    )
    else (false, record d { engine = r.1 })
