-- ===== src/Book/Greedy.antt =====
-- What price-time priority asks of a match: the taker eats a queue of resting orders from its head.
use low_latency_hft_matching.Base.{ℕ, pos, ◌-ℤ◌, leb_ℤ, is_pos, List, [], ◌∷◌, if◌then◌else◌}
use low_latency_hft_matching.Book.Types.{OrderNode, Trade, Quantity}

pub record Outcome : Type 0 where
  pub trades : List Trade
  pub left : Quantity
  pub queue : List OrderNode
  pub done : List ℕ

abbrev pub trade : ℕ → OrderNode → Quantity → Trade
trade taker o qty = record { taker_id = taker; maker_id = o.id; price = o.price; qty = qty }

-- The outcome of a whole fill of `o` in front of another outcome.
abbrev pub filled : ℕ → OrderNode → Outcome → Outcome
filled taker o r = record {
  trades = trade taker o o.qty ∷ r.trades;
  left = r.left;
  queue = r.queue;
  done = o.id ∷ r.done;
}

-- The taker runs out inside `o`.
abbrev pub exhausted : ℕ → Quantity → OrderNode → List OrderNode → Outcome
exhausted taker q o os = record {
  trades = trade taker o q ∷ [];
  left = pos 0;
  queue = record o { qty = o.qty -ℤ q } ∷ os;
  done = [];
}

abbrev pub untouched : Quantity → List OrderNode → Outcome
untouched q os = record { trades = []; left = q; queue = os; done = [] }

unfoldable pub fill : ℕ → Quantity → List OrderNode → Outcome
fill taker q [] = untouched q []
fill taker q (o ∷ os) =
    let rest = fill taker (q -ℤ o.qty) os in
    if is_pos q
    then (if leb_ℤ o.qty q then filled taker o rest else exhausted taker q o os)
    else untouched q (o ∷ os)
