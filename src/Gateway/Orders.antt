-- ===== src/Gateway/Orders.antt =====
-- The handlers of mvp/src/fix/gateway.cpp that use the engine. `none` is the fuel of the book's loops
-- running out, which no valid book does.
use low_latency_hft_matching.Base.{
  ℕ, ◌-◌, ◌%◌, ◌^◌, ℤ, pos, negsuc, ◌+ℤ◌, ◌-ℤ◌, is_pos, ltb_ℤ, eqb_ℤ, List, [], ◌∷◌, ◌++◌, Bool,
  not, ◌&&◌, ◌||◌, Option, none, some, ◌==◌, is_empty, if◌then◌else◌, ◌>>=◌, map,
}
use low_latency_hft_matching.Book.{OrderBook, best_bid, best_ask, qty_at}
use low_latency_hft_matching.Book.Types.{Side, buy, sell, Price, Quantity, Trade}
use low_latency_hft_matching.Engine.{Engine}
use low_latency_hft_matching.Engine
use low_latency_hft_matching.Strategy.{increment}
use low_latency_hft_matching.Fix.{Message, get, get_int, get_double}
use low_latency_hft_matching.Fix.Numbers.{Bytes}
use low_latency_hft_matching.Platform.{Platform}
use low_latency_hft_matching.Feed.{publish_l1}
use low_latency_hft_matching.Gateway.{Gateway, Session}
use low_latency_hft_matching.Gateway.Sending.{ExecReport, send_exec_report, send_md_snapshot}

-- What a handler reads of the book while it holds the engine's lock.
pub record Quote : Type 0 where
  pub bid_px : Price
  pub ask_px : Price
  pub bid_sz : Quantity
  pub ask_sz : Quantity

-- `INT64_MAX`, the ask of an empty side.
abbrev pub no_ask : Price
no_ask = pos (2 ^ 63 - 1)

unfoldable pub quote_of : OrderBook → Quote
quote_of b =
    let bid = best_bid b in
    let ask = best_ask b in
    record {
      bid_px = bid;
      ask_px = ask;
      bid_sz = if is_pos bid then qty_at buy bid b else pos 0;
      ask_sz = if ltb_ℤ ask no_ask then qty_at sell ask b else pos 0;
    }

-- The first byte of tag 54, or '1'.
unfoldable pub side_char : Message → ℕ
side_char m = elim (get 54 m) [ [] ↦ 49 | c ∷ _ ↦ c ]

-- The cast of an `int64_t` to `uint64_t`.
unfoldable pub to_u64 : ℤ → ℕ
to_u64 (pos n) = n % 2 ^ 64
to_u64 (negsuc n) = 2 ^ 64 - 1 - n % 2 ^ 64

-- The sum of the trades' quantities.
unfoldable pub filled_from : Quantity → List Trade → Quantity
filled_from filled [] = filled
filled_from filled (t ∷ ts) = filled_from (filled +ℤ t.qty) ts

module _ (P : Platform) where
  open P use {Double, le, add, mul, div, of_int, to_int, half, strtod, print, send, sendto}

  abbrev pub zero_d : Double
  zero_d = of_int (pos 0)

  abbrev pub hundred : Double
  hundred = of_int (pos 100)

  -- What `on_new_order` reads of the message.
  pub record NewOrder : Type 0 where
    pub cl_ord_id : Bytes
    pub symbol : Bytes
    pub side_c : ℕ
    pub order_qty : Double
    pub price : Double

  unfoldable pub read_order : Message → NewOrder
  read_order m = record {
    cl_ord_id = get 11 m;
    symbol = get 55 m;
    side_c = side_char m;
    order_qty = get_double strtod 38 zero_d m;
    price = get_double strtod 44 zero_d m;
  }

  unfoldable pub is_garbage : NewOrder → Bool
  is_garbage o =
      le o.order_qty zero_d || (le o.price zero_d || (not (o.side_c == 49) && not (o.side_c == 50)))

  unfoldable pub order_side : NewOrder → Side
  order_side o = if o.side_c == 49 then buy else sell

  -- `price * 100.0 + 0.5`, cut to an integer.
  unfoldable pub ticks_of : NewOrder → Price
  ticks_of o = to_int (add (mul o.price hundred) half)

  -- A report with no fill in it.
  unfoldable pub plain_report : NewOrder → ℕ → ℕ → ℕ → Double → Double → Double → ExecReport Double
  plain_report o order_id exec_type ord_status qty cum leaves = record {
    cl_ord_id = o.cl_ord_id;
    order_id = order_id;
    exec_type = exec_type;
    ord_status = ord_status;
    side = o.side_c;
    symbol = o.symbol;
    order_qty = qty;
    cum_qty = cum;
    leaves_qty = leaves;
    last_qty = zero_d;
    last_px = zero_d;
    avg_px = zero_d;
  }

  -- The locals of one round of the loop over the trades.
  pub record Fill : Type 0 where
    pub cum : Quantity
    pub lv : Quantity
    pub last : Quantity
    pub px : Double
    pub avg : Double
    pub final_fill : Bool

  abbrev pub price_of : Trade → Double
  price_of t = div (of_int t.price) hundred

  -- `notional` after the trade.
  abbrev pub notional_after : Double → Trade → Double
  notional_after notional t = add notional (mul (price_of t) (of_int t.qty))

  -- One round, from `cum` and `notional`; the flag is whether the trade is the last.
  unfoldable pub round : Quantity → Quantity → Double → Trade → Bool → Fill
  round qty cum notional t is_last =
      let cum' = cum +ℤ t.qty in
      let lv = qty -ℤ cum' in
      record {
        cum = cum';
        lv = lv;
        last = t.qty;
        px = price_of t;
        avg = div (notional_after notional t) (of_int cum');
        final_fill = is_last && eqb_ℤ lv (pos 0);
      }

  unfoldable pub fills : Quantity → Quantity → Double → List Trade → List Fill
  unfolding round
  fills qty cum notional [] = []
  fills qty cum notional (t ∷ ts) =
      round qty cum notional t (is_empty ts)
      ∷ fills qty (cum +ℤ t.qty) (notional_after notional t) ts

  unfoldable pub fill_report : NewOrder → ℕ → Quantity → Fill → ExecReport Double
  fill_report o order_id qty f = record {
    cl_ord_id = o.cl_ord_id;
    order_id = order_id;
    exec_type = if f.final_fill then 50 else 49;
    ord_status = if f.final_fill then 50 else 49;
    side = o.side_c;
    symbol = o.symbol;
    order_qty = of_int qty;
    cum_qty = of_int f.cum;
    leaves_qty = of_int f.lv;
    last_qty = of_int f.last;
    last_px = f.px;
    avg_px = f.avg;
  }

  -- The reports of an accepted order, in the order in which they are sent.
  unfoldable pub reports : NewOrder → ℕ → Quantity → List Trade → List (ExecReport Double)
  unfolding filled_from
  reports o order_id qty trades =
      let filled = filled_from (pos 0) trades in
      let leaves = qty -ℤ filled in
      let fresh = plain_report o order_id 48 48 (of_int qty) zero_d (of_int leaves) in
      let rest = plain_report o order_id 48 49 (of_int qty) (of_int filled) (of_int leaves) in
      if is_empty trades
      then fresh ∷ []
      else map (fill_report o order_id qty) (fills qty (pos 0) zero_d trades)
        ++ (if is_pos leaves then rest ∷ [] else [])

  unfoldable pub send_reports : List (ExecReport Double) → Gateway × Session → Gateway × Session
  send_reports [] c = c
  send_reports (r ∷ rs) c = send_reports rs (send_exec_report P r c)

  -- The price of the ask as it is shown; 0 on an empty side.
  abbrev pub ask_shown : Quote → Double
  ask_shown q = if ltb_ℤ q.ask_px no_ask then div (of_int q.ask_px) hundred else zero_d

  -- The end of `on_new_order`.
  unfoldable pub publish_quote : Bytes → Quote → Gateway → Gateway
  publish_quote symbol q g = elim g.feed [
    | none ↦ g
    | some f ↦ record g {
      feed = some (
          (publish_l1 P symbol (div (of_int q.bid_px) hundred) (of_int q.bid_sz) (ask_shown q)
            (of_int q.ask_sz) f).1);
    }
  ]

  -- From the checks on, with the order counted.
  unfoldable pub accept_order : NewOrder → Gateway × Session → Option (Gateway × Session)
  accept_order o (g, s) = do
    let qty = to_int o.order_qty
    placed ← Engine.place_limit (order_side o) (ticks_of o) qty g.engine
    let sent =
        send_reports (reports o placed.0 qty placed.1.last_trades)
          (record g { engine = placed.1 }, s)
    some (publish_quote o.symbol (quote_of placed.1.book) sent.0, sent.1)

  unfoldable pub on_new_order : Message → Gateway × Session → Option (Gateway × Session)
  on_new_order m (g, s) =
      let o = read_order m in
      let counted = record g { orders = increment g.orders } in
      if is_garbage o
      then some (send_exec_report P (plain_report o 0 56 56 o.order_qty zero_d zero_d) (counted, s))
      else accept_order o (counted, s)

  unfoldable pub on_cancel : Message → Gateway × Session → Gateway × Session
  on_cancel m (g, s) =
      let oid = to_u64 (get_int 37 (pos 0) m) in
      let r = Engine.cancel oid g.engine in
      let status = if r.0 then 52 else 56 in
      send_exec_report P
        (record {
          cl_ord_id = get 11 m;
          order_id = oid;
          exec_type = status;
          ord_status = status;
          side = side_char m;
          symbol = get 55 m;
          order_qty = zero_d;
          cum_qty = zero_d;
          leaves_qty = zero_d;
          last_qty = zero_d;
          last_px = zero_d;
          avg_px = zero_d;
        })
        (record g { engine = r.1 }, s)

  unfoldable pub on_md_request : Message → Gateway × Session → Gateway × Session
  on_md_request m (g, s) =
      let q = quote_of g.engine.book in
      (
        g,
        send_md_snapshot P g.comp_id (get 262 m) (get 55 m) (div (of_int q.bid_px) hundred)
            (of_int q.bid_sz) (ask_shown q) (of_int q.ask_sz) s,
      )
