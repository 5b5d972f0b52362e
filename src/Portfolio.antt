-- ===== src/Portfolio.antt =====
-- The per-strategy portfolio of mvp/src/backtest/portfolio.h and portfolio.cpp.
pub mod Products
pub mod Equity
pub mod Averaging
pub mod Settled
use low_latency_hft_matching.Base.{
  ℕ, ◌+◌, ◌/◌, suc, ℤ, pos, negsuc, pos_part, neg_part, ◌+ℤ◌, ◌-ℤ◌, ◌*ℤ◌, eqb_ℤ, ltb_ℤ, is_pos,
  min_ℤ, Bool, ◌&&◌, ◌||◌, if◌then◌else◌,
}
use low_latency_hft_matching.Book.Types.{Side, buy, sell, Price, Quantity}

pub record Portfolio : Type 0 where
  pub position : Quantity
  pub avg_cost : Price
  pub realized_pnl : ℤ
  pub gross_volume : ℤ

abbrev pub new_portfolio : Portfolio
new_portfolio = record {
  position = pos 0;
  avg_cost = pos 0;
  realized_pnl = pos 0;
  gross_volume = pos 0;
}

abbrev pub neg_ℤ : ℤ → ℤ
neg_ℤ a = pos 0 -ℤ a

-- `std::abs`
abbrev pub abs_ℤ : ℤ → ℤ
abs_ℤ a = pos (pos_part a + neg_part a)

abbrev pub is_neg : ℤ → Bool
is_neg a = ltb_ℤ a (pos 0)

-- The division of `int64_t`, which rounds towards 0.
unfoldable pub quot_ℤ : ℤ → ℤ → ℤ
quot_ℤ (pos a) (pos b) = pos (a / b)
quot_ℤ (pos a) (negsuc b) = neg_ℤ (pos (a / suc b))
quot_ℤ (negsuc a) (pos b) = neg_ℤ (pos (suc a / b))
quot_ℤ (negsuc a) (negsuc b) = pos (suc a / suc b)

abbrev pub signed : Side → Quantity → Quantity
signed buy qty = qty
signed sell qty = neg_ℤ qty

unfoldable pub same_direction : Quantity → Quantity → Bool
same_direction position signed_qty =
    (is_pos position && is_pos signed_qty) || (is_neg position && is_neg signed_qty)

-- A fill in the direction of the position.
unfoldable pub extend : Quantity → Price → Portfolio → Portfolio
extend signed_qty price p =
    let abs_old = abs_ℤ p.position in
    let abs_add = abs_ℤ signed_qty in
    record p {
      avg_cost = quot_ℤ (p.avg_cost *ℤ abs_old +ℤ price *ℤ abs_add) (abs_old +ℤ abs_add);
      position = p.position +ℤ signed_qty;
    }

-- A fill against the position.
unfoldable pub reduce : Quantity → Price → Portfolio → Portfolio
reduce signed_qty price p =
    let abs_pos = abs_ℤ p.position in
    let abs_fill = abs_ℤ signed_qty in
    let closed = min_ℤ abs_pos abs_fill in
    let pnl_per_unit = if is_pos p.position then price -ℤ p.avg_cost else p.avg_cost -ℤ price in
    let q = record p { realized_pnl = p.realized_pnl +ℤ pnl_per_unit *ℤ closed } in
    if ltb_ℤ abs_fill abs_pos
    then record q { position = p.position +ℤ signed_qty }
    else if eqb_ℤ abs_fill abs_pos
    then record q { position = pos 0; avg_cost = pos 0 }
    else record q { position = signed_qty +ℤ p.position; avg_cost = price }

unfoldable pub on_fill : Side → Price → Quantity → Portfolio → Portfolio
on_fill side price qty p =
    let signed_qty = signed side qty in
    let q = record p { gross_volume = p.gross_volume +ℤ qty } in
    if eqb_ℤ p.position (pos 0)
    then record q { position = signed_qty; avg_cost = price }
    else if same_direction p.position signed_qty
    then extend signed_qty price q
    else reduce signed_qty price q

unfoldable pub unrealized_pnl : Price → Portfolio → ℤ
unrealized_pnl mark p =
    if eqb_ℤ p.position (pos 0)
    then pos 0
    else if is_pos p.position
    then (mark -ℤ p.avg_cost) *ℤ p.position
    else (p.avg_cost -ℤ mark) *ℤ neg_ℤ p.position

unfoldable pub total_pnl : Price → Portfolio → ℤ
total_pnl mark p = p.realized_pnl +ℤ unrealized_pnl mark p
