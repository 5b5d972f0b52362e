-- ===== src/Replay/Csv/RoundTrip.antt =====
-- Ticks that mvp/src/backtest/replay.cpp saves as text are loaded again.
use low_latency_hft_matching.Base.{
  ℕ, suc, ◌-◌, ◌^◌, ◌<◌, ◌≤◌, ◌≡◌, refl, sym, ap, ◌∙◌, ℤ, pos, negsuc, List, [], ◌∷◌, ◌++◌, false,
  some, ◌==◌, is_empty, arith, append-nil, if-false, none,
}
use low_latency_hft_matching.Book.Priority.{All, All-append}
use low_latency_hft_matching.Fix.Numbers.{Bytes, to_chars}
use low_latency_hft_matching.Fix.Numbers.Decimal.{AllDigits, AllDigits-digits, is_empty-digits}
use low_latency_hft_matching.Fix.Framing.{eqb_bytes}
use low_latency_hft_matching.Fix.Building.{int_chars}
use low_latency_hft_matching.Fix.Lookups.{IsInt64}
use low_latency_hft_matching.Scan.{scan_text, scan_char, scan_unsigned}
use low_latency_hft_matching.Scan.Written.{scan_unsigned-to_chars, scan_signed-int_chars}
use low_latency_hft_matching.Backtest.{Tick, trades}
use low_latency_hft_matching.Replay.Csv.{
  cons_first, lines, contains, data_lines, event_of, side_from, scan_tick, scan_ticks, load_csv,
  event_char, side_letter, tick_line, tick_lines, header_line, save_csv,
}

-- The numbers of a tick fit their types, and its event and its side are enumerators.
pub record InRange (t : Tick) : Type 0 where
  pub ts_ns : t.ts_ns < 2 ^ 64
  pub symbol : t.symbol < 2 ^ 32
  pub event : t.event ≤ trades
  pub side : t.side ≤ 1
  pub price : IsInt64 t.price
  pub qty : IsInt64 t.qty
  pub ext_id : t.ext_id < 2 ^ 64

event_of-event_char : (e : ℕ) → e ≤ trades → event_of (event_char e) ≡ e
unfolding event_of event_char
event_of-event_char e h = ground (arith, h)

side_from-side_letter : (s : ℕ) → s ≤ 1 → side_from (side_letter s) ≡ s
unfolding side_from side_letter
side_from-side_letter s h = ground (arith, h)

scan_event : (e : ℕ) (cs : Bytes) → scan_char (event_char e ∷ cs) ≡ some (event_char e, cs)
unfolding scan_char event_char
scan_event e cs = if-false (event_char e == 0) none (some (event_char e, cs)) (ground arith)

scan_side : (s : ℕ) (cs : Bytes) → scan_char (side_letter s ∷ cs) ≡ some (side_letter s, cs)
unfolding scan_char side_letter
scan_side s cs = if-false (side_letter s == 0) none (some (side_letter s, cs)) (ground arith)

scan_last : (n : ℕ) → n ≤ 2 ^ 64 - 1 → scan_unsigned (2 ^ 64 - 1) (to_chars n) ≡ some (n, [])
scan_last n h =
    ap (scan_unsigned (2 ^ 64 - 1)) (sym (append-nil (to_chars n)))
    ∙ scan_unsigned-to_chars (2 ^ 64 - 1) n [] h (omega arith) tt

scan_tick-tick_line : (t : Tick) → InRange t → scan_tick (tick_line t) ≡ some t
unfolding scan_tick tick_line scan_text
scan_tick-tick_line t h =
    let r6 = to_chars t.ext_id in
    let r5 = int_chars t.qty ++ (44 ∷ r6) in
    let r4 = int_chars t.price ++ (44 ∷ r5) in
    let r3 = side_letter t.side ∷ 44 ∷ r4 in
    let r2 = event_char t.event ∷ 44 ∷ r3 in
    let r1 = to_chars t.symbol ++ (44 ∷ r2) in
    rw
      (
        scan_unsigned-to_chars (2 ^ 64 - 1) t.ts_ns (44 ∷ r1) (omega (arith, h.ts_ns)) (omega arith)
            refl,
        scan_unsigned-to_chars (2 ^ 32 - 1) t.symbol (44 ∷ r2) (omega (arith, h.symbol))
            (omega arith) refl,
        scan_event t.event (44 ∷ r3),
        scan_side t.side (44 ∷ r4),
        scan_signed-int_chars t.price (44 ∷ r5) h.price refl,
        scan_signed-int_chars t.qty (44 ∷ r6) h.qty refl,
      )
      (rw
        (
          scan_last t.ext_id (omega (arith, h.ext_id)),
          event_of-event_char t.event h.event,
          side_from-side_letter t.side h.side,
        )
        refl)

-- No byte of these ends a line.
abbrev OneLine : Bytes → Type 0
OneLine cs = All (λ (c : ℕ). (c == 10) ≡ false) cs

digits-OneLine : (cs : Bytes) → AllDigits cs → OneLine cs
digits-OneLine [] h = tt
digits-OneLine (c ∷ cs) h = (ground (arith, h.0), digits-OneLine cs h.1)

to_chars-OneLine : (n : ℕ) → OneLine (to_chars n)
to_chars-OneLine n = digits-OneLine (to_chars n) (AllDigits-digits 20 n)

int_chars-OneLine : (v : ℤ) → OneLine (int_chars v)
int_chars-OneLine (pos n) = to_chars-OneLine n
int_chars-OneLine (negsuc n) = (refl, to_chars-OneLine (suc n))

event-OneLine : (e : ℕ) → (event_char e == 10) ≡ false
unfolding event_char
event-OneLine e = ground arith

side-OneLine : (s : ℕ) → (side_letter s == 10) ≡ false
unfolding side_letter
side-OneLine s = ground arith

OneLine-append : (xs ys : Bytes) → OneLine xs → OneLine ys → OneLine (xs ++ ys)
OneLine-append xs ys h k = All-append (λ (c : ℕ). (c == 10) ≡ false) xs ys h k

tick_line-OneLine : (t : Tick) → OneLine (tick_line t)
unfolding tick_line
tick_line-OneLine t = OneLine-append (to_chars t.ts_ns) _ (to_chars-OneLine t.ts_ns) (
  refl,
  OneLine-append (to_chars t.symbol) _ (to_chars-OneLine t.symbol) (
    refl,
    (
      event-OneLine t.event,
      (
        refl,
        (
          side-OneLine t.side,
          (
            refl,
            OneLine-append (int_chars t.price) _ (int_chars-OneLine t.price) (
              refl,
              OneLine-append (int_chars t.qty) _ (int_chars-OneLine t.qty)
                  (refl, to_chars-OneLine t.ext_id),
            ),
          ),
        ),
      ),
    ),
  ),
)

lines-append : (l rest : Bytes) → OneLine l → lines (l ++ 10 ∷ rest) ≡ l ∷ lines rest
unfolding lines cons_first
lines-append [] rest h = refl
lines-append (c ∷ l) rest h = rw (h.0, lines-append l rest h.1) refl

is_empty_front : (xs ys : Bytes) → is_empty xs ≡ false → is_empty (xs ++ ys) ≡ false
is_empty_front [] ys h = cc
is_empty_front (x ∷ xs) ys h = refl

tick_line_not_empty : (t : Tick) → is_empty (tick_line t) ≡ false
unfolding tick_line
tick_line_not_empty t = is_empty_front (to_chars t.ts_ns) _ (is_empty-digits 19 t.ts_ns)

scan_ticks-tick_lines : (ts : List Tick) → All InRange ts → scan_ticks (lines (tick_lines ts)) ≡ ts
unfolding scan_ticks tick_lines
scan_ticks-tick_lines [] h = unfold lines in refl
scan_ticks-tick_lines (t ∷ ts) h =
    rw
      (
        lines-append (tick_line t) (tick_lines ts) (tick_line-OneLine t),
        tick_line_not_empty t,
        scan_tick-tick_line t h.0,
        scan_ticks-tick_lines ts h.1,
      )
      refl

lines-header : (rest : Bytes) → lines (header_line ++ 10 ∷ rest) ≡ header_line ∷ lines rest
unfolding lines cons_first
lines-header rest = refl

-- Ticks whose numbers fit their types, and whose events and sides are enumerators, are what `load_csv` gives for a file that `save_csv` wrote of
-- them: all of them, in order, and nothing else.
pub load_csv-save_csv : (ts : List Tick) → All InRange ts → load_csv (some (save_csv ts)) ≡ some ts
unfolding load_csv save_csv data_lines contains eqb_bytes
load_csv-save_csv ts h = rw (lines-header (tick_lines ts)) (ap some (scan_ticks-tick_lines ts h))
