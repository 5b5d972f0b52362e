-- ===== src/Feed.antt =====
-- The market data feed of mvp/src/md/feed.{h,cpp}. The results of the socket calls are arguments; the
-- options of the socket and its address are left out.
pub mod Datagrams
use low_latency_hft_matching.Base.{
  ℕ, zero, suc, ◌+◌, ◌-◌, ◌%◌, ◌^◌, ℤ, pos, negsuc, is_pos, ltb_ℤ, [], ◌∷◌, ◌++◌, List, Bool, true,
  false, ◌==◌, ltb, take, if◌then◌else◌,
}
use low_latency_hft_matching.Fix.Numbers.{Bytes, to_chars}
use low_latency_hft_matching.Platform.{Platform}

-- `fd_` is negative while the socket is closed; `sent` is what `::sendto` was given.
pub record Feed : Type 0 where
  pub fd : ℤ
  pub seq : ℕ
  pub published : ℕ
  pub sent : List Bytes

unfoldable pub new_feed : Feed
new_feed = record { fd = negsuc 0; seq = 0; published = 0; sent = [] }

abbrev pub is_closed : ℤ → Bool
is_closed fd = ltb_ℤ fd (pos 0)

-- `open`, with what `::socket` returns and whether `inet_pton` accepts the host.
unfoldable pub open_feed : ℤ → Bool → Feed → Bool × Feed
open_feed fd good_host f =
    if is_closed fd
    then (false, record f { fd = fd })
    else if good_host
    then (true, record f { fd = fd })
    else (false, record f { fd = negsuc 0 })

unfoldable pub close_feed : Feed → Feed
close_feed f = if is_closed f.fd then f else record f { fd = negsuc 0 }

-- What `%s` reads of a text that ends with a NUL.
unfoldable pub until_nul : Bytes → Bytes
until_nul [] = []
until_nul (c ∷ cs) = if c == 0 then [] else c ∷ until_nul cs

abbrev pub bar : ℕ
bar = 124

module _ (P : Platform) where
  open P use {Double, print, sendto}

  -- "L1|<seq>|<symbol>|<bid_px>|<bid_sz>|<ask_px>|<ask_sz>\n", below 256 bytes.
  unfoldable pub l1_line : ℕ → Bytes → Double → Double → Double → Double → Bytes
  l1_line seq symbol bid_px bid_sz ask_px ask_sz =
      76 ∷ 49 ∷ bar ∷ to_chars seq
      ++ (bar ∷ until_nul (take 31 symbol))
      ++ (bar ∷ print bid_px 2)
      ++ (bar ∷ print bid_sz 0)
      ++ (bar ∷ print ask_px 2)
      ++ (bar ∷ print ask_sz 0)
      ++ (10 ∷ [])

  -- The result, and the feed after the call.
  unfoldable pub publish_l1 : Bytes → Double → Double → Double → Double → Feed → ℤ × Feed
  publish_l1 symbol bid_px bid_sz ask_px ask_sz f =
      if is_closed f.fd
      then (negsuc 0, f)
      else let seq = (f.seq + 1) % 2 ^ 64 in
        let line = l1_line seq symbol bid_px bid_sz ask_px ask_sz in
        let n = sendto seq line in
        (
          n,
          record f {
            seq = seq;
            published = if is_pos n then (f.published + 1) % 2 ^ 64 else f.published;
            sent = f.sent ++ line ∷ [];
          },
        )
