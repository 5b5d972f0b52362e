-- ===== src/Ring.antt =====
-- The single-producer single-consumer ring of mvp/src/spsc_ring.h. Its indices are `size_t` and wrap;
-- a slot is picked by a mask, which on a power of two is the remainder.
pub mod Fifo
pub mod Queue
pub mod Capacity
pub mod Threads
use low_latency_hft_matching.Base.{
  ℕ, zero, suc, ◌+◌, ◌-◌, ◌*◌, ◌%◌, ◌^◌, Bool, true, false, Option, none, some, ◌==◌, ltb, leb,
  if◌then◌else◌,
}

-- `std::bit_ceil`: the least power of two that is not below `n`, on fuel that counts the exponent.
unfoldable pub bit_ceil_from : ℕ → ℕ → ℕ → ℕ
bit_ceil_from zero p n = p
bit_ceil_from (suc fuel) p n = let up = bit_ceil_from fuel (2 * p) n in if leb n p then p else up

-- `detail::round_up_pow2`; 64 doublings cover every `size_t`.
unfoldable pub round_up_pow2 : ℕ → ℕ
unfolding bit_ceil_from
round_up_pow2 n = if ltb n 2 then 2 else bit_ceil_from 64 1 n

-- `kCap` is `2 ^ log_cap`; the buffer is read and written at masked indices.
pub record SpscRing {ℓ} (T : Type ℓ) : Type ℓ where
  pub log_cap : ℕ
  pub head : ℕ
  pub tail : ℕ
  pub buf : ℕ → T

abbrev pub size_max : ℕ
size_max = 2 ^ 64

-- `size_t` addition and subtraction.
abbrev pub add_size : ℕ → ℕ → ℕ
add_size a b = (a + b) % size_max

abbrev pub sub_size : ℕ → ℕ → ℕ
sub_size a b = (a + size_max - b) % size_max

module _ {ℓ} {T : Type ℓ} where
  abbrev pub cap : SpscRing T → ℕ
  cap r = 2 ^ r.log_cap

  -- `h & kMask`
  abbrev pub slot : SpscRing T → ℕ → ℕ
  slot r h = h % cap r

  unfoldable pub new_ring : ℕ → (ℕ → T) → SpscRing T
  new_ring log_cap buf = record { log_cap = log_cap; head = 0; tail = 0; buf = buf }

  unfoldable pub write : ℕ → T → (ℕ → T) → ℕ → T
  write i v buf j = if j == i then v else buf j

  unfoldable pub try_push : T → SpscRing T → Bool × SpscRing T
  unfolding write
  try_push v r =
      let next = add_size r.head 1 in
      if ltb (cap r) (sub_size next r.tail)
      then (false, r)
      else (true, record r { buf = write (slot r r.head) v r.buf; head = next })

  -- The option is what goes through `out`.
  unfoldable pub try_pop : SpscRing T → Option T × SpscRing T
  try_pop r =
      if r.tail == r.head
      then (none, r)
      else (some (r.buf (slot r r.tail)), record r { tail = add_size r.tail 1 })

  unfoldable pub size_approx : SpscRing T → ℕ
  size_approx r = sub_size r.head r.tail
