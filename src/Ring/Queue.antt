-- ===== src/Ring/Queue.antt =====
-- The ring as a bounded FIFO queue, also after its indices have wrapped.
use Prim.Native.Nat.{◌∣◌}
use native.Mathlib.Nat.{
  mod-lt, mod-eq_of_lt, mod-eq-sub-mod, mod-add-mod, pow-suc, pow-le-pow_right, one-le-pow,
  dvd_refl, dvd-mul_right_of_dvd, mod-mod_of_dvd,
}
use native.Mathlib.Decide.{dec_lt}
use low_latency_hft_matching.Base.{
  ℕ, zero, suc, ◌+◌, ◌-◌, ◌%◌, ◌^◌, ◌≤◌, ◌<◌, ◌≡◌, refl, ap, ap₂, sym, ◌∙◌, subst, ◌≢◌, List, [],
  ◌∷◌, ◌++◌, true, false, some, length, arith, ◌==◌, Bool-cases, inl, inr, ltb,
}
use low_latency_hft_matching.Ring.Fifo
use low_latency_hft_matching.Ring.{
  SpscRing, cap, slot, write, add_size, sub_size, size_max, new_ring, try_push, try_pop,
  size_approx,
}

pow-dvd : (j k : ℕ) → (2 ^ k) ∣ (2 ^ (j + k))
pow-dvd zero k = subst (λ m. (2 ^ k) ∣ (2 ^ m)) (omega arith) (dvd_refl (2 ^ k))
pow-dvd (suc j) k =
    subst (λ m. (2 ^ k) ∣ m) (sym (pow-suc 2 (j + k)) ∙ ap (λ m. 2 ^ m) (omega arith))
      (dvd-mul_right_of_dvd (2 ^ k) (pow-dvd j k) 2)

cap-dvd : (k : ℕ) → k < 64 → (2 ^ k) ∣ size_max
cap-dvd k h =
    let e : 64 - k + k ≡ 64 = omega arith in subst (λ m. (2 ^ k) ∣ (2 ^ m)) e (pow-dvd (64 - k) k)

pub cap-le : (k : ℕ) → k < 64 → (2 ^ k ≤ 2 ^ 63) × (0 < 2 ^ k)
cap-le k h =
    let two : 0 < 2 = omega arith in
    let small : k ≤ 63 = omega arith in
    (pow-le-pow_right {n = 2} two {i = k} {j = 63} small, one-le-pow k 2 two)

-- A `size_t` index picks the slot of the index that has not wrapped.
pub mask_wrap : (k n : ℕ) → k < 64 → n % size_max % 2 ^ k ≡ n % 2 ^ k
mask_wrap k n h = mod-mod_of_dvd _ n (cap-dvd k h)

-- Fewer than `c` steps round the ring do not come back to the same slot.
pub step-mod-ne : (c t k : ℕ) → 0 < c → suc k < c → (t + suc k) % c ≢ t % c
step-mod-ne c t k pos small =
    let h = t % c in
    let below = mod-lt t pos in
    let shift : (t + suc k) % c ≡ (h + suc k) % c = sym (mod-add-mod t c (suc k)) in
    elim (dec_lt (h + suc k) c) [
      | yes p ↦ omega (arith, shift, mod-eq_of_lt p)
      | no p ↦ omega (
        arith,
        shift,
        mod-eq-sub-mod {n = h + suc k} {m = c} (omega arith),
        mod-eq_of_lt {n = h + suc k - c} {m = c} (omega arith),
      )
    ]

module _ {ℓ} {T : Type ℓ} where
  -- The `n` elements from index `t` on, in a buffer of `c` slots; the indices do not wrap.
  abbrev pub window : (ℕ → T) → ℕ → ℕ → ℕ → List T
  window buf c t zero = []
  window buf c t (suc n) = buf (t % c) ∷ window buf c (t + 1) n

  length-window : (buf : ℕ → T) (c t n : ℕ) → length (window buf c t n) ≡ n
  length-window buf c t zero = refl
  length-window buf c t (suc n) = ap suc (length-window buf c (t + 1) n)

  -- The window depends on its start by the slot alone.
  window-mod : (buf : ℕ → T) (c t u n : ℕ) → t % c ≡ u % c → window buf c t n ≡ window buf c u n
  window-mod buf c t u zero e = refl
  window-mod buf c t u (suc n) e = ap₂ ◌∷◌ (ap buf e) (
      window-mod buf c (t + 1) (u + 1) n
        (sym (mod-add-mod t c 1) ∙ ap (λ k. (k + 1) % c) e ∙ mod-add-mod u c 1))

  pub write_self : (buf : ℕ → T) (i : ℕ) (v : T) → write i v buf i ≡ v
  unfolding write
  write_self buf i v = ground arith

  pub write_ne : (buf : ℕ → T) (i j : ℕ) (v : T) → j ≢ i → write i v buf j ≡ buf j
  unfolding write
  write_ne buf i j v h = ground arith

  -- Writing just past a window that leaves room extends it by that element.
  window-write :
      (buf : ℕ → T) (c t n i : ℕ) (v : T)
      → 0 < c
      → n < c
      → i ≡ (t + n) % c
      → window (write i v buf) c t (suc n) ≡ window buf c t n ++ v ∷ []
  window-write buf c t zero i v pos room e =
      let at : t % c ≡ i = ap (λ k. k % c) (omega arith) ∙ sym e in
      ap (λ x. x ∷ []) (rw at (write_self buf i v))
  window-write buf c t (suc n) i v pos room e =
      let at : i ≡ (t + 1 + n) % c = e ∙ ap (λ k. k % c) (omega arith) in
      ap₂ ◌∷◌ (write_ne buf i (t % c) v (λ h. step-mod-ne c t n pos room (sym (h ∙ e))))
        (window-write buf c (t + 1) n i v pos (omega arith) at)

  -- What the ring holds, oldest first.
  abbrev pub contents : SpscRing T → List T
  contents r = window r.buf (cap r) r.tail (sub_size r.head r.tail)

  -- The indices are below 2^64, and the producer is never more than the capacity ahead.
  pub record IsValid (r : SpscRing T) : Type 0 where
    pub log_cap : r.log_cap < 64
    pub head : r.head < size_max
    pub tail : r.tail < size_max
    pub size : sub_size r.head r.tail ≤ cap r

  -- A ring of fewer than 2^64 slots starts valid and empty.
  pub new_ring-IsValid :
      (log_cap : ℕ) (buf : ℕ → T)
      → log_cap < 64
      → IsValid (new_ring log_cap buf) × (contents (new_ring log_cap buf) ≡ [])
  unfolding new_ring
  new_ring-IsValid log_cap buf h =
      (record { log_cap = h; head = omega arith; tail = omega arith; size = omega arith }, refl)

  -- The count after a push, and the slot that it writes.
  size-push :
      (r : SpscRing T)
      → IsValid r
      → (sub_size (add_size r.head 1) r.tail ≡ sub_size r.head r.tail + 1)
        × (slot r r.head ≡ (r.tail + sub_size r.head r.tail) % cap r)
  size-push r k =
      let (le, pos) = cap-le r.log_cap k.log_cap in
      let e : (r.tail + sub_size r.head r.tail) % size_max ≡ r.head = omega arith in
      (omega arith, ap (λ h. h % cap r) (sym e) ∙ mask_wrap r.log_cap _ k.log_cap)

  -- On a valid ring `try_push` answers and acts as the bounded queue of its contents.
  pub try_push_refines :
      (v : T) (r : SpscRing T)
      → IsValid r
      → ((try_push v r).0, contents (try_push v r).1) ≡ Fifo.push (cap r) v (contents r)
  unfolding try_push Fifo.push
  try_push_refines v r k =
      let (le, pos) = cap-le r.log_cap k.log_cap in
      let n = sub_size r.head r.tail in
      let len = length-window r.buf (cap r) r.tail n in
      let (more, at) = size-push r k in
      elim (Bool-cases (n == cap r)) [
        | inl full ↦
            let over : ltb (cap r) (n + 1) ≡ true = ground arith in rw (len, more, full, over)
        | inr room ↦
            let fits : ltb (cap r) (n + 1) ≡ false = ground arith in
            let e : n + 1 ≡ suc n = omega arith in
            let small : n < cap r = ground arith in
            rw (len, more, room, fits, more, e)
              (ap (λ q. (true, q))
                (window-write r.buf (cap r) r.tail n (slot r r.head) v pos small at))
      ]

  size-pop :
      (r : SpscRing T)
      → IsValid r
      → (r.tail == r.head) ≡ false
      → (sub_size r.head r.tail ≡ suc (sub_size r.head (add_size r.tail 1)))
        × (add_size r.tail 1 % cap r ≡ (r.tail + 1) % cap r)
  size-pop r k h =
      let (le, pos) = cap-le r.log_cap k.log_cap in
      let ne : r.tail ≢ r.head = ground arith in
      (omega arith, mask_wrap r.log_cap (r.tail + 1) k.log_cap)

  -- On a valid ring `try_pop` answers and acts as the bounded queue of its contents.
  pub try_pop_refines :
      (r : SpscRing T) → IsValid r → ((try_pop r).0, contents (try_pop r).1) ≡ Fifo.pop (contents r)
  unfolding try_pop Fifo.pop
  try_pop_refines r k = elim (Bool-cases (r.tail == r.head)) [
    | inl empty ↦ let none_left : sub_size r.head r.tail ≡ 0 = ground arith in rw (empty, none_left)
    | inr more ↦
        let (n, at) = size-pop r k more in
        rw (more, n)
          (ap (λ q. (some (r.buf (r.tail % cap r)), q))
            (window-mod r.buf (cap r) (add_size r.tail 1) (r.tail + 1) _ at))
  ]

  try_push-IsValid : (v : T) (r : SpscRing T) → IsValid r → IsValid (try_push v r).1
  unfolding try_push
  try_push-IsValid v r k =
      let (more, at) = size-push r k in
      elim (Bool-cases (ltb (cap r) (sub_size (add_size r.head 1) r.tail))) [
        | inl full ↦ rw full k
        | inr room ↦ rw room (record {
          log_cap = k.log_cap;
          head = mod-lt _ (omega arith);
          tail = k.tail;
          size = ground (arith, room);
        })
      ]

  try_pop-IsValid : (r : SpscRing T) → IsValid r → IsValid (try_pop r).1
  unfolding try_pop
  try_pop-IsValid r k = elim (Bool-cases (r.tail == r.head)) [
    | inl empty ↦ rw empty k
    | inr more ↦
        let (n, at) = size-pop r k more in
        rw more (record {
          log_cap = k.log_cap;
          head = k.head;
          tail = mod-lt _ (omega arith);
          size = omega (arith, n, k.size);
        })
  ]

  -- Both operations leave a valid ring, and `size_approx`, called on its own, counts the contents,
  -- which are never more than the capacity.
  pub ring-IsValid :
      (v : T) (r : SpscRing T)
      → IsValid r
      → IsValid (try_push v r).1
        × IsValid (try_pop r).1
        × (size_approx r ≡ length (contents r))
        × (length (contents r) ≤ cap r)
  unfolding size_approx
  ring-IsValid v r k =
      let len = length-window r.buf (cap r) r.tail (sub_size r.head r.tail) in
      (try_push-IsValid v r k, try_pop-IsValid r k, sym len, omega (arith, len, k.size))

  -- On a valid ring `try_push` and `try_pop` answer and act as the bounded queue of its contents does,
  -- and leave a valid ring.
  pub ring_refines :
      (v : T) (r : SpscRing T)
      → IsValid r
      → (((try_push v r).0, contents (try_push v r).1) ≡ Fifo.push (cap r) v (contents r))
        × (((try_pop r).0, contents (try_pop r).1) ≡ Fifo.pop (contents r))
        × IsValid (try_push v r).1
        × IsValid (try_pop r).1
  ring_refines v r k =
      (try_push_refines v r k, try_pop_refines r k, try_push-IsValid v r k, try_pop-IsValid r k)
