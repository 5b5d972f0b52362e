-- ===== src/Ptp.antt =====
-- The clock synchronisation of mvp/src/ptp/ptp_client.{h,cpp} and ptp_oracle.cpp. What the clocks, the
-- sockets and the file system answer are arguments.
pub mod Accuracy
use low_latency_hft_matching.Base.{
  ℕ, ◌+◌, ◌%◌, ◌^◌, ℤ, pos, negsuc, ◌+ℤ◌, ◌-ℤ◌, ◌*ℤ◌, eqb_ℤ, [], ◌∷◌, ◌++◌, Bool, true, false, ◌&&◌,
  Option, none, some, ◌==◌, is_empty, if◌then◌else◌, take, ◌>>=◌,
}
use low_latency_hft_matching.Strategy.{increment}
use low_latency_hft_matching.Portfolio.{quot_ℤ}
use low_latency_hft_matching.Fix.Numbers.{Bytes}
use low_latency_hft_matching.Fix.Building.{int_chars}
use low_latency_hft_matching.Gateway.Orders.{to_u64}
use low_latency_hft_matching.Scan.{scan_text, scan_signed}

pub data Backend : Type 0 where
  auto linux_phc ptp4l_uds mock_oracle : Backend

pub record PtpSample : Type 0 where
  pub offset_ns : ℤ
  pub one_way_ns : ℤ
  pub local_ns : ℕ
  pub valid : Bool

abbrev pub no_sample : PtpSample
no_sample = record { offset_ns = pos 0; one_way_ns = pos 0; local_ns = 0; valid = false }

-- The configured backend, the resolved one, and what the sync thread keeps.
pub record PtpClient : Type 0 where
  pub backend : Backend
  pub active : Backend
  pub offset_ewma_ns : ℤ
  pub sample_count : ℕ
  pub running : Bool

unfoldable pub new_client : Backend → PtpClient
new_client backend = record {
  backend = backend;
  active = mock_oracle;
  offset_ewma_ns = pos 0;
  sample_count = 0;
  running = false;
}

-- The build has `HFT_PTP`, the hardware clock is readable, the socket of ptp4l is named and usable.
unfoldable pub resolve_backend : Bool → Bool → Bool → Backend → Backend
resolve_backend native phc uds auto =
    if native && phc then linux_phc else if uds then ptp4l_uds else mock_oracle
resolve_backend native phc uds linux_phc = linux_phc
resolve_backend native phc uds ptp4l_uds = ptp4l_uds
resolve_backend native phc uds mock_oracle = mock_oracle

-- `start` up to the thread.
unfoldable pub start_client : Bool → Bool → Bool → PtpClient → PtpClient
start_client native phc uds c =
    if c.running
    then c
    else record c { running = true; active = resolve_backend native phc uds c.backend }

unfoldable pub stop_client : PtpClient → PtpClient
stop_client c = if c.running then record c { running = false } else c

-- Seconds and nanoseconds of the hardware clock and of the system's; `none` if a call fails.
unfoldable pub sample_phc : Bool → Option (ℤ × ℤ × ℤ × ℤ) → ℤ → Option PtpSample
sample_phc false clocks now = none
sample_phc true none now = none
sample_phc true (some (phc_s, phc_ns, sys_s, sys_ns)) now = some (record {
  offset_ns = phc_s *ℤ pos (10 ^ 9) +ℤ phc_ns -ℤ (sys_s *ℤ pos (10 ^ 9) +ℤ sys_ns);
  one_way_ns = pos 0;
  local_ns = to_u64 now;
  valid = true;
})

unfoldable pub sample_ptp4l : Option PtpSample
sample_ptp4l = none

-- "PTP1 T1=", " T2=", " T3=".
abbrev pub t1_text : Bytes
t1_text = 80 ∷ 84 ∷ 80 ∷ 49 ∷ 32 ∷ 84 ∷ 49 ∷ 61 ∷ []

abbrev pub t2_text : Bytes
t2_text = 32 ∷ 84 ∷ 50 ∷ 61 ∷ []

abbrev pub t3_text : Bytes
t3_text = 32 ∷ 84 ∷ 51 ∷ 61 ∷ []

-- What the client sends.
unfoldable pub request : ℤ → Bytes
request t1 = t1_text ++ (int_chars t1 ++ 10 ∷ [])

-- How far the oracle's master clock is ahead of its own.
abbrev pub master_offset_ns : ℤ
master_offset_ns = pos 1234567

unfoldable pub answer_text : ℤ → ℤ → ℤ → Bytes
answer_text t1 t2 t3 =
    t1_text
    ++ (int_chars t1 ++ (t2_text ++ (int_chars t2 ++ (t3_text ++ (int_chars t3 ++ 10 ∷ [])))))

-- A round of the oracle: the datagram, and its clock at receipt and at the answer.
unfoldable pub oracle_answer : Bytes → ℤ → ℤ → Option Bytes
oracle_answer datagram t2 t3 = do
  rest ← scan_text t1_text (take 255 datagram)
  r ← scan_signed rest
  some (answer_text r.0 (t2 +ℤ master_offset_ns) (t3 +ℤ master_offset_ns))

-- `sscanf` of an answer.
unfoldable pub scan_answer : Bytes → Option (ℤ × ℤ × ℤ)
scan_answer bs = do
  r1 ← scan_text t1_text bs
  n1 ← scan_signed r1
  r2 ← scan_text t2_text n1.1
  n2 ← scan_signed r2
  r3 ← scan_text t3_text n2.1
  n3 ← scan_signed r3
  some (n1.0, n2.0, n3.0)

-- The times of a whole exchange.
unfoldable pub measure : ℤ → ℤ → ℤ → ℤ → PtpSample
measure t1 t2 t3 t4 = record {
  offset_ns = quot_ℤ (t2 -ℤ t1 +ℤ t3 -ℤ t4) (pos 2);
  one_way_ns = quot_ℤ (t4 -ℤ t1 -ℤ (t3 -ℤ t2)) (pos 2);
  local_ns = to_u64 t4;
  valid = true;
}

-- The clock at sending, the datagram received, if the socket gave one in time, and the clock then.
unfoldable pub sample_mock : ℤ → Option Bytes → ℤ → Option PtpSample
sample_mock t1 none t4 = none
sample_mock t1 (some datagram) t4 =
    if is_empty datagram
    then none
    else (scan_answer (take 127 datagram) >>= λ t.
        if eqb_ℤ t.0 t1 then some (measure t1 t.1 t.2 t4) else none)

-- `sample`, with what each backend would give.
unfoldable pub sample : Option PtpSample → Option PtpSample → Backend → PtpSample
sample phc mock linux_phc = elim phc [ none ↦ no_sample | some s ↦ s ]
sample phc mock ptp4l_uds = elim sample_ptp4l [ none ↦ no_sample | some s ↦ s ]
sample phc mock mock_oracle = elim mock [ none ↦ no_sample | some s ↦ s ]
sample phc mock auto = no_sample

-- A round of the sync thread; `smooth prev fresh` stands for `prev + ewma_alpha * (fresh - prev)`.
unfoldable pub sync : (ℤ → ℤ → ℤ) → PtpSample → PtpClient → PtpClient
sync smooth s c =
    if s.valid
    then record c {
      offset_ewma_ns =
          if c.sample_count == 0 then s.offset_ns else smooth c.offset_ewma_ns s.offset_ns;
      sample_count = increment c.sample_count;
    }
    else c

unfoldable pub to_master_ns : ℤ → PtpClient → ℤ
to_master_ns local_ns c = local_ns +ℤ c.offset_ewma_ns
