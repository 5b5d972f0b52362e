-- ===== src/Drivers.antt =====
-- The drivers behind the trait of mvp/src/core/driver.h: software_driver.{h,cpp}, and the DPDK and
-- FPGA drivers of mvp/src/dpdk and mvp/src/fpga. What the system calls and the packet library answer
-- are arguments; the labels and the addresses are left out.
pub mod Polling
pub mod Lifecycle
use low_latency_hft_matching.Base.{
  ℕ, zero, suc, ◌+◌, ◌-◌, ◌%◌, ◌^◌, List, [], ◌∷◌, Bool, true, false, ◌&&◌, Option, none, some, ltb,
  length, if◌then◌else◌, ◌==◌, not, ◌>>=◌,
}

-- The counters that the drivers write.
pub record DriverStats : Type 0 where
  pub rx_messages : ℕ
  pub tx_messages : ℕ
  pub rx_bytes : ℕ

abbrev pub no_stats : DriverStats
no_stats = record { rx_messages = 0; tx_messages = 0; rx_bytes = 0 }

-- `uint64_t` addition.
abbrev pub add64 : ℕ → ℕ → ℕ
add64 a b = (a + b) % 2 ^ 64

-- Whether the feed and the gateway are there, and whether the gateway is started.
pub record SoftwareDriver : Type 0 where
  pub running : Bool
  pub has_feed : Bool
  pub gateway : Option Bool
  pub stats : DriverStats

unfoldable pub new_software : SoftwareDriver
new_software = record { running = false; has_feed = false; gateway = none; stats = no_stats }

-- `start`, with whether the feed opens and the gateway starts.
unfoldable pub start_software : Bool → Bool → SoftwareDriver → Bool × SoftwareDriver
start_software feed_opens gateway_starts d = if d.running then (true, d) else (
  gateway_starts,
  record d { running = gateway_starts; has_feed = feed_opens; gateway = some gateway_starts },
)

unfoldable pub stop_software : SoftwareDriver → SoftwareDriver
stop_software d =
    if d.running then record d { running = false; has_feed = false; gateway = none } else d

-- `poll`, with the gateway's counters of orders and of reports.
unfoldable pub poll_software : ℕ → ℕ → SoftwareDriver → ℕ × SoftwareDriver
poll_software orders reports d = elim d.gateway [
  | none ↦ (0, d)
  | some _ ↦ (
    if ltb d.stats.rx_messages orders then orders - d.stats.rx_messages else 0,
    record d { stats = record d.stats { rx_messages = orders; tx_messages = reports } },
  )
]

-- `DpdkDriver::Native`
pub record Native : Type 0 where
  pub eal_inited : Bool
  pub port_started : Bool

pub record DpdkDriver : Type 0 where
  pub running : Bool
  pub native : Option Native
  pub stats : DriverStats

unfoldable pub new_dpdk : DpdkDriver
new_dpdk = record { running = false; native = none; stats = no_stats }

-- `start`: whether the build is native, and whether the four calls succeed that it checks.
unfoldable pub start_dpdk : Bool → Bool → Bool → Bool → Bool → DpdkDriver → Bool × DpdkDriver
start_dpdk native_dpdk eal pool configure port d =
    if d.running
    then (true, d)
    else if native_dpdk
    then (let started = eal && pool && configure && port in
        (
          started,
          record d {
            running = started;
            native = some (record { eal_inited = eal; port_started = started });
          },
        ))
    else (false, d)

unfoldable pub stop_dpdk : DpdkDriver → DpdkDriver
stop_dpdk d = if d.running then record d { running = false; native = none } else d

-- The loop over the packets of a burst, given by their lengths.
unfoldable pub count_packets : List ℕ → DriverStats → DriverStats
count_packets [] s = s
count_packets (len ∷ lens) s =
    count_packets lens
      (record s { rx_messages = add64 s.rx_messages 1; rx_bytes = add64 s.rx_bytes len })

-- `std::min` of the burst's size and what is left of the budget.
abbrev pub wanted : ℕ → ℕ → ℕ
wanted budget done = if ltb (budget - done) 32 then budget - done else 32

-- `while (done < budget)`, with what the call of `rte_eth_rx_burst` with this number gives for this
-- size, as lengths of packets; `none` out of fuel.
unfoldable pub poll_from : (ℕ → ℕ → List ℕ) → ℕ → ℕ → ℕ → ℕ → DriverStats → Option (ℕ × DriverStats)
poll_from rx_burst zero budget call done s = none
poll_from rx_burst (suc fuel) budget call done s =
    let rx = rx_burst call (wanted budget done) in
    let again = poll_from rx_burst fuel budget (call + 1) (done + length rx) (count_packets rx s) in
    if ltb done budget then (if length rx == 0 then some (done, s) else again) else some (done, s)

-- `poll`; every round that goes on takes a packet, so the budget and one more is enough fuel.
unfoldable pub poll_dpdk : Bool → (ℕ → ℕ → List ℕ) → ℕ → DpdkDriver → Option (ℕ × DpdkDriver)
unfolding poll_from
poll_dpdk native_dpdk rx_burst budget d =
    if native_dpdk && d.running
    then (poll_from rx_burst (budget + 1) budget 0 0 d.stats >>= λ r.
        some (r.0, record d { stats = r.1 }))
    else some (0, d)

-- Whether the device is open and its memory is mapped.
pub record FpgaDriver : Type 0 where
  pub running : Bool
  pub fd_open : Bool
  pub mapped : Bool

unfoldable pub new_fpga : FpgaDriver
new_fpga = record { running = false; fd_open = false; mapped = false }

-- `start`: whether the build has the device, and whether `open`, `fstat` on a size other than 0, and
-- `mmap` succeed.
unfoldable pub start_fpga : Bool → Bool → Bool → Bool → FpgaDriver → Bool × FpgaDriver
start_fpga native_fpga opens sized maps d =
    if d.running
    then (true, d)
    else if native_fpga
    then (if not opens
        then (false, record d { fd_open = false })
        else if not sized
        then (false, record d { fd_open = false })
        else if not maps
        then (false, record d { mapped = false; fd_open = false })
        else (true, record { running = true; fd_open = true; mapped = true }))
    else (false, d)

unfoldable pub stop_fpga : FpgaDriver → FpgaDriver
stop_fpga d = if d.running then record { running = false; fd_open = false; mapped = false } else d

-- `poll`, in every build.
unfoldable pub poll_fpga : ℕ → FpgaDriver → ℕ
poll_fpga budget d = 0

pub data Driver : Type 0 where
  fpga : FpgaDriver → Driver
  dpdk : DpdkDriver → Driver
  software : SoftwareDriver → Driver

-- `make_fpga_driver` and `make_dpdk_driver`; `none` is the null pointer.
unfoldable pub make_fpga_driver : Bool → Bool → Bool → Bool → Option FpgaDriver
unfolding start_fpga new_fpga
make_fpga_driver native_fpga opens sized maps =
    let r = start_fpga native_fpga opens sized maps new_fpga in
    if native_fpga && r.0 then some r.1 else none

unfoldable pub make_dpdk_driver : Bool → Bool → Bool → Bool → Bool → Option DpdkDriver
unfolding start_dpdk new_dpdk
make_dpdk_driver native_dpdk eal pool configure port =
    let r = start_dpdk native_dpdk eal pool configure port new_dpdk in
    if native_dpdk && r.0 then some r.1 else none

-- The first of the three that is there.
unfoldable pub make_best_available_driver : Option FpgaDriver → Option DpdkDriver → Driver
make_best_available_driver (some d) other = fpga d
make_best_available_driver none (some d) = dpdk d
make_best_available_driver none none = software new_software
