-- ===== src/Launcher/Options.antt =====
-- ubsim_lab/config_launcher.py: the options of gem5 and the settings that they take.
pub mod Keys
pub mod Table
use openurma_gem5_lab.Prelude.{
  String, ◌<>◌, Bool, true, false, ◌&&◌, ◌||◌, List, [], ◌∷◌, ◌==◌, string_eq, if◌then◌else◌, any,
  Option, some, none,
}
use openurma_gem5_lab.Prelude.Dict.{Dict, lookup}
use openurma_gem5_lab.Prelude.Text.{replace_dash, drop_text}
use openurma_gem5_lab.Checkpoint.{starts_with, ends_with}

-- `GEM5_OPTIONS`
abbrev pub gem5_options : List String
gem5_options =
    "cpu" ∷ "m5ops-base" ∷ "cpu-freq" ∷ "num-cpus" ∷ "benchmark-cpu" ∷ "o3-width" ∷ "o3-rob-entries"
    ∷ "o3-iq-entries" ∷ "o3-lq-entries" ∷ "o3-sq-entries" ∷ "o3-load-ports" ∷ "o3-store-ports"
    ∷ "o3-fetch-buffer-bytes" ∷ "o3-fetch-queue-entries" ∷ "o3-phys-int-regs" ∷ "o3-phys-float-regs"
    ∷ "o3-phys-vec-regs" ∷ "o3-phys-vec-pred-regs" ∷ "o3-phys-mat-regs" ∷ "last-cache-level"
    ∷ "cache-line-size" ∷ "l1i-size" ∷ "l1i-assoc" ∷ "l1i-latency" ∷ "l1i-mshrs"
    ∷ "l1i-targets-per-mshr" ∷ "l1i-write-buffers" ∷ "l1d-size" ∷ "l1d-prefetcher" ∷ "l1d-assoc"
    ∷ "l1d-latency" ∷ "l1d-mshrs" ∷ "l1d-targets-per-mshr" ∷ "l1d-write-buffers" ∷ "l2-size"
    ∷ "l2-assoc" ∷ "l2-latency" ∷ "l2-mshrs" ∷ "l2-targets-per-mshr" ∷ "l2-write-buffers"
    ∷ "l3-size" ∷ "l3-assoc" ∷ "l3-latency" ∷ "l3-mshrs" ∷ "l3-targets-per-mshr"
    ∷ "l3-write-buffers" ∷ "fabric-freq" ∷ "fabric-width-bytes" ∷ "coherent-bus-frontend-latency"
    ∷ "coherent-bus-forward-latency" ∷ "coherent-bus-response-latency"
    ∷ "coherent-bus-snoop-response-latency" ∷ "coherent-bus-header-latency"
    ∷ "memory-bus-frontend-latency" ∷ "memory-bus-forward-latency" ∷ "memory-bus-response-latency"
    ∷ "memory-bus-snoop-response-latency" ∷ "memory-bus-header-latency"
    ∷ "core-bus-snoop-filter-capacity" ∷ "l3-bus-snoop-filter-capacity"
    ∷ "membus-snoop-filter-capacity" ∷ "io-bus-frontend-latency" ∷ "io-bus-forward-latency"
    ∷ "io-bus-response-latency" ∷ "io-bus-header-latency" ∷ "io-cache-size" ∷ "io-cache-assoc"
    ∷ "io-cache-latency" ∷ "io-cache-mshrs" ∷ "io-cache-targets-per-mshr" ∷ "io-cache-write-buffers"
    ∷ "mem-size" ∷ "guest-mem-limit" ∷ "mem-type" ∷ "mem-channels" ∷ "mem-channels-intlv"
    ∷ "mem-addr-mapping" ∷ "xor-low-bit" ∷ "mem-ranks" ∷ "mem-read-buffer-size"
    ∷ "mem-write-buffer-size" ∷ "mem-page-policy" ∷ "mem-max-accesses-per-row" ∷ "mem-sched-policy"
    ∷ "mem-write-high-thresh" ∷ "mem-write-low-thresh" ∷ "mem-min-writes-per-switch"
    ∷ "mem-min-reads-per-switch" ∷ "mem-ctrl-frontend-latency" ∷ "mem-ctrl-backend-latency"
    ∷ "mem-ctrl-command-window" ∷ []

-- `GEM5_KEY_OVERRIDES`
abbrev pub gem5_key_overrides : Dict String String
gem5_key_overrides =
    ("cpu", "cpu_mode")
    ∷ ("num-cpus", "cpu_count")
    ∷ ("l1d-prefetcher", "cache_prefetcher")
    ∷ ("mem-size", "memory_size")
    ∷ ("guest-mem-limit", "guest_memory_limit")
    ∷ ("mem-type", "memory_type")
    ∷ ("mem-channels-intlv", "memory_channel_interleave_bytes")
    ∷ ("mem-addr-mapping", "memory_address_mapping")
    ∷ ("xor-low-bit", "memory_channel_xor_low_bit")
    ∷ ("mem-ranks", "memory_ranks_per_channel")
    ∷ ("mem-read-buffer-size", "memory_read_buffer_bursts_per_channel")
    ∷ ("mem-write-buffer-size", "memory_write_buffer_bursts_per_channel")
    ∷ ("mem-sched-policy", "memory_scheduler")
    ∷ ("mem-write-high-thresh", "memory_write_high_threshold_percent")
    ∷ ("mem-write-low-thresh", "memory_write_low_threshold_percent")
    ∷ ("mem-ctrl-frontend-latency", "memory_controller_frontend_latency")
    ∷ ("mem-ctrl-backend-latency", "memory_controller_backend_latency")
    ∷ ("mem-ctrl-command-window", "memory_controller_command_window")
    ∷ []

-- `_gem5_key` behind its first test, with `key`.
unfoldable pub derived_key : String → String
unfolding starts_with ends_with drop_text
derived_key key =
    if any (starts_with key) ("l1i_" ∷ "l1d_" ∷ "l2_" ∷ "l3_" ∷ "io_cache_" ∷ [])
      && ends_with key "_latency"
    then key <> "_tag_data_response_cycles"
    else if any (starts_with key) ("coherent_bus_" ∷ "memory_bus_" ∷ "io_bus_" ∷ [])
        && ends_with key "_latency"
    then key <> "_cycles"
    else if key == "mem_channels"
    then "memory_channels"
    else if starts_with key "mem_"
    then "memory_" <> drop_text 4 key
    else key

-- `_gem5_key`
unfoldable pub gem5_key : String → String
unfolding derived_key replace_dash
gem5_key option = elim (lookup option gem5_key_overrides) [
  | some key ↦ key
  | none ↦ derived_key (replace_dash option)
]
