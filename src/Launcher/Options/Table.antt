-- ===== src/Launcher/Options/Table.antt =====
-- ubsim_lab/config_launcher.py: the options of gem5, each with the setting that it takes, as a list.
use openurma_gem5_lab.Prelude.{
  String, List, Bool, ◌≡◌, refl, ◌==◌, ◌&&◌, ◌∷◌, [], true, all, All, contains, string_eq, arith,
}
use mathlib.Core.Path.{subst}
use openurma_gem5_lab.Prelude.Dict.{Dict, lookup}
use openurma_gem5_lab.Prelude.Text.{replace_dash, drop_text}
use openurma_gem5_lab.Checkpoint.{starts_with, ends_with}
use openurma_gem5_lab.Launcher.Options.{gem5_options, gem5_key, derived_key}

-- The settings by the options.
abbrev pub option_settings : Dict String String
option_settings =
    ("cpu", "cpu_mode")
    ∷ ("m5ops-base", "m5ops_base")
    ∷ ("cpu-freq", "cpu_freq")
    ∷ ("num-cpus", "cpu_count")
    ∷ ("benchmark-cpu", "benchmark_cpu")
    ∷ ("o3-width", "o3_width")
    ∷ ("o3-rob-entries", "o3_rob_entries")
    ∷ ("o3-iq-entries", "o3_iq_entries")
    ∷ ("o3-lq-entries", "o3_lq_entries")
    ∷ ("o3-sq-entries", "o3_sq_entries")
    ∷ ("o3-load-ports", "o3_load_ports")
    ∷ ("o3-store-ports", "o3_store_ports")
    ∷ ("o3-fetch-buffer-bytes", "o3_fetch_buffer_bytes")
    ∷ ("o3-fetch-queue-entries", "o3_fetch_queue_entries")
    ∷ ("o3-phys-int-regs", "o3_phys_int_regs")
    ∷ ("o3-phys-float-regs", "o3_phys_float_regs")
    ∷ ("o3-phys-vec-regs", "o3_phys_vec_regs")
    ∷ ("o3-phys-vec-pred-regs", "o3_phys_vec_pred_regs")
    ∷ ("o3-phys-mat-regs", "o3_phys_mat_regs")
    ∷ ("last-cache-level", "last_cache_level")
    ∷ ("cache-line-size", "cache_line_size")
    ∷ ("l1i-size", "l1i_size")
    ∷ ("l1i-assoc", "l1i_assoc")
    ∷ ("l1i-latency", "l1i_latency_tag_data_response_cycles")
    ∷ ("l1i-mshrs", "l1i_mshrs")
    ∷ ("l1i-targets-per-mshr", "l1i_targets_per_mshr")
    ∷ ("l1i-write-buffers", "l1i_write_buffers")
    ∷ ("l1d-size", "l1d_size")
    ∷ ("l1d-prefetcher", "cache_prefetcher")
    ∷ ("l1d-assoc", "l1d_assoc")
    ∷ ("l1d-latency", "l1d_latency_tag_data_response_cycles")
    ∷ ("l1d-mshrs", "l1d_mshrs")
    ∷ ("l1d-targets-per-mshr", "l1d_targets_per_mshr")
    ∷ ("l1d-write-buffers", "l1d_write_buffers")
    ∷ ("l2-size", "l2_size")
    ∷ ("l2-assoc", "l2_assoc")
    ∷ ("l2-latency", "l2_latency_tag_data_response_cycles")
    ∷ ("l2-mshrs", "l2_mshrs")
    ∷ ("l2-targets-per-mshr", "l2_targets_per_mshr")
    ∷ ("l2-write-buffers", "l2_write_buffers")
    ∷ ("l3-size", "l3_size")
    ∷ ("l3-assoc", "l3_assoc")
    ∷ ("l3-latency", "l3_latency_tag_data_response_cycles")
    ∷ ("l3-mshrs", "l3_mshrs")
    ∷ ("l3-targets-per-mshr", "l3_targets_per_mshr")
    ∷ ("l3-write-buffers", "l3_write_buffers")
    ∷ ("fabric-freq", "fabric_freq")
    ∷ ("fabric-width-bytes", "fabric_width_bytes")
    ∷ ("coherent-bus-frontend-latency", "coherent_bus_frontend_latency_cycles")
    ∷ ("coherent-bus-forward-latency", "coherent_bus_forward_latency_cycles")
    ∷ ("coherent-bus-response-latency", "coherent_bus_response_latency_cycles")
    ∷ ("coherent-bus-snoop-response-latency", "coherent_bus_snoop_response_latency_cycles")
    ∷ ("coherent-bus-header-latency", "coherent_bus_header_latency_cycles")
    ∷ ("memory-bus-frontend-latency", "memory_bus_frontend_latency_cycles")
    ∷ ("memory-bus-forward-latency", "memory_bus_forward_latency_cycles")
    ∷ ("memory-bus-response-latency", "memory_bus_response_latency_cycles")
    ∷ ("memory-bus-snoop-response-latency", "memory_bus_snoop_response_latency_cycles")
    ∷ ("memory-bus-header-latency", "memory_bus_header_latency_cycles")
    ∷ ("core-bus-snoop-filter-capacity", "core_bus_snoop_filter_capacity")
    ∷ ("l3-bus-snoop-filter-capacity", "l3_bus_snoop_filter_capacity")
    ∷ ("membus-snoop-filter-capacity", "membus_snoop_filter_capacity")
    ∷ ("io-bus-frontend-latency", "io_bus_frontend_latency_cycles")
    ∷ ("io-bus-forward-latency", "io_bus_forward_latency_cycles")
    ∷ ("io-bus-response-latency", "io_bus_response_latency_cycles")
    ∷ ("io-bus-header-latency", "io_bus_header_latency_cycles")
    ∷ ("io-cache-size", "io_cache_size")
    ∷ ("io-cache-assoc", "io_cache_assoc")
    ∷ ("io-cache-latency", "io_cache_latency_tag_data_response_cycles")
    ∷ ("io-cache-mshrs", "io_cache_mshrs")
    ∷ ("io-cache-targets-per-mshr", "io_cache_targets_per_mshr")
    ∷ ("io-cache-write-buffers", "io_cache_write_buffers")
    ∷ ("mem-size", "memory_size")
    ∷ ("guest-mem-limit", "guest_memory_limit")
    ∷ ("mem-type", "memory_type")
    ∷ ("mem-channels", "memory_channels")
    ∷ ("mem-channels-intlv", "memory_channel_interleave_bytes")
    ∷ ("mem-addr-mapping", "memory_address_mapping")
    ∷ ("xor-low-bit", "memory_channel_xor_low_bit")
    ∷ ("mem-ranks", "memory_ranks_per_channel")
    ∷ ("mem-read-buffer-size", "memory_read_buffer_bursts_per_channel")
    ∷ ("mem-write-buffer-size", "memory_write_buffer_bursts_per_channel")
    ∷ ("mem-page-policy", "memory_page_policy")
    ∷ ("mem-max-accesses-per-row", "memory_max_accesses_per_row")
    ∷ ("mem-sched-policy", "memory_scheduler")
    ∷ ("mem-write-high-thresh", "memory_write_high_threshold_percent")
    ∷ ("mem-write-low-thresh", "memory_write_low_threshold_percent")
    ∷ ("mem-min-writes-per-switch", "memory_min_writes_per_switch")
    ∷ ("mem-min-reads-per-switch", "memory_min_reads_per_switch")
    ∷ ("mem-ctrl-frontend-latency", "memory_controller_frontend_latency")
    ∷ ("mem-ctrl-backend-latency", "memory_controller_backend_latency")
    ∷ ("mem-ctrl-command-window", "memory_controller_command_window")
    ∷ []

agrees : (String → String) → List String → String × String → Bool
agrees key_of options entry = contains options entry.0 && key_of entry.0 == entry.1

listed :
    (key_of : String → String) (options : List String) (P : String × String → Type 0)
    (entries : Dict String String)
    → ((option : String) → contains options option ≡ true → P (option, key_of option))
    → all (agrees key_of options) entries ≡ true
    → All P entries
unfolding agrees
listed key_of options P [] each h = tt
listed key_of options P ((option, key) ∷ rest) each h =
    let same : key_of option ≡ key = (string_eq.test_iff (key_of option) key).0 (ground arith) in
    (
      subst (λ k. P (option, k)) same (each option (ground arith)),
      listed key_of options P rest each (ground arith),
    )

all_agree : all (agrees gem5_key gem5_options) option_settings ≡ true
unfolding agrees gem5_key derived_key replace_dash drop_text starts_with ends_with lookup
all_agree = refl

-- What holds of each option and its setting holds of the list.
pub All-option_settings :
    (P : String × String → Type 0)
    → ((option : String) → contains gem5_options option ≡ true → P (option, gem5_key option))
    → All P option_settings
All-option_settings P each = listed gem5_key gem5_options P option_settings each all_agree
