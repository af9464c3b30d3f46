-- ===== src/RmaRegression.antt =====
-- tools/run_modular_rma_regression.py: the cases of the suites, and the command of a case.
pub mod Fences
use openurma_gem5_lab.Prelude.{
  ℕ, zero, suc, ◌+◌, ◌*◌, String, ◌<>◌, Bool, true, false, List, [], ◌∷◌, ◌++◌, map, Option, some,
  none, ltb, ◌==◌, nat_eq, string_eq, if◌then◌else◌,
}
use openurma_gem5_lab.Prelude.Text.{str, join}

-- A row of a suite.
pub record RmaCase : Type 0 where
  pub label : String
  pub verb : String
  pub size : ℕ
  pub iterations : ℕ
  pub post_list : ℕ
  pub cq_mod : ℕ
  pub bidirectional : Bool
  pub all_exponent : Option ℕ

abbrev case : String → String → ℕ → ℕ → ℕ → ℕ → Bool → RmaCase
case label verb size iterations post_list cq_mod bidirectional = record {
  label = label;
  verb = verb;
  size = size;
  iterations = iterations;
  post_list = post_list;
  cq_mod = cq_mod;
  bidirectional = bidirectional;
  all_exponent = none;
}

abbrev scan_case : RmaCase
scan_case = record {
  label = "write_bw_all_2_to_1m_inline64";
  verb = "write_bw";
  size = 1048576;
  iterations = 64;
  post_list = 1;
  cq_mod = 1;
  bidirectional = true;
  all_exponent = some 20;
}

abbrev pub full_cases : List RmaCase
full_cases =
    case "send_lat_128" "send_lat" 128 20 1 1 false
    ∷ case "send_bw_128_wrap" "send_bw" 128 128 16 16 false
    ∷ case "send_bw_4096" "send_bw" 4096 32 16 16 false
    ∷ case "write_lat_128" "write_lat" 128 8 1 1 false
    ∷ case "read_lat_128" "read_lat" 128 8 1 1 false
    ∷ case "write_bw_4096_out16" "write_bw" 4096 64 16 16 true
    ∷ case "read_bw_4096_out16" "read_bw" 4096 64 16 16 true
    ∷ case "write_bw_65536_frag" "write_bw" 65536 16 1 1 true
    ∷ case "read_bw_65536_frag" "read_bw" 65536 16 1 1 true
    ∷ case "write_bw_1m_frag" "write_bw" 1048576 5 1 1 true
    ∷ case "read_bw_1m_frag" "read_bw" 1048576 5 1 1 true
    ∷ scan_case
    ∷ []

abbrev pub sync_smoke_cases : List RmaCase
sync_smoke_cases =
    case "send_lat_128_sync" "send_lat" 128 8 1 1 false
    ∷ case "write_lat_128_sync" "write_lat" 128 8 1 1 false
    ∷ case "read_lat_128_sync" "read_lat" 128 8 1 1 false
    ∷ case "send_bw_128_sync" "send_bw" 128 16 16 16 false
    ∷ case "read_bw_4096_sync" "read_bw" 4096 64 16 16 true
    ∷ []

abbrev pub timing_send_cases : List RmaCase
timing_send_cases =
    map (λ size. case ("send_bw_" <> str size <> "_timing") "send_bw" size 1024 64 64 false)
      (128 ∷ 1024 ∷ 4096 ∷ [])

abbrev flat_map {ℓ κ} : {A : Type ℓ} {B : Type κ} → (A → List B) → List A → List B
flat_map f [] = []
flat_map f (x ∷ xs) = f x ++ flat_map f xs

abbrev bw_commands : List String
bw_commands = "send_bw" ∷ "write_bw" ∷ "read_bw" ∷ []

abbrev pub outstanding_cases : List RmaCase
outstanding_cases =
    flat_map
      (λ verb.
        map
          (λ (mode : String × ℕ).
            case (verb <> "_4096_depth512_" <> mode.0) verb 4096 2048 mode.1 mode.1 true)
          (("single", 1) ∷ ("batch16", 16) ∷ ("batch512", 512) ∷ []))
      bw_commands

abbrev boundary_sizes : String → List ℕ
boundary_sizes verb =
    1
    ∷ 2
    ∷ 63
    ∷ 64
    ∷ 65
    ∷ 127
    ∷ 128
    ∷ 129
    ∷ 4095
    ∷ 4096
    ∷ (if verb == "send_bw" then [] else 4097 ∷ 65535 ∷ 65536 ∷ [])

abbrev pub boundary_cases : List RmaCase
boundary_cases =
    flat_map
      (λ verb.
        map (λ size. case (verb <> "_" <> str size <> "_boundary") verb size 64 1 1 true)
          (boundary_sizes verb))
      bw_commands

abbrev pub multi_cases : List RmaCase
multi_cases =
    flat_map
      (λ verb.
        map (λ size. case (verb <> "_" <> str size <> "_multi") verb size 512 16 16 true)
          (128 ∷ 4096 ∷ []))
      bw_commands

unfoldable pub queue_words : Option ℕ → List String
queue_words none = []
queue_words (some depth) = "-T" ∷ str depth ∷ "-R" ∷ str depth ∷ []

unfoldable pub size_words : Option ℕ → ℕ → List String
size_words none size = "-s" ∷ str size ∷ []
size_words (some exponent) size = ("-a" <> str exponent) ∷ []

unfoldable pub server_words : Option String → List String
server_words none = []
server_words (some server) = "-S" ∷ server ∷ []

-- `command`, of a row
unfoldable pub case_command : RmaCase → ℕ → Option String → Bool → Option ℕ → ℕ → String
unfolding queue_words size_words server_words
case_command c port server dist_sync queue_depth jettys = join " " (
    (if dist_sync then "UBSIM_DIST_SYNC=1" ∷ "OPENURMA_DIST_SYNC=1" ∷ [] else [])
    ++ ("LD_LIBRARY_PATH=/lib:/usr/lib"
        ∷ "urma_perftest"
        ∷ c.verb
        ∷ "-d"
        ∷ "udma0"
        ∷ "--eid_idx"
        ∷ "0"
        ∷ "--ctp"
        ∷ "-P"
        ∷ str port
        ∷ "-J"
        ∷ str jettys
        ∷ "-I"
        ∷ "64"
        ∷ "-n"
        ∷ str c.iterations
        ∷ "-l"
        ∷ str c.post_list
        ∷ "-Q"
        ∷ str c.cq_mod
        ∷ "-p"
        ∷ "0"
        ∷ [])
    ++ queue_words queue_depth
    ++ (if ltb 1 jettys then "--jettys_pre_jfr" ∷ "1" ∷ [] else [])
    ++ size_words c.all_exponent c.size
    ++ (if c.bidirectional then "-B" ∷ [] else [])
    ++ server_words server)
