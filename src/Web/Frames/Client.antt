-- ===== src/Web/Frames/Client.antt =====
-- ubsim_lab/web.py: the frames that a browser sends, as RFC 6455 lays them out.
use Prim.Native.Nat.{bit_xor}
use openurma_gem5_lab.Prelude.{
  all, range_from, ℕ, zero, suc, ◌+◌, ◌/◌, ◌%◌, ◌≤◌, ◌<◌, ◌≡◌, refl, ap, Bool, true, List, [], ◌∷◌,
  ◌++◌, ◌==◌, nat_eq, ltb, if◌then◌else◌, length, Bool-cases, inl, inr, All, arith,
}
use openurma_gem5_lab.Web.Frames.{mask_at, unmask}

-- A mask of four bytes.
pub record Mask : Type 0 where
  pub first : ℕ
  pub second : ℕ
  pub third : ℕ
  pub fourth : ℕ

abbrev pub mask_bytes : Mask → List ℕ
mask_bytes m = m.first ∷ m.second ∷ m.third ∷ m.fourth ∷ []

-- What a browser sends: a frame with its mask.
pub record Message : Type 0 where
  pub opcode : ℕ
  pub payload : List ℕ
  pub mask : Mask

-- The bytes of the length, with the bit that says that the frame is masked.
unfoldable pub length_bytes : ℕ → List ℕ
length_bytes n = if ltb n 126 then (128 + n) ∷ [] else (254 ∷ n / 256 ∷ n % 256 ∷ [])

-- The mask without its first byte, which comes last.
abbrev pub rotated : Mask → Mask
rotated m = record { first = m.second; second = m.third; third = m.fourth; fourth = m.first }

-- Octet by octet, the octets of the mask in turn.
unfoldable pub masked : Mask → List ℕ → List ℕ
masked m [] = []
masked m (octet ∷ octets) = bit_xor octet m.first ∷ masked (rotated m) octets

-- A final frame.
unfoldable pub client_frame : Message → List ℕ
unfolding length_bytes masked
client_frame m =
    (((128 + m.opcode) ∷ length_bytes (length m.payload)) ++ mask_bytes m.mask)
    ++ masked m.mask m.payload

unfoldable pub client_stream : List Message → List ℕ
unfolding client_frame
client_stream [] = []
client_stream (m ∷ messages) = client_frame m ++ client_stream messages

abbrev pub IsByte : ℕ → Type 0
IsByte b = b < 256

-- A message that the terminal takes.
pub record IsMessage (m : Message) : Type 0 where
  pub code : m.opcode < 16
  pub size : length m.payload ≤ 8192
  pub bytes : All IsByte m.payload
  pub masked : All IsByte (mask_bytes m.mask)

-- Every byte is in the table of all bytes.
all_range :
    (first count : ℕ) (p : ℕ → Bool) (x : ℕ)
    → all p (range_from first count) ≡ true
    → first ≤ x
    → x < first + count
    → p x ≡ true
all_range first zero p x h low high = absurd (omega arith)
all_range first (suc count) p x h low high = elim (Bool-cases (first == x)) [
  | inl here ↦ let same = (nat_eq.test_iff first x).0 here in rw (← same) (ground arith)
  | inr past ↦ all_range (suc first) count p x (ground arith) (ground arith) (omega arith)
]

abbrev clears : ℕ → ℕ → Bool
clears m b = bit_xor (bit_xor b m) m == b

abbrev clears_all : ℕ → Bool
clears_all m = all (clears m) (range_from 0 256)

xor_table : all clears_all (range_from 0 256) ≡ true
xor_table = refl

xor_twice : (b m : ℕ) → IsByte b → IsByte m → bit_xor (bit_xor b m) m ≡ b
xor_twice b m hb hm = (nat_eq.test_iff (bit_xor (bit_xor b m) m) b).0 (
    all_range 0 256 (clears m) b (all_range 0 256 clears_all m xor_table (omega arith) hm)
      (omega arith) hb)

mask_at-IsByte : (mask : List ℕ) (i : ℕ) → All IsByte mask → IsByte (mask_at mask i)
unfolding mask_at
mask_at-IsByte [] i h = omega arith
mask_at-IsByte (m ∷ mask) zero h = h.0
mask_at-IsByte (m ∷ mask) (suc i) h = mask_at-IsByte mask i h.1

pub unmask_twice :
    (mask : List ℕ) (i : ℕ) (bytes : List ℕ)
    → All IsByte mask
    → All IsByte bytes
    → unmask mask i (unmask mask i bytes) ≡ bytes
unfolding unmask
unmask_twice mask i [] hm hb = refl
unmask_twice mask i (b ∷ bytes) hm (hb, rest) = cc (
  xor_twice b (mask_at mask (i % 4)) hb (mask_at-IsByte mask (i % 4) hm),
  unmask_twice mask (i + 1) bytes hm rest,
)

-- The code takes the octets of the mask by the position.
pub masked_lem :
    (m : Mask) (i : ℕ) (bytes : List ℕ) → i % 4 ≡ 0 → masked m bytes ≡ unmask (mask_bytes m) i bytes
unfolding masked unmask mask_at
masked_lem m i [] h = refl
masked_lem m i (a ∷ []) h = cc
masked_lem m i (a ∷ b ∷ []) h = let second : (i + 1) % 4 ≡ 1 = omega (arith, h) in cc
masked_lem m i (a ∷ b ∷ c ∷ []) h =
    let second : (i + 1) % 4 ≡ 1 = omega (arith, h) in
    let third : (i + 1 + 1) % 4 ≡ 2 = omega (arith, h) in cc
masked_lem m i (a ∷ b ∷ c ∷ d ∷ bytes) h =
    let second : (i + 1) % 4 ≡ 1 = omega (arith, h) in
    let third : (i + 1 + 1) % 4 ≡ 2 = omega (arith, h) in
    let fourth : (i + 1 + 1 + 1) % 4 ≡ 3 = omega (arith, h) in
    cc (masked_lem m (i + 1 + 1 + 1 + 1) bytes (omega (arith, h)))

pub length-unmask :
    (mask : List ℕ) (i : ℕ) (bytes : List ℕ) → length (unmask mask i bytes) ≡ length bytes
unfolding unmask
length-unmask mask i [] = refl
length-unmask mask i (b ∷ bytes) = ap suc (length-unmask mask (i + 1) bytes)
