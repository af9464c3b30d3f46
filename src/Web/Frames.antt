-- ===== src/Web/Frames.antt =====
-- ubsim_lab/web.py: the frames of the terminal's WebSocket, `_ws_frame` and `_ws_parse`.
pub mod Client
pub mod Cuts
pub mod Parsed
pub mod Waits
pub mod Masked
use Prim.Native.Nat.{bit_xor}
use openurma_gem5_lab.Prelude.{
  ℕ, zero, suc, ◌+◌, ◌*◌, ◌/◌, ◌%◌, Bool, true, false, not, ◌||◌, List, [], ◌∷◌, ◌++◌, Option, some,
  none, ◌==◌, nat_eq, ltb, if◌then◌else◌, length, take, drop,
}
use openurma_gem5_lab.Prelude.Result.{Result, ok, err}

-- What leaves the two functions: the `ValueError` of a message that is unmasked or too long, or the
-- `OverflowError` of `to_bytes`.
pub data FrameError : Type 0 where
  invalid_message : FrameError
  overflow : FrameError

-- `_ws_frame`
unfoldable pub ws_frame : List ℕ → Result FrameError (List ℕ)
ws_frame bytes =
    if ltb (length bytes) 126
    then ok (0x82 ∷ length bytes ∷ bytes)
    else if ltb (length bytes) 65536
    then ok (0x82 ∷ 126 ∷ length bytes / 256 ∷ length bytes % 256 ∷ bytes)
    else err overflow

-- `int.from_bytes(bytes, "big")`, behind the value of the bytes in front
unfoldable pub from_bytes : ℕ → List ℕ → ℕ
from_bytes value [] = value
from_bytes value (b ∷ bytes) = from_bytes (value * 256 + b) bytes

-- The payload's length and where the mask stands, or `none` when the buffer is too short for them.
unfoldable pub length_of : ℕ → List ℕ → Option (ℕ × ℕ)
unfolding from_bytes
length_of short buffer =
    if short == 126
    then (if ltb (length buffer) 4 then none else some (from_bytes 0 (take 2 (drop 2 buffer)), 4))
    else if short == 127
    then (if ltb (length buffer) 10 then none else some (from_bytes 0 (take 8 (drop 2 buffer)), 10))
    else some (short, 2)

-- `mask[i]`
unfoldable pub mask_at : List ℕ → ℕ → ℕ
mask_at [] i = 0
mask_at (m ∷ mask) zero = m
mask_at (m ∷ mask) (suc i) = mask_at mask i

-- `byte ^ mask[i % 4] for i, byte in enumerate(...)`, from `i` on
unfoldable pub unmask : List ℕ → ℕ → List ℕ → List ℕ
unfolding mask_at
unmask mask i [] = []
unmask mask i (byte ∷ bytes) = bit_xor byte (mask_at mask (i % 4)) ∷ unmask mask (i + 1) bytes

-- What a round of the loop finds in front of the buffer: too few bytes, a message that it refuses, or
-- a frame, with what is left.
pub data Cut : Type 0 where
  waits : Cut
  refused : Cut
  cut : ℕ → List ℕ → List ℕ → Cut

-- The round behind the length.
unfoldable pub cut_frame : ℕ → ℕ → List ℕ → Option (ℕ × ℕ) → Cut
unfolding unmask
cut_frame first second buffer none = waits
cut_frame first second buffer (some (size, offset)) =
    if not (second / 128 % 2 == 1) || ltb 8192 size
    then refused
    else if ltb (length buffer) (offset + 4 + size)
    then waits
    else cut (first % 16)
        (unmask (take 4 (drop offset buffer)) 0 (take size (drop (offset + 4) buffer)))
        (drop (offset + 4 + size) buffer)

unfoldable pub next_frame : List ℕ → Cut
unfolding length_of cut_frame
next_frame [] = waits
next_frame (first ∷ []) = waits
next_frame (first ∷ second ∷ rest) =
    cut_frame first second (first ∷ second ∷ rest)
      (length_of (second % 128) (first ∷ second ∷ rest))

-- The opcode and the payload.
abbrev pub Frame : Type 0
Frame = ℕ × List ℕ

abbrev pub Parsed : Type 0
Parsed = Result FrameError (List Frame × List ℕ)

-- A frame in front of what the later rounds return.
unfoldable pub then_frame : Frame → Parsed → Parsed
then_frame frame (ok (frames, rest)) = ok (frame ∷ frames, rest)
then_frame frame (err e) = err e

-- `while len(buffer) >= 2`; every round takes six bytes at least.
unfoldable pub parse_from : ℕ → List ℕ → Parsed
unfolding next_frame then_frame
parse_from zero buffer = ok ([], buffer)
parse_from (suc fuel) buffer = elim (next_frame buffer) [
  | waits ↦ ok ([], buffer)
  | refused ↦ err invalid_message
  | cut opcode payload rest ↦ then_frame (opcode, payload) (parse_from fuel rest)
]

-- `_ws_parse`: the frames, and the buffer as the call leaves it.
unfoldable pub ws_parse : List ℕ → Parsed
unfolding parse_from
ws_parse buffer = parse_from (length buffer) buffer
