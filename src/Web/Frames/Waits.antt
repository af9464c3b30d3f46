-- ===== src/Web/Frames/Waits.antt =====
-- ubsim_lab/web.py: what `_ws_parse` leaves in the buffer.
use openurma_gem5_lab.Prelude.{
  ℕ, zero, suc, ◌+◌, ◌/◌, ◌%◌, ◌≤◌, ◌<◌, ◌≡◌, ◌≢◌, refl, sym, ap, ◌∙◌, inl, inr, not, ◌||◌, List,
  [], ◌∷◌, some, none, ◌==◌, nat_eq, ltb, length, arith, Bool-cases, Option-cases,
}
use openurma_gem5_lab.Prelude.Result.{ok, err}
use openurma_gem5_lab.Web.Frames.{
  overflow, length_of, Cut, waits, refused, cut, cut_frame, next_frame, Frame, Parsed, then_frame,
  ws_parse,
}
use openurma_gem5_lab.Web.Frames.Cuts.{next_frame-shorter}
use openurma_gem5_lab.Web.Frames.Parsed.{round, ws_parse-round}

-- An incomplete frame: a header of 10 bytes, a mask of 4 and a payload of 8192, less a byte.
abbrev pub most_pending : ℕ
most_pending = 8205

length_of-short :
    (short : ℕ) (buffer : List ℕ) → length_of short buffer ≡ none → length buffer ≤ most_pending
unfolding length_of
length_of-short short buffer h = ground arith

length_of-most :
    (short : ℕ) (buffer : List ℕ) (size offset : ℕ)
    → length_of short buffer ≡ some (size, offset)
    → offset ≤ 10
unfolding length_of
length_of-most short buffer size offset h = ground arith

cut_frame-waits :
    (first second : ℕ) (buffer : List ℕ) (size offset : ℕ)
    → offset ≤ 10
    → cut_frame first second buffer (some (size, offset)) ≡ waits
    → length buffer ≤ most_pending
unfolding cut_frame
cut_frame-waits first second buffer size offset small h =
    elim (Bool-cases (not (second / 128 % 2 == 1) || ltb 8192 size)) [
      | inl bad ↦ cc (rw bad at h)
      | inr good ↦ elim (Bool-cases (ltb (length buffer) (offset + 4 + size))) [
        | inl short ↦ ground arith
        | inr whole ↦ cc (rw (good, whole) at h)
      ]
    ]

-- A buffer whose front is no frame yet is short.
pub next_frame-waits : (buffer : List ℕ) → next_frame buffer ≡ waits → length buffer ≤ most_pending
unfolding next_frame
next_frame-waits [] h = omega arith
next_frame-waits (first ∷ []) h = omega arith
next_frame-waits (first ∷ second ∷ rest) h =
    let buffer = first ∷ second ∷ rest in
    elim (Option-cases (length_of (second % 128) buffer)) [
      | inl short ↦ length_of-short (second % 128) buffer short
      | inr ((size, offset), e) ↦
          cut_frame-waits first second buffer size offset
            (length_of-most (second % 128) buffer size offset e)
            (ap (cut_frame first second buffer) (sym e) ∙ h)
    ]

then_frame-ok :
    (frame : Frame) (parsed : Parsed) (frames : List Frame) (rest : List ℕ)
    → then_frame frame parsed ≡ ok (frames, rest)
    → (later : List Frame) × (parsed ≡ ok (later, rest))
unfolding then_frame
then_frame-ok frame (ok (later, left)) frames rest h = (later, cc)
then_frame-ok frame (err e) frames rest h = cc

ws_parse-waits_round :
    (buffer : List ℕ) (c : Cut) (frames : List Frame) (rest : List ℕ)
    → next_frame buffer ≡ c
    → ((left : List ℕ)
        → length left + 6 ≤ length buffer
        → (later : List Frame) → ws_parse left ≡ ok (later, rest)
        → next_frame rest ≡ waits)
    → round ws_parse buffer c ≡ ok (frames, rest)
    → next_frame rest ≡ waits
unfolding round
ws_parse-waits_round buffer waits frames rest e ih h =
    let same : buffer ≡ rest = cc in ap next_frame (sym same) ∙ e
ws_parse-waits_round buffer refused frames rest e ih h = cc
ws_parse-waits_round buffer (cut opcode payload left) frames rest e ih h =
    let (later, p) = then_frame-ok (opcode, payload) (ws_parse left) frames rest h in
    ih left (next_frame-shorter buffer opcode payload left e) later p

ws_parse-waits_below :
    (n : ℕ) (buffer : List ℕ) (frames : List Frame) (rest : List ℕ)
    → length buffer < n
    → ws_parse buffer ≡ ok (frames, rest)
    → next_frame rest ≡ waits
ws_parse-waits_below zero buffer frames rest h p = absurd (omega (arith, h))
ws_parse-waits_below (suc n) buffer frames rest h p =
    ws_parse-waits_round buffer (next_frame buffer) frames rest refl
      (λ left shorter later q. ws_parse-waits_below n left later rest (omega (arith, h, shorter)) q)
      (sym (ws_parse-round buffer) ∙ p)

-- What a call leaves in the buffer begins with no whole frame.
pub ws_parse-waits :
    (buffer : List ℕ) (frames : List Frame) (rest : List ℕ)
    → ws_parse buffer ≡ ok (frames, rest)
    → next_frame rest ≡ waits
ws_parse-waits buffer frames rest p =
    ws_parse-waits_below (suc (length buffer)) buffer frames rest (omega arith) p

ws_parse-ne-overflow_round :
    (buffer : List ℕ) (c : Cut)
    → next_frame buffer ≡ c
    → ((left : List ℕ) → length left + 6 ≤ length buffer → ws_parse left ≢ err overflow)
    → round ws_parse buffer c ≢ err overflow
unfolding round then_frame
ws_parse-ne-overflow_round buffer waits e ih h = cc
ws_parse-ne-overflow_round buffer refused e ih h = cc
ws_parse-ne-overflow_round buffer (cut opcode payload left) e ih h =
    later (ws_parse left) (ih left (next_frame-shorter buffer opcode payload left e)) h
  where
    later : (p : Parsed) → p ≢ err overflow → then_frame (opcode, payload) p ≢ err overflow
    later (ok found) other k = cc
    later (err e') other k = other k

pub ws_parse-ne-overflow :
    (n : ℕ) (buffer : List ℕ) → length buffer < n → ws_parse buffer ≢ err overflow
ws_parse-ne-overflow zero buffer h p = absurd (omega (arith, h))
ws_parse-ne-overflow (suc n) buffer h p =
    ws_parse-ne-overflow_round buffer (next_frame buffer) refl
      (λ left shorter. ws_parse-ne-overflow n left (omega (arith, h, shorter)))
      (sym (ws_parse-round buffer) ∙ p)
