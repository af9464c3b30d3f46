-- ===== src/Web/Frames/Cuts.antt =====
-- ubsim_lab/web.py: `_ws_parse` of a buffer that is received in parts.
use openurma_gem5_lab.Prelude.{
  ℕ, zero, suc, ◌+◌, ◌/◌, ◌%◌, ◌≤◌, ◌≡◌, ◌≢◌, refl, sym, ap, ◌∙◌, inl, inr, false, not, ◌||◌, List,
  [], ◌∷◌, ◌++◌, Option, some, none, ◌==◌, nat_eq, ltb, if◌then◌else◌, length, length-append, take,
  drop, arith, Bool-cases, Option-cases,
}
use openurma_gem5_lab.Web.Frames.{
  from_bytes, length_of, Cut, waits, refused, cut, cut_frame, next_frame,
}

-- A prefix or a suffix within the first of two parts.
pub take-append-le : (n : ℕ) (xs ys : List ℕ) → n ≤ length xs → take n (xs ++ ys) ≡ take n xs
take-append-le zero xs ys h = refl
take-append-le (suc n) [] ys h = absurd (omega (arith, h))
take-append-le (suc n) (x ∷ xs) ys h = ap (λ r. x ∷ r) (take-append-le n xs ys (omega arith))

pub drop-append-le : (n : ℕ) (xs ys : List ℕ) → n ≤ length xs → drop n (xs ++ ys) ≡ drop n xs ++ ys
drop-append-le zero xs ys h = refl
drop-append-le (suc n) [] ys h = absurd (omega (arith, h))
drop-append-le (suc n) (x ∷ xs) ys h = drop-append-le n xs ys (omega arith)

pub length-drop : (n : ℕ) (xs : List ℕ) → n ≤ length xs → length (drop n xs) + n ≡ length xs
length-drop zero xs h = omega arith
length-drop (suc n) [] h = absurd (omega (arith, h))
length-drop (suc n) (x ∷ xs) h = omega (arith, length-drop n xs (omega arith))

-- A window within the first of two parts.
window-append :
    (n k : ℕ) (xs ys : List ℕ) → n + k ≤ length xs → take k (drop n (xs ++ ys)) ≡ take k (drop n xs)
window-append n k xs ys h =
    ap (take k) (drop-append-le n xs ys (omega arith))
    ∙ take-append-le k (drop n xs) ys (omega (arith, length-drop n xs (omega arith)))

still_long :
    (n : ℕ) (xs ys : List ℕ) → ltb (length xs) n ≡ false → ltb (length (xs ++ ys)) n ≡ false
still_long n xs ys h = ground (arith, length-append xs ys)

-- A length behind the first two bytes, in `k` bytes.
long_length : ℕ → List ℕ → Option (ℕ × ℕ)
long_length k buffer =
    if ltb (length buffer) (2 + k)
    then none
    else some (from_bytes 0 (take k (drop 2 buffer)), 2 + k)

long_length-append :
    (k : ℕ) (buffer more : List ℕ) (found : ℕ × ℕ)
    → long_length k buffer ≡ some found
    → long_length k (buffer ++ more) ≡ some found
unfolding long_length
long_length-append k buffer more found h = elim (Bool-cases (ltb (length buffer) (2 + k))) [
  | inl short ↦ cc (rw short at h)
  | inr long ↦
      rw (still_long (2 + k) buffer more long, window-append 2 k buffer more (ground arith))
        (rw long at h)
]

length_of-append :
    (short : ℕ) (buffer more : List ℕ) (found : ℕ × ℕ)
    → length_of short buffer ≡ some found
    → length_of short (buffer ++ more) ≡ some found
unfolding length_of long_length
length_of-append short buffer more found h = elim (Bool-cases (short == 126)) [
  | inl middle ↦ rw middle (long_length-append 2 buffer more found (rw middle at h))
  | inr other ↦ elim (Bool-cases (short == 127)) [
    | inl large ↦
        rw (other, large) (long_length-append 8 buffer more found (rw (other, large) at h))
    | inr small ↦ rw (other, small) (rw (other, small) at h)
  ]
]

-- More bytes behind what a round leaves.
unfoldable pub extend : List ℕ → Cut → Cut
extend more waits = waits
extend more refused = refused
extend more (cut opcode payload rest) = cut opcode payload (rest ++ more)

cut_frame-append :
    (first second : ℕ) (buffer more : List ℕ) (found : Option (ℕ × ℕ))
    → cut_frame first second buffer found ≢ waits
    → cut_frame first second (buffer ++ more) found
      ≡ extend more (cut_frame first second buffer found)
unfolding cut_frame extend
cut_frame-append first second buffer more none h = absurd (h refl)
cut_frame-append first second buffer more (some (size, offset)) h =
    elim (Bool-cases (not (second / 128 % 2 == 1) || ltb 8192 size)) [
      | inl bad ↦ rw bad refl
      | inr good ↦ elim (Bool-cases (ltb (length buffer) (offset + 4 + size))) [
        | inl short ↦ absurd (h (rw (good, short) refl))
        | inr whole ↦
            let enough : offset + 4 + size ≤ length buffer = ground arith in
            rw
              (
                good,
                whole,
                still_long (offset + 4 + size) buffer more whole,
                window-append offset 4 buffer more (omega arith),
                window-append (offset + 4) size buffer more (omega arith),
                drop-append-le (offset + 4 + size) buffer more enough,
              )
              refl
      ]
    ]

option_ne : {A : Type 0} (o : Option A) → o ≢ none → (a : A) × (o ≡ some a)
option_ne none h = absurd (h refl)
option_ne (some a) h = (a, refl)

-- A round that does not wait finds the same in front of more bytes.
pub next_frame-append :
    (buffer more : List ℕ)
    → next_frame buffer ≢ waits
    → next_frame (buffer ++ more) ≡ extend more (next_frame buffer)
unfolding next_frame
next_frame-append [] more h = absurd (h refl)
next_frame-append (first ∷ []) more h = absurd (h refl)
next_frame-append (first ∷ second ∷ rest) more h =
    let buffer = first ∷ second ∷ rest in
    elim (Option-cases (length_of (second % 128) buffer)) [
      | inl short ↦ absurd (h (rw (short, cut_frame) refl))
      | inr (found, e) ↦
          ap (cut_frame first second (buffer ++ more))
            (length_of-append (second % 128) buffer more found e ∙ sym e)
          ∙ cut_frame-append first second buffer more (length_of (second % 128) buffer) h
    ]

-- What a cut takes: the header and the mask are six bytes at least.
cut_frame-shorter :
    (first second : ℕ) (buffer : List ℕ) (size offset opcode : ℕ) (payload rest : List ℕ)
    → 2 ≤ offset
    → cut_frame first second buffer (some (size, offset)) ≡ cut opcode payload rest
    → length rest + 6 ≤ length buffer
unfolding cut_frame
cut_frame-shorter first second buffer size offset opcode payload rest two h =
    elim (Bool-cases (not (second / 128 % 2 == 1) || ltb 8192 size)) [
      | inl bad ↦ cc (rw bad at h)
      | inr good ↦ elim (Bool-cases (ltb (length buffer) (offset + 4 + size))) [
        | inl short ↦ cc (rw (good, short) at h)
        | inr whole ↦
            let enough : offset + 4 + size ≤ length buffer = ground arith in
            let left : rest ≡ drop (offset + 4 + size) buffer = cc (rw (good, whole) at h) in
            omega (arith, length-drop (offset + 4 + size) buffer enough, ap length left)
      ]
    ]

pub length_of-offset :
    (short : ℕ) (buffer : List ℕ) (size offset : ℕ)
    → length_of short buffer ≡ some (size, offset)
    → 2 ≤ offset
unfolding length_of
length_of-offset short buffer size offset h = ground arith

pub next_frame-shorter :
    (buffer : List ℕ) (opcode : ℕ) (payload rest : List ℕ)
    → next_frame buffer ≡ cut opcode payload rest
    → length rest + 6 ≤ length buffer
unfolding next_frame
next_frame-shorter [] opcode payload rest h = cc
next_frame-shorter (first ∷ []) opcode payload rest h = cc
next_frame-shorter (first ∷ second ∷ more) opcode payload rest h =
    let buffer = first ∷ second ∷ more in
    elim (Option-cases (length_of (second % 128) buffer)) [
      | inl short ↦ cc (rw (short, cut_frame) at h)
      | inr ((size, offset), e) ↦
          cut_frame-shorter first second buffer size offset opcode payload rest
            (length_of-offset (second % 128) buffer size offset e)
            (ap (cut_frame first second buffer) (sym e) ∙ h)
    ]
