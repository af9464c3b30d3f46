-- ===== src/Relay/Framing.antt =====
-- tools/ethernet_relay.py: `recv_exact` and the framing, however the stream is cut into chunks.
use openurma_gem5_lab.Prelude.{
  ℕ, zero, suc, ◌+◌, ◌-◌, ◌≤◌, ◌<◌, ◌≡◌, refl, sym, ap, ◌∙◌, true, false, List, [], ◌∷◌, ◌++◌,
  nat_eq, ltb, if◌then◌else◌, length, length-append, take, drop, arith, Bool-cases, inl, inr,
}
use mathlib.Core.List.{append-nil, append_assoc}
use openurma_gem5_lab.Prelude.Result.{Result, ok, err}
use openurma_gem5_lab.Relay.{Stream, RelayError, peer_closed, is_nil, receive_more}

-- A prefix of known length, taken and dropped.
pub take-past : (n k : ℕ) (xs ys : List ℕ) → n ≡ length xs + k → take n (xs ++ ys) ≡ xs ++ take k ys
take-past n k [] ys h = ap (λ m. take m ys) (omega arith)
take-past zero k (x ∷ xs) ys h = absurd (omega (arith, h))
take-past (suc n) k (x ∷ xs) ys h = ap (λ r. x ∷ r) (take-past n k xs ys (omega arith))

pub drop-past : (n k : ℕ) (xs ys : List ℕ) → n ≡ length xs + k → drop n (xs ++ ys) ≡ drop k ys
drop-past n k [] ys h = ap (λ m. drop m ys) (omega arith)
drop-past zero k (x ∷ xs) ys h = absurd (omega (arith, h))
drop-past (suc n) k (x ∷ xs) ys h = drop-past n k xs ys (omega arith)

length-some : (xs : List ℕ) → is_nil xs ≡ false → 1 ≤ length xs
unfolding is_nil
length-some [] h = cc
length-some (x ∷ xs) h = omega arith

nil_of : (xs : List ℕ) → is_nil xs ≡ true → xs ≡ []
unfolding is_nil
nil_of [] h = refl
nil_of (x ∷ xs) h = cc

module _ {S : Type 0} (socket : Stream S) where
  receive_more-done :
      (fuel size : ℕ) (data' : List ℕ) (s : S)
      → size ≤ length data'
      → receive_more socket fuel size data' s ≡ ok (data', s)
  unfolding receive_more
  receive_more-done zero size data' s h = refl
  receive_more-done (suc fuel) size data' s h =
      let full : ltb (length data') size ≡ false = ground arith in rw full refl

  receive_more-round :
      (fuel size m : ℕ) (data' : List ℕ) (s : S)
      → size ≡ length data' + suc m
      → receive_more socket (suc fuel) size data' s ≡ (
          if is_nil (socket.recv (suc m) s).0
          then err peer_closed
          else receive_more socket fuel size
              (data' ++ (socket.recv (suc m) s).0)
              (socket.recv (suc m) s).1)
  unfolding receive_more
  receive_more-round fuel size m data' s e =
      let need : size - length data' ≡ suc m = omega arith in
      let below : ltb (length data') size ≡ true = ground arith in rw (below, need) refl

  -- The loop returns the bytes it has and the next `n` that the peer delivers.
  pub record IsWhole (n : ℕ) (data' : List ℕ) (s : S) (r : Result RelayError (List ℕ × S))
      : Type 0 where
    pub rest : S
    pub result : r ≡ ok (data' ++ take n (socket.pending s), rest)
    pub left : socket.pending rest ≡ drop n (socket.pending s)

  -- A round that got some bytes.
  after_chunk :
      (m : ℕ) (data' : List ℕ) (s : S) (r : Result RelayError (List ℕ × S))
      → IsWhole
          (suc m - length (socket.recv (suc m) s).0)
          (data' ++ (socket.recv (suc m) s).0)
          (socket.recv (suc m) s).1
          r
      → IsWhole (suc m) data' s r
  after_chunk m data' s r w =
      let chunk = (socket.recv (suc m) s).0 in
      let s' = (socket.recv (suc m) s).1 in
      let k : ℕ = suc m - length chunk in
      let split : suc m ≡ length chunk + k = omega (arith, socket.recv-at_most (suc m) s) in
      let whole : take (suc m) (socket.pending s) ≡ chunk ++ take k (socket.pending s') =
        ap (take (suc m)) (socket.recv-pending (suc m) s)
        ∙ take-past (suc m) k chunk (socket.pending s') split in
      record {
        rest = w.rest;
        result =
            w.result
            ∙ ap (λ d. ok (d, w.rest))
                (append_assoc data' chunk (take k (socket.pending s'))
                  ∙ ap (λ d. data' ++ d) (sym whole));
        left =
            w.left
            ∙ sym (
                ap (drop (suc m)) (socket.recv-pending (suc m) s)
                ∙ drop-past (suc m) k chunk (socket.pending s') split);
      }

  pub receive_more-IsWhole :
      (fuel size n : ℕ) (data' : List ℕ) (s : S)
      → size ≡ length data' + n
      → n ≤ fuel
      → n ≤ length (socket.pending s)
      → IsWhole n data' s (receive_more socket fuel size data' s)
  receive_more-IsWhole fuel size zero data' s e enough there = record {
    rest = s;
    result =
        receive_more-done fuel size data' s (omega arith)
        ∙ ap (λ d. ok (d, s)) (sym (append-nil data'));
    left = refl;
  }
  receive_more-IsWhole zero size (suc m) data' s e enough there = absurd (omega (arith, enough))
  receive_more-IsWhole (suc fuel) size (suc m) data' s e enough there =
      let chunk = (socket.recv (suc m) s).0 in
      let s' = (socket.recv (suc m) s).1 in
      let all_pending : length (socket.pending s) ≡ length chunk + length (socket.pending s') =
        ap length (socket.recv-pending (suc m) s) ∙ length-append chunk (socket.pending s') in
      let at_most = socket.recv-at_most (suc m) s in
      elim (Bool-cases (is_nil chunk)) [
        | inl closed ↦
            let none_left : length (socket.pending s) ≡ 0 =
              ap length (socket.recv-closed (suc m) s (omega arith) (nil_of chunk closed)) in
            absurd (omega (arith, none_left, there))
        | inr more ↦
            let some_bytes : 1 ≤ length chunk = length-some chunk more in
            rw (receive_more-round fuel size m data' s e, more)
              (after_chunk m data' s (receive_more socket fuel size (data' ++ chunk) s') (
                receive_more-IsWhole fuel size (suc m - length chunk) (data' ++ chunk) s'
                  (omega (arith, length-append data' chunk, e, at_most))
                  (omega (arith, enough, some_bytes)) (omega (arith, all_pending, there, at_most))))
      ]

  -- Fewer bytes than asked for: the end of the stream is reached.
  pub receive_more-short :
      (fuel size n : ℕ) (data' : List ℕ) (s : S)
      → size ≡ length data' + n
      → n ≤ fuel
      → length (socket.pending s) < n
      → receive_more socket fuel size data' s ≡ err peer_closed
  receive_more-short fuel size zero data' s e enough short = absurd (omega (arith, short))
  receive_more-short zero size (suc m) data' s e enough short = absurd (omega (arith, enough))
  receive_more-short (suc fuel) size (suc m) data' s e enough short =
      let chunk = (socket.recv (suc m) s).0 in
      let s' = (socket.recv (suc m) s).1 in
      let all_pending : length (socket.pending s) ≡ length chunk + length (socket.pending s') =
        ap length (socket.recv-pending (suc m) s) ∙ length-append chunk (socket.pending s') in
      elim (Bool-cases (is_nil chunk)) [
        | inl closed ↦ rw (receive_more-round fuel size m data' s e, closed) refl
        | inr more ↦
            let some_bytes : 1 ≤ length chunk = length-some chunk more in
            rw (receive_more-round fuel size m data' s e, more)
              (receive_more-short fuel size (suc m - length chunk) (data' ++ chunk) s'
                (omega (arith, length-append data' chunk, e, socket.recv-at_most (suc m) s))
                (omega (arith, enough, some_bytes)) (omega (arith, all_pending, short, some_bytes)))
      ]
