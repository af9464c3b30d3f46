-- ===== src/Relay/Frames.antt =====
-- tools/ethernet_relay.py: the frames that a thread reads from the bytes of its peer.
use openurma_gem5_lab.Prelude.{
  ℕ, ◌/◌, ◌%◌, ◌≤◌, ◌<◌, ◌≡◌, refl, ap, ◌∙◌, true, false, ◌||◌, List, [], ◌∷◌, ◌++◌, ltb, length,
  length-append, take, drop, arith, zero, suc, inl, inr, Bool-cases, ◌⊎◌, sym,
}
use mathlib.Core.List.{append-nil}
use openurma_gem5_lab.Prelude.Result.{
  ok, err, ◌>>=◌, Ensures, Ensures-bind, Ensures-ok, Ensures-raise_if, Result,
}
use openurma_gem5_lab.Relay.{
  RelayError, Stream, peer_closed, invalid_length, max_frame, unpack, recv_exact, read_frame,
}
use openurma_gem5_lab.Relay.Framing.{receive_more-IsWhole, receive_more-short, take-past, drop-past}

-- The header that stands for a length: four bytes, the highest first.
abbrev pub pack : ℕ → List ℕ
pack n = n / 16777216 ∷ n / 65536 % 256 ∷ n / 256 % 256 ∷ n % 256 ∷ []

unpack-pack : (n : ℕ) → unpack (pack n) ≡ n
unfolding unpack
unpack-pack n = omega arith

take-all : (xs ys : List ℕ) → take (length xs) (xs ++ ys) ≡ xs
take-all xs ys = take-past (length xs) 0 xs ys (omega arith) ∙ append-nil xs

drop-all : (xs ys : List ℕ) → drop (length xs) (xs ++ ys) ≡ ys
drop-all xs ys = drop-past (length xs) 0 xs ys (omega arith)

length-take : (n : ℕ) (xs : List ℕ) → n ≤ length xs → length (take n xs) ≡ n
length-take zero xs h = refl
length-take (suc n) [] h = absurd (omega (arith, h))
length-take (suc n) (x ∷ xs) h = ap suc (length-take n xs (omega arith))

take-append-drop : (n : ℕ) (xs : List ℕ) → take n xs ++ drop n xs ≡ xs
take-append-drop zero xs = refl
take-append-drop (suc n) [] = refl
take-append-drop (suc n) (x ∷ xs) = ap (λ r. x ∷ r) (take-append-drop n xs)

module _ {S : Type 0} (socket : Stream S) where
  -- If the peer delivers `xs` and then `ys`, `recv_exact` of as many bytes as `xs` has returns `xs`
  -- and leaves `ys`, however `recv` cuts the bytes into chunks.
  pub recv_exact-whole :
      (s : S) (xs ys : List ℕ)
      → socket.pending s ≡ xs ++ ys
      → (s' : S) × (recv_exact socket (length xs) s ≡ ok (xs, s')) × (socket.pending s' ≡ ys)
  unfolding recv_exact
  recv_exact-whole s xs ys e =
      let n = length xs in
      let there : n ≤ length (socket.pending s) = omega (arith, ap length e, length-append xs ys) in
      let w = receive_more-IsWhole socket n n n [] s (omega arith) (omega arith) there in
      (
        w.rest,
        w.result ∙ ap (λ d. ok (d, w.rest)) (ap (take n) e ∙ take-all xs ys),
        w.left ∙ ap (drop n) e ∙ drop-all xs ys,
      )

  -- If the peer delivers fewer bytes than `recv_exact` is asked for, it raises `EOFError`.
  pub recv_exact-short :
      (s : S) (size : ℕ)
      → length (socket.pending s) < size
      → recv_exact socket size s ≡ err peer_closed
  unfolding recv_exact
  recv_exact-short s size short =
      receive_more-short socket size size size [] s (omega arith) (omega arith) short

  -- If the peer delivers a header and a frame of the length in it, 14 to 65536 bytes, a round reads
  -- exactly that frame and leaves what follows, however `recv` cuts the bytes into chunks.
  pub read_frame-pack :
      (s : S) (frame rest : List ℕ)
      → 14 ≤ length frame
      → length frame ≤ max_frame
      → socket.pending s ≡ pack (length frame) ++ (frame ++ rest)
      → (s' : S) × (read_frame socket s ≡ ok (pack (length frame), frame, s'))
        × (socket.pending s' ≡ rest)
  unfolding read_frame ◌>>=◌
  read_frame-pack s frame rest low high e =
      let n = length frame in
      let (s1, header, left1) = recv_exact-whole s (pack n) (frame ++ rest) e in
      let (s2, body, left2) = recv_exact-whole s1 frame rest left1 in
      let valid : (ltb n 14 || ltb max_frame n) ≡ false = ground arith in
      (s2, rw (header, unpack-pack n, valid, body) refl, left2)

  -- If the length in the header is below 14 or above 65536, a round raises `ValueError` for it and
  -- reads no frame.
  pub read_frame-invalid :
      (s : S) (n : ℕ) (more : List ℕ)
      → (n < 14) ⊎ (max_frame < n)
      → socket.pending s ≡ pack n ++ more
      → read_frame socket s ≡ err (invalid_length n)
  unfolding read_frame ◌>>=◌
  read_frame-invalid s n more bad e =
      let (s', header, left) = recv_exact-whole s (pack n) more e in
      let wrong : (ltb n 14 || ltb max_frame n) ≡ true = ground arith in
      rw (header, unpack-pack n, wrong) refl

  -- If the length in the header is 14 to 65536 and the peer closes before it has delivered as many
  -- bytes, a round raises `EOFError`.
  pub read_frame-truncated :
      (s : S) (n : ℕ) (part : List ℕ)
      → 14 ≤ n
      → n ≤ max_frame
      → length part < n
      → socket.pending s ≡ pack n ++ part
      → read_frame socket s ≡ err peer_closed
  unfolding read_frame ◌>>=◌
  read_frame-truncated s n part low high short e =
      let (s', header, left) = recv_exact-whole s (pack n) part e in
      let valid : (ltb n 14 || ltb max_frame n) ≡ false = ground arith in
      let body = recv_exact-short s' n (omega (arith, ap length left, short)) in
      rw (header, unpack-pack n, valid, body) refl

  recv_exact_sound :
      (s : S) (size : ℕ) (data' : List ℕ) (s' : S)
      → recv_exact socket size s ≡ ok (data', s')
      → (length data' ≡ size) × (socket.pending s ≡ data' ++ socket.pending s')
  unfolding recv_exact
  recv_exact_sound s size data' s' h = elim (Bool-cases (ltb (length (socket.pending s)) size)) [
    | inl short ↦
        let closed : ◌≡◌ {A = Result RelayError (List ℕ × S)} (ok (data', s')) (err peer_closed) =
          sym h ∙ recv_exact-short s size (ground arith) in
        absurd (cc)
    | inr enough ↦
        let there : size ≤ length (socket.pending s) = ground arith in
        let w = receive_more-IsWhole socket size size size [] s (omega arith) (omega arith) there in
        let same : ◌≡◌ {A = Result RelayError (List ℕ × S)} (ok (data', s'))
            (ok (take size (socket.pending s), w.rest)) =
          sym h ∙ w.result in
        let bytes : data' ≡ take size (socket.pending s) = cc in
        let rest : s' ≡ w.rest = cc in
        (
          ap length bytes ∙ length-take size (socket.pending s) there,
          sym (
              ap (λ d. d ++ socket.pending s') bytes
              ∙ ap (λ d. take size (socket.pending s) ++ d) (ap socket.pending rest ∙ w.left)
              ∙ take-append-drop size (socket.pending s)),
        )
  ]

  -- What a round has read: a header, a frame of the length in it, and what the peer still delivers.
  pub record IsRead (s : S) (header frame : List ℕ) (s' : S) : Type 0 where
    pub four : length header ≡ 4
    pub length_given : unpack header ≡ length frame
    pub low : 14 ≤ length frame
    pub high : length frame ≤ max_frame
    pub stream : socket.pending s ≡ header ++ (frame ++ socket.pending s')

  read_frame-IsRead_of : (s : S) → Ensures (λ r. IsRead s r.0 r.1 r.2) (read_frame socket s)
  unfolding read_frame
  read_frame-IsRead_of s = Ensures-bind _ _ λ header got. Ensures-raise_if _ _ _ λ valid.
      Ensures-bind _ _ λ frame more.
        let (four, one) = recv_exact_sound s 4 header.0 header.1 got in
        let (size, two) = recv_exact_sound header.1 (unpack header.0) frame.0 frame.1 more in
        Ensures-ok _ (record {
          four = four;
          length_given = sym size;
          low = ground arith;
          high = ground arith;
          stream = one ∙ ap (λ d. header.0 ++ d) two;
        })

  -- If a round reads a frame, its header has four bytes and says the frame's length, which is 14 to
  -- 65536, and header and frame are the first bytes that the peer delivers; none is lost.
  pub read_frame-IsRead :
      (s : S) (header frame : List ℕ) (s' : S)
      → read_frame socket s ≡ ok (header, frame, s')
      → IsRead s header frame s'
  read_frame-IsRead s header frame s' h = (read_frame-IsRead_of s).holds (header, frame, s') h
