-- ===== src/Web/Frames/Masked.antt =====
-- ubsim_lab/web.py: `_ws_parse` of the frames that a browser sends, as RFC 6455 lays them out.
use mathlib.Core.List.{append-nil, append_assoc}
use mathlib.Core.Path.{subst}
use openurma_gem5_lab.Prelude.{
  ℕ, ◌+◌, ◌*◌, ◌/◌, ◌%◌, ◌≤◌, ◌<◌, ◌≡◌, refl, ap, ◌∙◌, false, not, ◌||◌, List, [], ◌∷◌, ◌++◌, some,
  ◌==◌, nat_eq, ltb, length, length-append, map, Bool-cases, inl, inr, ltb→lt, take, drop, All,
  arith,
}
use openurma_gem5_lab.Prelude.Result.{ok}
use openurma_gem5_lab.Relay.Framing.{take-past, drop-past}
use openurma_gem5_lab.Web.Frames.{
  from_bytes, length_of, unmask, cut, cut_frame, next_frame, Frame, then_frame, parse_from,
  ws_parse,
}
use openurma_gem5_lab.Web.Frames.Parsed.{round, ws_parse-round}
use openurma_gem5_lab.Web.Frames.Client.{
  Mask, mask_bytes, Message, length_bytes, client_frame, client_stream, IsMessage, unmask_twice,
  masked, masked_lem, length-unmask,
}

-- A whole masked frame in front of the buffer.
cut_frame-whole :
    (first second offset size : ℕ) (front body rest : List ℕ) (mask : Mask)
    → second / 128 % 2 ≡ 1
    → size ≤ 8192
    → offset ≡ length front
    → size ≡ length body
    → cut_frame first second (((front ++ mask_bytes mask) ++ body) ++ rest) (some (size, offset))
      ≡ cut (first % 16) (unmask (mask_bytes mask) 0 body) rest
unfolding cut_frame
cut_frame-whole first second offset size front body rest mask bit small at_mask sized =
    let bytes = mask_bytes mask in
    let whole : length (((front ++ bytes) ++ body) ++ rest) ≡ offset + 4 + size + length rest =
      omega (
        arith,
        length-append ((front ++ bytes) ++ body) rest,
        length-append (front ++ bytes) body,
        length-append front bytes,
      ) in
    let accepted : (not (second / 128 % 2 == 1) || ltb 8192 size) ≡ false = ground arith in
    let there : ltb (length (((front ++ bytes) ++ body) ++ rest)) (offset + 4 + size) ≡ false =
      ground arith in
    let mask_there : take 4 (drop offset (((front ++ bytes) ++ body) ++ rest)) ≡ bytes =
      ap (λ l. take 4 (drop offset l))
        (append_assoc (front ++ bytes) body rest ∙ append_assoc front bytes (body ++ rest))
      ∙ ap (take 4) (drop-past offset 0 front (bytes ++ (body ++ rest)) (omega arith)) in
    let body_there : take size (drop (offset + 4) (((front ++ bytes) ++ body) ++ rest)) ≡ body =
      ap (λ l. take size (drop (offset + 4) l)) (append_assoc (front ++ bytes) body rest)
      ∙ ap (take size) (
          drop-past (offset + 4) 0 (front ++ bytes) (body ++ rest)
            (omega (arith, length-append front bytes)))
      ∙ take-past size 0 body rest (omega arith)
      ∙ append-nil body in
    let rest_there : drop (offset + 4 + size) (((front ++ bytes) ++ body) ++ rest) ≡ rest =
      drop-past (offset + 4 + size) 0 ((front ++ bytes) ++ body) rest
        (omega (arith, length-append (front ++ bytes) body, length-append front bytes)) in
    rw (accepted, there, mask_there, body_there, rest_there) refl

length_of-small : (n : ℕ) (buffer : List ℕ) → n < 126 → length_of n buffer ≡ some (n, 2)
unfolding length_of
length_of-small n buffer h = ground arith

length_of_middle :
    (first n : ℕ) (buffer : List ℕ)
    → length_of 126 (first ∷ 254 ∷ n / 256 ∷ n % 256 ∷ buffer) ≡ some (n, 4)
unfolding length_of from_bytes
length_of_middle first n buffer =
    let long : ltb (length (first ∷ 254 ∷ n / 256 ∷ n % 256 ∷ buffer)) 4 ≡ false = ground arith in
    let value : (0 * 256 + n / 256) * 256 + n % 256 ≡ n = omega arith in rw (long, value) refl

next_frame_small :
    (opcode : ℕ) (body rest : List ℕ) (mask : Mask)
    → length body < 126
    → next_frame ((((128 + opcode) ∷ (128 + length body) ∷ []) ++ mask_bytes mask) ++ body ++ rest)
      ≡ cut ((128 + opcode) % 16) (unmask (mask_bytes mask) 0 body) rest
unfolding next_frame
next_frame_small opcode body rest mask h =
    let n = length body in
    let buffer = (((128 + opcode) ∷ (128 + n) ∷ []) ++ mask_bytes mask) ++ body ++ rest in
    let low : (128 + n) % 128 ≡ n = omega (arith, h) in
    ap (cut_frame (128 + opcode) (128 + n) buffer)
      (ap (λ k. length_of k buffer) low ∙ length_of-small n buffer h)
    ∙ cut_frame-whole (128 + opcode) (128 + n) 2 n ((128 + opcode) ∷ (128 + n) ∷ []) body rest mask
        (omega (arith, h)) (omega (arith, h)) refl refl

next_frame_middle :
    (opcode : ℕ) (body rest : List ℕ) (mask : Mask)
    → length body ≤ 8192
    → next_frame (
        (((128 + opcode) ∷ 254 ∷ length body / 256 ∷ length body % 256 ∷ []) ++ mask_bytes mask)
        ++ body
        ++ rest)
      ≡ cut ((128 + opcode) % 16) (unmask (mask_bytes mask) 0 body) rest
unfolding next_frame
next_frame_middle opcode body rest mask h =
    let n = length body in
    let front = (128 + opcode) ∷ 254 ∷ n / 256 ∷ n % 256 ∷ [] in
    let buffer = (front ++ mask_bytes mask) ++ body ++ rest in
    ap (cut_frame (128 + opcode) 254 buffer)
      (length_of_middle (128 + opcode) n (mask_bytes mask ++ body ++ rest))
    ∙ cut_frame-whole (128 + opcode) 254 4 n front body rest mask refl h refl refl

next_frame-client_frame :
    (m : Message) (rest : List ℕ)
    → IsMessage m
    → next_frame (client_frame m ++ rest) ≡ cut m.opcode m.payload rest
unfolding client_frame length_bytes
next_frame-client_frame m rest h =
    let body = masked m.mask m.payload in
    let same : body ≡ unmask (mask_bytes m.mask) 0 m.payload = masked_lem m.mask 0 m.payload refl in
    let code : (128 + m.opcode) % 16 ≡ m.opcode = omega (arith, h.code) in
    let sized : length body ≡ length m.payload =
      ap length same ∙ length-unmask (mask_bytes m.mask) 0 m.payload in
    let clear : cut ((128 + m.opcode) % 16) (unmask (mask_bytes m.mask) 0 body) rest
        ≡ cut m.opcode m.payload rest =
      cc (
        code,
        ap (unmask (mask_bytes m.mask) 0) same
            ∙ unmask_twice (mask_bytes m.mask) 0 m.payload h.masked h.bytes,
      ) in
    elim (Bool-cases (ltb (length m.payload) 126)) [
      | inl small ↦ rw small (
          subst
            (λ n.
              next_frame
                ((((128 + m.opcode) ∷ (128 + n) ∷ []) ++ mask_bytes m.mask) ++ body ++ rest)
              ≡ cut m.opcode m.payload rest)
            sized
            (next_frame_small m.opcode body rest m.mask
                (omega (arith, sized, ltb→lt (length m.payload) 126 small))
              ∙ clear))
      | inr large ↦ rw large (
          subst
            (λ n.
              next_frame (
                (((128 + m.opcode) ∷ 254 ∷ n / 256 ∷ n % 256 ∷ []) ++ mask_bytes m.mask)
                ++ body
                ++ rest)
              ≡ cut m.opcode m.payload rest)
            sized
            (next_frame_middle m.opcode body rest m.mask (omega (arith, sized, h.size)) ∙ clear))
    ]

abbrev pub frame_of : Message → Frame
frame_of m = (m.opcode, m.payload)

ws_parse_nil : ws_parse [] ≡ ok ([], [])
unfolding ws_parse parse_from
ws_parse_nil = refl

-- Messages of at most 8192 bytes, framed and masked as a browser does it (the octets of the mask in
-- turn, over and over), are what `_ws_parse` reads of their bytes, and it leaves the buffer empty.
pub ws_parse-client_stream :
    (messages : List Message)
    → All IsMessage messages
    → ws_parse (client_stream messages) ≡ ok (map frame_of messages, [])
unfolding client_stream round then_frame
ws_parse-client_stream [] h = ws_parse_nil
ws_parse-client_stream (m ∷ messages) (good, rest) =
    ws_parse-round (client_frame m ++ client_stream messages)
    ∙ ap (round ws_parse (client_frame m ++ client_stream messages))
        (next_frame-client_frame m (client_stream messages) good)
    ∙ ap (then_frame (frame_of m)) (ws_parse-client_stream messages rest)
