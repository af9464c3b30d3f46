-- ===== src/Web/Frames/Parsed.antt =====
-- ubsim_lab/web.py: the loop of `_ws_parse`, its end, and its calls on a stream that comes in parts.
use openurma_gem5_lab.Prelude.{
  ℕ, zero, suc, ◌+◌, ◌≤◌, ◌<◌, ◌≡◌, refl, sym, ap, ◌∙◌, List, [], ◌∷◌, ◌++◌, nat_eq, length, arith,
}
use openurma_gem5_lab.Prelude.Result.{ok, err}
use openurma_gem5_lab.Web.Frames.{
  invalid_message, Cut, waits, refused, cut, next_frame, Frame, Parsed, then_frame, parse_from,
  ws_parse,
}
use openurma_gem5_lab.Web.Frames.Cuts.{extend, next_frame-append, next_frame-shorter}

-- What the body of the loop does with a cut, and then goes on by `next`.
unfoldable pub round : (List ℕ → Parsed) → List ℕ → Cut → Parsed
round next buffer waits = ok ([], buffer)
round next buffer refused = err invalid_message
round next buffer (cut opcode payload rest) = then_frame (opcode, payload) (next rest)

parse_from-round :
    (fuel : ℕ) (buffer : List ℕ)
    → parse_from (suc fuel) buffer ≡ round (parse_from fuel) buffer (next_frame buffer)
unfolding parse_from round
parse_from-round fuel buffer = split (next_frame buffer)
  where
    split :
        (c : Cut)
        → ◌≡◌ {A = Parsed}
            (elim c [
              | waits ↦ ok ([], buffer)
              | refused ↦ err invalid_message
              | cut opcode payload rest ↦ then_frame (opcode, payload) (parse_from fuel rest)
            ])
            (round (parse_from fuel) buffer c)
    split waits = refl
    split refused = refl
    split (cut opcode payload rest) = refl

round_enough :
    (f g : List ℕ → Parsed) (buffer : List ℕ) (c : Cut)
    → next_frame buffer ≡ c
    → ((rest : List ℕ) → length rest + 6 ≤ length buffer → f rest ≡ g rest)
    → round f buffer c ≡ round g buffer c
unfolding round
round_enough f g buffer waits e same = refl
round_enough f g buffer refused e same = refl
round_enough f g buffer (cut opcode payload rest) e same =
    ap (then_frame (opcode, payload)) (same rest (next_frame-shorter buffer opcode payload rest e))

parse_from-nil : (fuel : ℕ) → parse_from fuel [] ≡ ok ([], [])
unfolding parse_from next_frame
parse_from-nil zero = refl
parse_from-nil (suc fuel) = refl

-- As many rounds as bytes are enough.
parse_from-enough :
    (fuel more : ℕ) (buffer : List ℕ)
    → length buffer ≤ fuel
    → length buffer ≤ more
    → parse_from fuel buffer ≡ parse_from more buffer
parse_from-enough fuel more [] h k = parse_from-nil fuel ∙ sym (parse_from-nil more)
parse_from-enough zero more (b ∷ buffer) h k = absurd (omega (arith, h))
parse_from-enough (suc fuel) zero (b ∷ buffer) h k = absurd (omega (arith, k))
parse_from-enough (suc fuel) (suc more) (b ∷ buffer) h k =
    parse_from-round fuel (b ∷ buffer)
    ∙ round_enough (parse_from fuel) (parse_from more) (b ∷ buffer) (next_frame (b ∷ buffer)) refl
        (λ rest shorter. parse_from-enough fuel more rest (omega arith) (omega arith))
    ∙ sym (parse_from-round more (b ∷ buffer))

-- `_ws_parse` ends, and its rounds follow the loop: a call is its first round, which looks at the front
-- of the buffer, and then the call on what this round leaves.
pub ws_parse-round : (buffer : List ℕ) → ws_parse buffer ≡ round ws_parse buffer (next_frame buffer)
unfolding ws_parse
ws_parse-round buffer =
    parse_from-enough (length buffer) (suc (length buffer)) buffer (omega arith) (omega arith)
    ∙ parse_from-round (length buffer) buffer
    ∙ round_enough (parse_from (length buffer)) ws_parse buffer (next_frame buffer) refl
        (λ rest shorter.
          parse_from-enough (length buffer) (length rest) rest (omega arith) (omega arith))

-- The frames that an earlier part of the stream gave, in front of those of the later part.
unfoldable pub then_frames : List Frame → Parsed → Parsed
unfolding then_frame
then_frames [] parsed = parsed
then_frames (frame ∷ frames) parsed = then_frame frame (then_frames frames parsed)

-- The outcome of the whole stream, by that of its first part.
unfoldable pub resume : List ℕ → Parsed → Parsed
unfolding then_frames
resume more (ok (frames, rest)) = then_frames frames (ws_parse (rest ++ more))
resume more (err e) = err e

resume-then_frame :
    (more : List ℕ) (frame : Frame) (parsed : Parsed)
    → resume more (then_frame frame parsed) ≡ then_frame frame (resume more parsed)
unfolding resume then_frame then_frames
resume-then_frame more frame (ok (frames, rest)) = refl
resume-then_frame more frame (err e) = refl

resume-round :
    (n : ℕ) (buffer more : List ℕ) (c : Cut)
    → next_frame buffer ≡ c
    → ((rest : List ℕ)
        → length rest + 6 ≤ length buffer
        → ws_parse (rest ++ more) ≡ resume more (ws_parse rest))
    → ws_parse (buffer ++ more) ≡ resume more (round ws_parse buffer c)
unfolding round resume then_frames extend
resume-round n buffer more waits e ih = refl
resume-round n buffer more refused e ih =
    ws_parse-round (buffer ++ more)
    ∙ ap (round ws_parse (buffer ++ more))
        (next_frame-append buffer more (λ w. cc) ∙ ap (extend more) e)
resume-round n buffer more (cut opcode payload rest) e ih =
    ws_parse-round (buffer ++ more)
    ∙ ap (round ws_parse (buffer ++ more))
        (next_frame-append buffer more (λ w. cc) ∙ ap (extend more) e)
    ∙ ap (then_frame (opcode, payload)) (ih rest (next_frame-shorter buffer opcode payload rest e))
    ∙ sym (resume-then_frame more (opcode, payload) (ws_parse rest))

ws_parse-append_below :
    (n : ℕ) (buffer more : List ℕ)
    → length buffer < n
    → ws_parse (buffer ++ more) ≡ resume more (ws_parse buffer)
ws_parse-append_below zero buffer more h = absurd (omega (arith, h))
ws_parse-append_below (suc n) buffer more h =
    resume-round n buffer more (next_frame buffer) refl
      (λ rest shorter. ws_parse-append_below n rest more (omega (arith, h, shorter)))
    ∙ ap (resume more) (sym (ws_parse-round buffer))

-- The messages of a stream do not depend on how it is cut. If the first part is accepted, the call on
-- both parts gives its frames and then those of the call on what it left with the second part behind
-- it; if it is refused, both parts are.
pub ws_parse-append :
    (buffer more : List ℕ) → ws_parse (buffer ++ more) ≡ resume more (ws_parse buffer)
ws_parse-append buffer more = ws_parse-append_below (suc (length buffer)) buffer more (omega arith)
