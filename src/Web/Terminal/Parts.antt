-- ===== src/Web/Terminal/Parts.antt =====
-- ubsim_lab/web.py: the frames of a stream in two parts.
use openurma_gem5_lab.Prelude.{
  ℕ, ◌≡◌, refl, sym, ap, ◌∙◌, inl, inr, Bool, true, false, ◌||◌, List, [], ◌∷◌, ◌++◌, ◌==◌, nat_eq,
  Bool-cases,
}
use openurma_gem5_lab.Prelude.Result.{ok, err}
use openurma_gem5_lab.Web.Frames.{Frame, Parsed, then_frame}
use openurma_gem5_lab.Web.Frames.Parsed.{then_frames}
use openurma_gem5_lab.Web.Terminal.{relay_frames}

-- The payloads of two parts; a close frame in the first ends both.
pub follow : List (List ℕ) × Bool → List (List ℕ) × Bool → List (List ℕ) × Bool
follow (sent, true) later = (sent, true)
follow (sent, false) later = (sent ++ later.0, later.1)

follow-cons :
    (payload : List ℕ) (front back : List (List ℕ) × Bool)
    → (payload ∷ (follow front back).0, (follow front back).1)
      ≡ follow (payload ∷ front.0, front.1) back
unfolding follow
follow-cons payload (sent, true) back = refl
follow-cons payload (sent, false) back = refl

pub relay_frames-append :
    (front back : List Frame)
    → relay_frames (front ++ back) ≡ follow (relay_frames front) (relay_frames back)
unfolding relay_frames follow
relay_frames-append [] back = refl
relay_frames-append ((opcode, payload) ∷ front) back = elim (Bool-cases (opcode == 8)) [
  | inl close ↦ rw close refl
  | inr other ↦ elim (Bool-cases (opcode == 1 || opcode == 2)) [
    | inl text ↦
        rw (other, text)
          (ap (λ p. (payload ∷ p.0, p.1)) (relay_frames-append front back)
            ∙ follow-cons payload (relay_frames front) (relay_frames back))
    | inr control ↦ rw (other, control) (relay_frames-append front back)
  ]
]

pub follow-closed : (p q : List (List ℕ) × Bool) → p.1 ≡ true → follow p q ≡ p
unfolding follow
follow-closed (sent, true) q h = refl
follow-closed (sent, false) q h = cc

pub follow-open : (p q : List (List ℕ) × Bool) → p.1 ≡ false → follow p q ≡ (p.0 ++ q.0, q.1)
unfolding follow
follow-open (sent, true) q h = cc
follow-open (sent, false) q h = refl

abbrev IsSplit : List Frame → Parsed → List Frame → List ℕ → Type 0
IsSplit front parsed frames rest =
    (back : List Frame) × (parsed ≡ ok (back, rest)) × (frames ≡ front ++ back)

then_frame-IsSplit :
    (f : Frame) (front : List Frame) (parsed : Parsed) (frames : List Frame) (rest : List ℕ)
    (p : Parsed)
    → ((more : List Frame) → p ≡ ok (more, rest) → IsSplit front parsed more rest)
    → then_frame f p ≡ ok (frames, rest)
    → IsSplit (f ∷ front) parsed frames rest
unfolding then_frame
then_frame-IsSplit f front parsed frames rest (ok (more, left)) ih k =
    let ends : left ≡ rest = cc in
    let (back, found, whole) = ih more (ap (λ l. ok (more, l)) ends) in
    let first : f ∷ more ≡ frames = cc in (back, found, sym first ∙ ap (λ l. f ∷ l) whole)
then_frame-IsSplit f front parsed frames rest (err e) ih k = cc

pub then_frames-IsSplit :
    (front : List Frame) (parsed : Parsed) (frames : List Frame) (rest : List ℕ)
    → then_frames front parsed ≡ ok (frames, rest)
    → IsSplit front parsed frames rest
unfolding then_frames
then_frames-IsSplit [] parsed frames rest h = (frames, h, refl)
then_frames-IsSplit (f ∷ front) parsed frames rest h =
    then_frame-IsSplit f front parsed frames rest (then_frames front parsed)
      (λ more. then_frames-IsSplit front parsed more rest) h
