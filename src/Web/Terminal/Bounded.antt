-- ===== src/Web/Terminal/Bounded.antt =====
-- ubsim_lab/web.py: the limits of `_terminal_socket`.
use openurma_gem5_lab.Prelude.{
  ℕ, suc, ◌/◌, ◌%◌, ◌≤◌, ◌≡◌, ◌≢◌, refl, ap, ◌∙◌, inl, inr, true, false, List, [], ◌∷◌, ◌++◌,
  Option, some, none, nat_eq, ltb, length, length-append, All, arith, Bool-cases,
}
use openurma_gem5_lab.Prelude.Result.{ok, err}
use openurma_gem5_lab.Web.Frames.{
  FrameError, overflow, waits, next_frame, Parsed, ws_parse, ws_frame,
}
use openurma_gem5_lab.Web.Frames.Waits.{next_frame-waits, ws_parse-waits, ws_parse-ne-overflow}
use openurma_gem5_lab.Web.Terminal.{
  Terminal, Left, open_still, peer_gone, flooded, closed, failed, Readable, on_guest, after_parse,
  on_browser, go_on, terminal_round, terminal_loop, relay_frames, opened,
}

-- `recv(4096)` returns 4096 bytes at most; no bytes say that the peer is gone.
abbrev pub IsReceived : ℕ → Option (List ℕ) → Type 0
IsReceived low none = Unit
IsReceived low (some bytes) = (low ≤ length bytes) × (length bytes ≤ 4096)

abbrev pub AreReceived : ℕ → Readable → Type 0
AreReceived low r = IsReceived low r.guest × IsReceived low r.browser

-- Neither limit is met, and the buffer holds an incomplete frame and one more part at most.
pub record IsBounded (p : Left × Terminal) : Type 0 where
  pub unflooded : p.0 ≢ flooded
  pub unframed : p.0 ≢ failed overflow
  pub short : length p.1.pending ≤ 12301

pub record IsKept (p : Left × Terminal) : Type 0 where
  pub bounded : IsBounded p
  pub waiting : p.0 ≡ open_still → next_frame p.1.pending ≡ waits

pub ws_frame-ok :
    (bytes : List ℕ) → length bytes ≤ 4096 → (frame : List ℕ) × (ws_frame bytes ≡ ok frame)
unfolding ws_frame
ws_frame-ok bytes h = elim (Bool-cases (ltb (length bytes) 126)) [
  | inl small ↦ (0x82 ∷ length bytes ∷ bytes, rw small refl)
  | inr large ↦
      let below : ltb (length bytes) 65536 ≡ true = ground arith in
      (0x82 ∷ 126 ∷ length bytes / 256 ∷ length bytes % 256 ∷ bytes, rw (large, below) refl)
]

-- The terminal as it was, but for what has been sent.
IsKept-as :
    (left : Left) (t : Terminal)
    → left ≢ flooded
    → left ≢ failed overflow
    → next_frame t.pending ≡ waits
    → IsKept (left, t)
IsKept-as left t a b w = record {
  bounded = record {
    unflooded = a;
    unframed = b;
    short = omega (arith, next_frame-waits t.pending w);
  };
  waiting = λ _. w;
}

pub on_guest-IsKept :
    (t : Terminal) (data' : Option (List ℕ))
    → next_frame t.pending ≡ waits
    → IsReceived 0 data'
    → IsKept (on_guest t data')
unfolding on_guest
on_guest-IsKept t none w h = IsKept-as open_still t (λ e. cc) (λ e. cc) w
on_guest-IsKept t (some []) w h = IsKept-as peer_gone t (λ e. cc) (λ e. cc) w
on_guest-IsKept t (some (b ∷ bytes)) w h =
    let (frame, framed) = ws_frame-ok (b ∷ bytes) h.1 in
    rw (framed, on_guest)
      (IsKept-as open_still (record t { to_browser = t.to_browser ++ frame ∷ [] }) (λ e. cc)
        (λ e. cc) w)

after_parse-IsKept :
    (t : Terminal) (pending : List ℕ) (parsed : Parsed)
    → ws_parse pending ≡ parsed
    → length pending ≤ 12301
    → IsKept (after_parse t pending parsed)
unfolding after_parse
after_parse-IsKept t pending (err e) p h = record {
  bounded = record {
    unflooded = λ k. cc;
    unframed = λ k.
        ws_parse-ne-overflow (suc (length pending)) pending (omega arith)
          (p ∙ ap err (failed-injective e overflow k));
    short = h;
  };
  waiting = λ k. cc;
}
  where
    failed-injective : (a b : FrameError) → failed a ≡ failed b → a ≡ b
    failed-injective a b k = cc
after_parse-IsKept t pending (ok (frames, rest)) p h = elim (Bool-cases (relay_frames frames).1) [
  | inl over ↦ rw over (
      IsKept-as closed
        (record t { pending = rest; to_guest = t.to_guest ++ (relay_frames frames).0 }) (λ e. cc)
        (λ e. cc) (ws_parse-waits pending frames rest p))
  | inr more ↦ rw more (
      IsKept-as open_still
        (record t { pending = rest; to_guest = t.to_guest ++ (relay_frames frames).0 }) (λ e. cc)
        (λ e. cc) (ws_parse-waits pending frames rest p))
]

-- Bytes behind an incomplete frame stay within the limit of 16384.
pub unflooded :
    (pending more : List ℕ)
    → next_frame pending ≡ waits
    → length more ≤ 4096
    → (length (pending ++ more) ≤ 12301) × (ltb 16384 (length (pending ++ more)) ≡ false)
unflooded pending more w h =
    let small = next_frame-waits pending w in
    let both : length (pending ++ more) ≤ 12301 =
      omega (arith, length-append pending more, small, h) in
    (both, ground arith)

on_browser-IsKept :
    (t : Terminal) (data' : Option (List ℕ))
    → next_frame t.pending ≡ waits
    → IsReceived 0 data'
    → IsKept (on_browser t data')
unfolding on_browser
on_browser-IsKept t none w h = IsKept-as open_still t (λ e. cc) (λ e. cc) w
on_browser-IsKept t (some []) w h = IsKept-as peer_gone t (λ e. cc) (λ e. cc) w
on_browser-IsKept t (some (b ∷ bytes)) w h =
    let (small, below) = unflooded t.pending (b ∷ bytes) w h.1 in
    rw below
      (after_parse-IsKept t (t.pending ++ b ∷ bytes) (ws_parse (t.pending ++ b ∷ bytes)) refl small)

go_on-IsKept :
    (p : Left × Terminal) (next : Terminal → Left × Terminal)
    → IsKept p
    → ((t : Terminal) → next_frame t.pending ≡ waits → IsKept (next t))
    → IsKept (go_on p next)
unfolding go_on
go_on-IsKept (open_still, t) next k h = h t (k.waiting refl)
go_on-IsKept (peer_gone, t) next k h = k
go_on-IsKept (flooded, t) next k h = k
go_on-IsKept (closed, t) next k h = k
go_on-IsKept (failed e, t) next k h = k

terminal_loop-IsKept :
    (t : Terminal) (rounds : List Readable)
    → next_frame t.pending ≡ waits
    → All (AreReceived 0) rounds
    → IsKept (terminal_loop t rounds)
unfolding terminal_loop terminal_round
terminal_loop-IsKept t [] w h = IsKept-as open_still t (λ e. cc) (λ e. cc) w
terminal_loop-IsKept t (r ∷ rounds) w (received, later) =
    go_on-IsKept (go_on (on_guest t r.guest) (λ next. on_browser next r.browser))
      (λ next. terminal_loop next rounds)
      (go_on-IsKept (on_guest t r.guest) (λ next. on_browser next r.browser)
        (on_guest-IsKept t r.guest w received.0)
        (λ next waiting. on_browser-IsKept next r.browser waiting received.1))
      (λ next waiting. terminal_loop-IsKept next rounds waiting later)

-- With parts of at most 4096 bytes, the loop is never left because of its limit of 16384 bytes, nor by an
-- `OverflowError` of a frame for the browser, and at most 12301 bytes are pending.
pub terminal_loop-IsBounded :
    (rounds : List Readable) → All (AreReceived 0) rounds → IsBounded (terminal_loop opened rounds)
unfolding next_frame
terminal_loop-IsBounded rounds received = (terminal_loop-IsKept opened rounds refl received).bounded
