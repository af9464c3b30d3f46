-- ===== src/Web/Terminal/Delivered.antt =====
-- ubsim_lab/web.py: what the guest receives of the browser's bytes, however they come in parts.
use openurma_gem5_lab.Prelude.{
  ℕ, ◌≡◌, refl, sym, ap, ◌∙◌, inl, inr, true, false, List, [], ◌∷◌, ◌++◌, Option, some, none,
  nat_eq, if◌then◌else◌, All, arith, Bool-cases,
}
use mathlib.Core.List.{append-nil, append_assoc}
use openurma_gem5_lab.Prelude.Result.{ok, err}
use openurma_gem5_lab.Web.Frames.{waits, next_frame, Frame, Parsed, ws_parse}
use openurma_gem5_lab.Web.Frames.Parsed.{round, ws_parse-round, resume, ws_parse-append}
use openurma_gem5_lab.Web.Frames.Waits.{ws_parse-waits}
use openurma_gem5_lab.Web.Terminal.{
  Terminal, opened, Left, open_still, peer_gone, flooded, closed, failed, Readable, on_guest,
  after_parse, on_browser, go_on, terminal_round, terminal_loop, relay_frames,
}
use openurma_gem5_lab.Web.Terminal.Bounded.{IsReceived, AreReceived, ws_frame-ok, unflooded}
use openurma_gem5_lab.Web.Terminal.Parts.{
  relay_frames-append, follow-closed, follow-open, then_frames-IsSplit,
}

-- The bytes of the browser, of all rounds.
unfoldable pub received : Option (List ℕ) → List ℕ
received none = []
received (some bytes) = bytes

unfoldable pub browser_bytes : List Readable → List ℕ
unfolding received
browser_bytes [] = []
browser_bytes (r ∷ rounds) = received r.browser ++ browser_bytes rounds

-- The loop has sent the payloads behind those that were sent, and is left by a close frame alone.
pub record IsDelivered (sent : List (List ℕ)) (frames : List Frame) (p : Left × Terminal)
    : Type 0 where
  pub payloads : p.1.to_guest ≡ sent ++ (relay_frames frames).0
  pub left_by : p.0 ≡ (if (relay_frames frames).1 then closed else open_still)

-- The loop goes on with a terminal that has the front of the stream.
abbrev GoesOn : List ℕ → List ℕ → (Terminal → Left × Terminal) → Type 0
GoesOn later rest next =
    (t : Terminal) (frames : List Frame)
    → next_frame t.pending ≡ waits
    → ws_parse (t.pending ++ later) ≡ ok (frames, rest)
    → IsDelivered t.to_guest frames (next t)

IsDelivered-closed :
    (front back : List Frame) (sent : List (List ℕ)) (t : Terminal)
    → (relay_frames front).1 ≡ true
    → t.to_guest ≡ sent ++ (relay_frames front).0
    → IsDelivered sent (front ++ back) (closed, t)
IsDelivered-closed front back sent t over same =
    let both : relay_frames (front ++ back) ≡ relay_frames front =
      relay_frames-append front back
      ∙ follow-closed (relay_frames front) (relay_frames back) over in
    record { payloads = same ∙ ap (λ p. sent ++ p.0) (sym both); left_by = rw (both, over) refl }

IsDelivered-open :
    (front back : List Frame) (sent : List (List ℕ)) (p : Left × Terminal)
    → (relay_frames front).1 ≡ false
    → IsDelivered (sent ++ (relay_frames front).0) back p
    → IsDelivered sent (front ++ back) p
IsDelivered-open front back sent p more d =
    let both : relay_frames (front ++ back)
        ≡ ((relay_frames front).0 ++ (relay_frames back).0, (relay_frames back).1) =
      relay_frames-append front back ∙ follow-open (relay_frames front) (relay_frames back) more in
    record {
      payloads =
          d.payloads
          ∙ append_assoc sent (relay_frames front).0 (relay_frames back).0
          ∙ ap (λ q. sent ++ q.0) (sym both);
      left_by = d.left_by ∙ ap (λ q. if q.1 then closed else open_still) (sym both);
    }

after_parse-delivers :
    (t : Terminal) (pending later rest : List ℕ) (frames : List Frame) (parsed : Parsed)
    (next : Terminal → Left × Terminal)
    → ws_parse pending ≡ parsed
    → resume later parsed ≡ ok (frames, rest)
    → GoesOn later rest next
    → IsDelivered t.to_guest frames (go_on (after_parse t pending parsed) next)
unfolding after_parse go_on resume
after_parse-delivers t pending later rest frames (err e) next parsed whole onward = cc
after_parse-delivers t pending later rest frames (ok (front, left)) next parsed whole onward =
    let (back, found, parts) =
      then_frames-IsSplit front (ws_parse (left ++ later)) frames rest whole in
    let t' : Terminal = record t {
      pending = left;
      to_guest = t.to_guest ++ (relay_frames front).0;
    } in
    rw parts (elim (Bool-cases (relay_frames front).1) [
      | inl over ↦ rw over (IsDelivered-closed front back t.to_guest t' over refl)
      | inr more ↦ rw more (
          IsDelivered-open front back t.to_guest (next t') more
            (onward t' back (ws_parse-waits pending front left parsed) found))
    ])

-- A terminal that has had bytes of the guest since.
record IsSame (t : Terminal) (p : Left × Terminal) : Type 0 where
  goes_on : p.0 ≡ open_still
  pending : p.1.pending ≡ t.pending
  to_guest : p.1.to_guest ≡ t.to_guest

on_guest-IsSame :
    (t : Terminal) (data' : Option (List ℕ)) → IsReceived 1 data' → IsSame t (on_guest t data')
unfolding on_guest
on_guest-IsSame t none h = record { goes_on = refl; pending = refl; to_guest = refl }
on_guest-IsSame t (some []) h = absurd (omega (arith, h.0))
on_guest-IsSame t (some (b ∷ bytes)) h =
    let (frame, framed) = ws_frame-ok (b ∷ bytes) h.1 in
    rw (framed, on_guest) (record { goes_on = refl; pending = refl; to_guest = refl })

on_browser-delivers :
    (t : Terminal) (data' : Option (List ℕ)) (later rest : List ℕ) (frames : List Frame)
    (next : Terminal → Left × Terminal)
    → IsReceived 1 data'
    → next_frame t.pending ≡ waits
    → ws_parse (t.pending ++ (received data' ++ later)) ≡ ok (frames, rest)
    → GoesOn later rest next
    → IsDelivered t.to_guest frames (go_on (on_browser t data') next)
unfolding on_browser received go_on
on_browser-delivers t none later rest frames next h w whole onward = onward t frames w whole
on_browser-delivers t (some []) later rest frames next h w whole onward =
    absurd (omega (arith, h.0))
on_browser-delivers t (some (b ∷ bytes)) later rest frames next h w whole onward =
    let pending = t.pending ++ b ∷ bytes in
    let (_, below) = unflooded t.pending (b ∷ bytes) w h.1 in
    rw below (
      after_parse-delivers t pending later rest frames (ws_parse pending) next refl
        (sym (ws_parse-append pending later)
          ∙ ap ws_parse (append_assoc t.pending (b ∷ bytes) later)
          ∙ whole)
        onward)

go_on-same :
    (t : Terminal) (p : Left × Terminal) (frames : List Frame) (f next : Terminal → Left × Terminal)
    → IsSame t p
    → ((t' : Terminal)
        → t'.pending ≡ t.pending
        → IsDelivered t'.to_guest frames (go_on (f t') next))
    → IsDelivered t.to_guest frames (go_on (go_on p f) next)
unfolding go_on
go_on-same t (open_still, t') frames f next same k = rw (← same.to_guest) (k t' same.pending)
go_on-same t (peer_gone, t') frames f next same k = cc (same.goes_on)
go_on-same t (flooded, t') frames f next same k = cc (same.goes_on)
go_on-same t (closed, t') frames f next same k = cc (same.goes_on)
go_on-same t (failed e, t') frames f next same k = cc (same.goes_on)

terminal_loop-GoesOn :
    (rounds : List Readable) (rest : List ℕ)
    → All (AreReceived 1) rounds
    → GoesOn (browser_bytes rounds) rest (λ t. terminal_loop t rounds)
unfolding terminal_loop terminal_round browser_bytes round relay_frames
terminal_loop-GoesOn [] rest h t frames w whole =
    let none : ◌≡◌ {A = Parsed} (ok ([], t.pending)) (ok (frames, rest)) =
      sym (ws_parse-round t.pending ∙ ap (round ws_parse t.pending) w)
      ∙ ap ws_parse (sym (append-nil t.pending))
      ∙ whole in
    let empty : [] ≡ frames = cc in
    rw (← empty) (record { payloads = sym (append-nil t.to_guest); left_by = refl })
terminal_loop-GoesOn (r ∷ rounds) rest (now, later) t frames w whole =
    go_on-same t (on_guest t r.guest) frames (λ t'. on_browser t' r.browser)
      (λ t'. terminal_loop t' rounds) (on_guest-IsSame t r.guest now.0)
      (λ t' same.
        on_browser-delivers t' r.browser (browser_bytes rounds) rest frames
          (λ t''. terminal_loop t'' rounds) now.1 (ap next_frame same ∙ w)
          (ap (λ p. ws_parse (p ++ (received r.browser ++ browser_bytes rounds))) same ∙ whole)
          (terminal_loop-GoesOn rounds rest later))

-- If the browser's bytes, of all rounds together, are a stream of frames and perhaps the beginning of
-- one more, then the guest receives the payloads of its text and binary frames in order, up to a close
-- frame, however the bytes come in parts of 1 to 4096; only a close frame ends the loop.
pub terminal_loop-delivers :
    (rounds : List Readable) (frames : List Frame) (rest : List ℕ)
    → All (AreReceived 1) rounds
    → ws_parse (browser_bytes rounds) ≡ ok (frames, rest)
    → IsDelivered [] frames (terminal_loop opened rounds)
unfolding next_frame
terminal_loop-delivers rounds frames rest received whole =
    terminal_loop-GoesOn rounds rest received opened frames refl whole
