-- ===== src/Web/Terminal.antt =====
-- ubsim_lab/web.py: the loop of `_terminal_socket` between a browser and the guest's UART.
pub mod Parts
pub mod Bounded
pub mod Delivered
use openurma_gem5_lab.Prelude.{
  ℕ, ◌+◌, Bool, true, false, ◌||◌, List, [], ◌∷◌, ◌++◌, Option, some, none, ◌==◌, nat_eq, ltb,
  if◌then◌else◌, length,
}
use openurma_gem5_lab.Prelude.Result.{ok, err}
use openurma_gem5_lab.Web.Frames.{FrameError, Frame, Parsed, ws_frame, ws_parse}

-- `pending`, and what has been sent so far: payloads to the guest, frames to the browser.
pub record Terminal : Type 0 where
  pub pending : List ℕ
  pub to_guest : List (List ℕ)
  pub to_browser : List (List ℕ)

-- Why the loop is left, or that it is not. An `OSError` of a socket would leave it too.
pub data Left : Type 0 where
  open_still : Left
  peer_gone : Left
  flooded : Left
  closed : Left
  failed : FrameError → Left

-- What `select` reports as readable, each with what its `recv(4096)` returns.
pub record Readable : Type 0 where
  pub guest : Option (List ℕ)
  pub browser : Option (List ℕ)

abbrev pub opened : Terminal
opened = record { pending = []; to_guest = []; to_browser = [] }

-- `for opcode, payload in ...`: the payloads that are sent to the guest, and whether it returns.
unfoldable pub relay_frames : List Frame → List (List ℕ) × Bool
relay_frames [] = ([], false)
relay_frames ((opcode, payload) ∷ frames) =
    let later = relay_frames frames in
    if opcode == 8
    then ([], true)
    else if opcode == 1 || opcode == 2
    then (payload ∷ later.0, later.1)
    else later

-- `if guest in readable`
unfoldable pub on_guest : Terminal → Option (List ℕ) → Left × Terminal
on_guest t none = (open_still, t)
on_guest t (some []) = (peer_gone, t)
on_guest t (some (b ∷ bytes)) = elim (ws_frame (b ∷ bytes)) [
  | err e ↦ (failed e, t)
  | ok frame ↦ (open_still, record t { to_browser = t.to_browser ++ frame ∷ [] })
]

-- Behind `_ws_parse`. After an exception the buffer is not read again; it is kept as it came.
unfoldable pub after_parse : Terminal → List ℕ → Parsed → Left × Terminal
unfolding relay_frames
after_parse t pending (err e) = (failed e, record t { pending = pending })
after_parse t pending (ok (frames, rest)) = (
  if (relay_frames frames).1 then closed else open_still,
  record t { pending = rest; to_guest = t.to_guest ++ (relay_frames frames).0 },
)

-- `if self.connection in readable`
unfoldable pub on_browser : Terminal → Option (List ℕ) → Left × Terminal
unfolding after_parse
on_browser t none = (open_still, t)
on_browser t (some []) = (peer_gone, t)
on_browser t (some (b ∷ bytes)) =
    let pending = t.pending ++ b ∷ bytes in
    if ltb 16384 (length pending)
    then (flooded, record t { pending = pending })
    else after_parse t pending (ws_parse pending)

-- `break` and `return` leave the loop; an exception does too.
unfoldable pub go_on : Left × Terminal → (Terminal → Left × Terminal) → Left × Terminal
go_on (open_still, t) next = next t
go_on (left, t) next = (left, t)

unfoldable pub terminal_round : Terminal → Readable → Left × Terminal
unfolding on_guest on_browser go_on
terminal_round t r = go_on (on_guest t r.guest) (λ next. on_browser next r.browser)

-- `while True`, over the rounds in which something is readable
unfoldable pub terminal_loop : Terminal → List Readable → Left × Terminal
unfolding terminal_round go_on
terminal_loop t [] = (open_still, t)
terminal_loop t (r ∷ rounds) = go_on (terminal_round t r) (λ next. terminal_loop next rounds)
