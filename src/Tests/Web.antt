-- ===== src/Tests/Web.antt =====
-- ubsim_lab/web.py: a greeting typed in the browser, and two handlers of the workbench.
use openurma_gem5_lab.Prelude.{
  ℕ, ◌≡◌, refl, true, false, List, [], ◌∷◌, ◌++◌, map, some, none, nat_eq, string_eq, pair_eq,
  arith,
}
use openurma_gem5_lab.Prelude.Result.{ok, err}
use openurma_gem5_lab.Prelude.Text.{codes}
use openurma_gem5_lab.Web.Frames.{
  invalid_message, ws_frame, from_bytes, length_of, mask_at, unmask, cut_frame, next_frame,
  then_frame, parse_from, ws_parse,
}
use openurma_gem5_lab.Web.Frames.Parsed.{round, resume, ws_parse-round, ws_parse-append}
use openurma_gem5_lab.Web.Frames.Masked.{frame_of, ws_parse-client_stream}
use openurma_gem5_lab.Web.Frames.Client.{
  Message, IsMessage, length_bytes, masked, client_frame, client_stream,
}
use openurma_gem5_lab.Web.Terminal.{Readable, opened, terminal_loop}
use openurma_gem5_lab.Web.Terminal.Bounded.{IsBounded, terminal_loop-IsBounded}
use openurma_gem5_lab.Web.Terminal.Delivered.{
  received, browser_bytes, IsDelivered, terminal_loop-delivers,
}
use openurma_gem5_lab.Web.Workbench.{
  Workbench, running, finished, is_running, start_job, ended, open_terminal, start, wait, connect,
  Reach, here, there,
}
use openurma_gem5_lab.Web.Workbench.Exclusive.{IsExclusive, Reach-IsExclusive}

abbrev greeting : Message
greeting = record {
  opcode = 2;
  payload = codes "ls";
  mask = record { first = 1; second = 2; third = 3; fourth = 255 };
}

greeting-IsMessage : IsMessage greeting
greeting-IsMessage = record {
  code = omega arith;
  size = omega arith;
  bytes = (omega arith, (omega arith, tt));
  masked = (omega arith, (omega arith, (omega arith, (omega arith, tt))));
}

abbrev greeting_bytes : List ℕ
greeting_bytes = 130 ∷ 130 ∷ 1 ∷ 2 ∷ 3 ∷ 255 ∷ 109 ∷ 113 ∷ []

greeting_framed : client_stream (greeting ∷ []) ≡ greeting_bytes
unfolding client_stream client_frame length_bytes masked
greeting_framed = refl

ws_parse-client_stream_example :
    ws_parse (client_stream (greeting ∷ greeting ∷ []))
    ≡ ok (map frame_of (greeting ∷ greeting ∷ []), [])
ws_parse-client_stream_example =
    ws_parse-client_stream (greeting ∷ greeting ∷ []) (greeting-IsMessage, (greeting-IsMessage, tt))

ws_parse-round_example :
    ws_parse greeting_bytes ≡ round ws_parse greeting_bytes (next_frame greeting_bytes)
ws_parse-round_example = ws_parse-round greeting_bytes

ws_parse-append_example :
    ws_parse ((130 ∷ 130 ∷ 1 ∷ []) ++ greeting_bytes)
    ≡ resume greeting_bytes (ws_parse (130 ∷ 130 ∷ 1 ∷ []))
ws_parse-append_example = ws_parse-append (130 ∷ 130 ∷ 1 ∷ []) greeting_bytes

-- The greeting in two parts, with an answer of the guest between them.
abbrev two_parts : List Readable
two_parts =
    record { guest = none; browser = some (130 ∷ 130 ∷ 1 ∷ []) }
    ∷ record { guest = some (codes "$"); browser = some (2 ∷ 3 ∷ 255 ∷ 109 ∷ 113 ∷ []) }
    ∷ []

two_parts_parsed : ws_parse (browser_bytes two_parts) ≡ ok ((2, codes "ls") ∷ [], [])
unfolding ws_parse parse_from next_frame length_of from_bytes cut_frame unmask mask_at then_frame
    browser_bytes received
two_parts_parsed = refl

terminal_loop-IsBounded_example : IsBounded (terminal_loop opened two_parts)
terminal_loop-IsBounded_example = terminal_loop-IsBounded two_parts (
  (tt, (omega arith, omega arith)),
  (((omega arith, omega arith), (omega arith, omega arith)), tt),
)

terminal_loop-delivers_example :
    IsDelivered [] ((2, codes "ls") ∷ []) (terminal_loop opened two_parts)
terminal_loop-delivers_example =
    terminal_loop-delivers two_parts ((2, codes "ls") ∷ []) []
      (
        (tt, (omega arith, omega arith)),
        (((omega arith, omega arith), (omega arith, omega arith)), tt),
      )
      two_parts_parsed

unmasked_refused : ws_parse (130 ∷ 2 ∷ 108 ∷ 115 ∷ []) ≡ err invalid_message
unfolding ws_parse parse_from next_frame length_of cut_frame
unmasked_refused = refl

answer_framed : ws_frame (codes "$") ≡ ok (0x82 ∷ 1 ∷ codes "$")
unfolding ws_frame
answer_framed = refl

-- One job that has ended, one that runs, and a connected terminal.
abbrev busy : Workbench
busy = record {
  jobs = running ∷ finished ∷ [];
  terminal_owners = ("gem5", 1) ∷ [];
  sessions = ("gem5", 1) ∷ [];
}

busy_reached : Reach busy
unfolding start_job is_running open_terminal ended
busy_reached =
    there
      (there (there (there here (start false true _ refl)) (wait [] [] true refl))
        (start false true _ refl))
      (connect ("gem5", 1) _ refl)

Reach-IsExclusive_example : IsExclusive busy
Reach-IsExclusive_example = Reach-IsExclusive busy busy_reached
