-- ===== src/Relay/Delivery.antt =====
-- tools/ethernet_relay.py: what the threads together deliver, in any order of their steps.
use openurma_gem5_lab.Prelude.{
  ℕ, ◌≤◌, ◌<◌, ◌≡◌, ◌≢◌, refl, true, List, [], ◌∷◌, ◌++◌, ◌==◌, nat_eq, list_eq, contains, length,
  All, All-append, Bool-cases, inl, inr, arith,
}
use openurma_gem5_lab.Prelude.Dict.{lookup}
use openurma_gem5_lab.Prelude.Result.{ok}
use mathlib.Core.Path.{subst}
use openurma_gem5_lab.Relay.{Stream, read_frame, learn, destinations, unpack, max_frame}
use openurma_gem5_lab.Relay.Frames.{read_frame-IsRead}
use openurma_gem5_lab.Relay.Switching.{IsBounded, learn-IsBounded, destinations_iff}
use openurma_gem5_lab.Relay.Threads.{
  Packet, State, set_at, start, packets, after_read, after_send, after_end, Step, read, send,
  fail_read, fail_socket, leave, Reach, here, there,
}

-- A header of four bytes and a frame of the length that it says.
pub record IsFramed (bytes : List ℕ) : Type 0 where
  pub header : List ℕ
  pub frame : List ℕ
  pub parts : bytes ≡ header ++ frame
  pub four : length header ≡ 4
  pub length_given : unpack header ≡ length frame
  pub low : 14 ≤ length frame
  pub high : length frame ≤ max_frame

-- A whole frame, for another port of the relay than it came from.
pub record IsDelivery (count : ℕ) (p : Packet) : Type 0 where
  pub inside : p.destination < count
  pub elsewhere : p.destination ≢ p.source
  pub framed : IsFramed p.bytes

record IsSafe {S : Type 0} (count : ℕ) (r : State S) : Type 0 where
  bounded : IsBounded count r.mac_table
  queued : (i : ℕ) → All (IsDelivery count) (r.sending i)
  delivered : All (IsDelivery count) r.sent

All-set_at :
    {A : Type 0} (P : A → Type 0) (f : ℕ → List A) (i : ℕ) (xs : List A)
    → All P xs
    → ((j : ℕ) → All P (f j))
    → (j : ℕ) → All P (set_at i xs f j)
unfolding set_at
All-set_at P f i xs new old j = elim (Bool-cases (i == j)) [
  | inl same ↦ rw same new
  | inr other ↦ rw other (old j)
]

packets-IsDelivery :
    (count source : ℕ) (bytes : List ℕ) (ports : List ℕ)
    → IsFramed bytes
    → ((k : ℕ) → contains ports k ≡ true → (k < count) × (k ≢ source))
    → All (IsDelivery count) (packets source bytes ports)
unfolding packets
packets-IsDelivery count source bytes [] framed good = tt
packets-IsDelivery count source bytes (port ∷ rest) framed good =
    let (inside, elsewhere) = good port (ground arith) in
    (
      record { inside = inside; elsewhere = elsewhere; framed = framed },
      packets-IsDelivery count source bytes rest framed (λ k m. good k (ground arith)),
    )

module _ {S : Type 0} (socket : Stream S) (count : ℕ) where
  read-IsSafe :
      (r : State S) (i : ℕ) (header frame : List ℕ) (s' : S)
      → i < count
      → read_frame socket (r.sockets i) ≡ ok (header, frame, s')
      → IsSafe count r
      → IsSafe count (after_read count i header frame s' r)
  unfolding after_read
  read-IsSafe r i header frame s' inside got v =
      let q = read_frame-IsRead socket (r.sockets i) header frame s' got in
      let table = learn i frame r.mac_table in
      let bounded : IsBounded count table =
        learn-IsBounded count i frame r.mac_table inside v.bounded in
      let framed : IsFramed (header ++ frame) = record {
        header = header;
        frame = frame;
        parts = refl;
        four = q.four;
        length_given = q.length_given;
        low = q.low;
        high = q.high;
      } in
      record {
        bounded = bounded;
        queued =
            All-set_at (IsDelivery count) r.sending i
              (packets i (header ++ frame) (destinations count i frame table))
              (packets-IsDelivery count i (header ++ frame) (destinations count i frame table)
                framed
                (λ k m.
                  let (within, elsewhere, _) =
                    (destinations_iff count i frame table k bounded).0 m in
                  (within, elsewhere)))
              v.queued;
        delivered = v.delivered;
      }

  send-IsSafe :
      (r : State S) (i : ℕ) (p : Packet) (rest : List Packet)
      → r.sending i ≡ p ∷ rest
      → IsSafe count r
      → IsSafe count (after_send i p rest r)
  unfolding after_send
  send-IsSafe r i p rest e v =
      let all_queued : All (IsDelivery count) (p ∷ rest) =
        subst (All (IsDelivery count)) e (v.queued i) in
      record {
        bounded = v.bounded;
        queued = All-set_at (IsDelivery count) r.sending i rest all_queued.1 v.queued;
        delivered = All-append (IsDelivery count) r.sent (p ∷ []) v.delivered (all_queued.0, tt);
      }

  end-IsSafe : (r : State S) (i : ℕ) → IsSafe count r → IsSafe count (after_end i r)
  unfolding after_end
  end-IsSafe r i v = record {
    bounded = v.bounded;
    queued = All-set_at (IsDelivery count) r.sending i [] tt v.queued;
    delivered = v.delivered;
  }

  Step-IsSafe : {r r' : State S} → Step socket count r r' → IsSafe count r → IsSafe count r'
  Step-IsSafe {r = r} (read i header frame s' inside _ _ got) v =
      read-IsSafe r i header frame s' inside got v
  Step-IsSafe {r = r} (send i p rest _ _ e) v = send-IsSafe r i p rest e v
  Step-IsSafe {r = r} (fail_read i _ _ _ _ _) v = end-IsSafe r i v
  Step-IsSafe {r = r} (fail_socket i _ _) v = end-IsSafe r i v
  Step-IsSafe {r = r} (leave i _ _ _ _) v = end-IsSafe r i v

  Reach-IsSafe : {r r' : State S} → Reach socket count r r' → IsSafe count r → IsSafe count r'
  Reach-IsSafe here v = v
  Reach-IsSafe (there path step) v = Step-IsSafe step (Reach-IsSafe path v)

  start-IsSafe : (sockets : ℕ → S) → IsSafe count (start sockets)
  unfolding lookup
  start-IsSafe sockets = record {
    bounded = λ mac port h. absurd (cc);
    queued = λ i. tt;
    delivered = tt;
  }

  -- In whatever order the threads of the relay step, each packet that has been sent is one whole
  -- header and frame of the length in it, 14 to 65536, and went to a port of the relay other than
  -- the one that its frame came from.
  pub sent-IsDelivery :
      (sockets : ℕ → S) (r : State S)
      → Reach socket count (start sockets) r
      → All (IsDelivery count) r.sent
  sent-IsDelivery sockets r path = (Reach-IsSafe path (start-IsSafe sockets)).delivered
