-- ===== src/Relay/Threads.antt =====
-- tools/ethernet_relay.py: the threads of all ports as steps on the state that they share.
use openurma_gem5_lab.Prelude.{
  ℕ, ◌<◌, ◌≡◌, Bool, true, false, List, [], ◌∷◌, ◌++◌, ◌==◌, nat_eq, list_eq, if◌then◌else◌, map,
}
use openurma_gem5_lab.Prelude.Dict.{Dict}
use openurma_gem5_lab.Prelude.Result.{ok, err}
use openurma_gem5_lab.Relay.{Stream, RelayError, read_frame, learn, destinations}

-- A packet for one destination, with the port that its frame came from.
pub record Packet : Type 0 where
  pub source : ℕ
  pub destination : ℕ
  pub bytes : List ℕ

-- What the threads share, and where each stands: the packets that it still sends in its round, and
-- whether it runs.
pub record State (S : Type 0) : Type 0 where
  pub sockets : ℕ → S
  pub mac_table : Dict (List ℕ) ℕ
  pub sending : ℕ → List Packet
  pub running : ℕ → Bool
  pub sent : List Packet
  pub stopped : Bool

unfoldable pub set_at {ℓ} : {A : Type ℓ} → ℕ → A → (ℕ → A) → ℕ → A
set_at i a f j = if i == j then a else f j

-- `packet = header + frame`, for each destination
unfoldable pub packets : ℕ → List ℕ → List ℕ → List Packet
packets source bytes ports =
    map (λ port. record { source = source; destination = port; bytes = bytes }) ports

module _ {S : Type 0} where
  abbrev pub start : (ℕ → S) → State S
  start sockets = record {
    sockets = sockets;
    mac_table = [];
    sending = λ i. [];
    running = λ i. true;
    sent = [];
    stopped = false;
  }

  -- A round up to its sends: the frame is read, and the table updated and looked up under its lock.
  unfoldable pub after_read : ℕ → ℕ → List ℕ → List ℕ → S → State S → State S
  unfolding set_at packets
  after_read count i header frame s' r =
      let table = learn i frame r.mac_table in
      record {
        sockets = set_at i s' r.sockets;
        mac_table = table;
        sending =
            set_at i (packets i (header ++ frame) (destinations count i frame table)) r.sending;
        running = r.running;
        sent = r.sent;
        stopped = r.stopped;
      }

  -- One `sendall`, under the lock of its destination.
  unfoldable pub after_send : ℕ → Packet → List Packet → State S → State S
  unfolding set_at
  after_send i p rest r = record {
    sockets = r.sockets;
    mac_table = r.mac_table;
    sending = set_at i rest r.sending;
    running = r.running;
    sent = r.sent ++ p ∷ [];
    stopped = r.stopped;
  }

  -- The end of a thread; its `finally` stops the others.
  unfoldable pub after_end : ℕ → State S → State S
  unfolding set_at
  after_end i r = record {
    sockets = r.sockets;
    mac_table = r.mac_table;
    sending = set_at i [] r.sending;
    running = set_at i false r.running;
    sent = r.sent;
    stopped = true;
  }

module _ {S : Type 0} (socket : Stream S) (count : ℕ) where
  -- One step of one thread. A round may begin after another thread's stop, since the test of
  -- `stopped` can lie before it.
  pub data Step (r : State S) : State S → Type 0 where
    read :
        (i : ℕ) (header frame : List ℕ) (s' : S)
        → i < count
        → r.running i ≡ true
        → r.sending i ≡ []
        → read_frame socket (r.sockets i) ≡ ok (header, frame, s')
        → Step r (after_read count i header frame s' r)
    send :
        (i : ℕ) (p : Packet) (rest : List Packet)
        → i < count
        → r.running i ≡ true
        → r.sending i ≡ p ∷ rest
        → Step r (after_send i p rest r)
    fail_read :
        (i : ℕ) (e : RelayError)
        → i < count
        → r.running i ≡ true
        → r.sending i ≡ []
        → read_frame socket (r.sockets i) ≡ err e
        → Step r (after_end i r)
    -- An `OSError`, of the read or of a send.
    fail_socket : (i : ℕ) → i < count → r.running i ≡ true → Step r (after_end i r)
    leave :
        (i : ℕ)
        → i < count
        → r.running i ≡ true
        → r.sending i ≡ []
        → r.stopped ≡ true
        → Step r (after_end i r)

  pub data Reach (r : State S) : State S → Type 0 where
    here : Reach r r
    there : {r' r'' : State S} → Reach r r' → Step r' r'' → Reach r r''
