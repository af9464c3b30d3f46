-- ===== src/Relay.antt =====
-- tools/ethernet_relay.py: one port's thread, `receive_port`, and the frames that it reads.
pub mod Framing
pub mod Frames
pub mod Switching
pub mod Threads
pub mod Delivery
use openurma_gem5_lab.Prelude.{
  ℕ, zero, suc, ◌+◌, ◌*◌, ◌/◌, ◌%◌, ◌^◌, ◌≤◌, ◌≡◌, Bool, true, false, not, ◌&&◌, ◌||◌, List, [],
  ◌∷◌, ◌++◌, ◌==◌, nat_eq, list_eq, ltb, if◌then◌else◌, Option, some, none, length, take, drop,
  range_from, ◌-◌,
}
use openurma_gem5_lab.Prelude.Dict.{Dict, lookup, insert}
use openurma_gem5_lab.Prelude.Result.{Result, ok, err, ◌>>=◌, ◌>>◌, raise_if}

-- A connected stream socket, of the operating system: what `recv` does with the bytes that the peer
-- has still to deliver before it closes.
pub record Stream (S : Type 0) : Type 0 where
  pub recv : ℕ → S → List ℕ × S
  pub pending : S → List ℕ
  pub recv-pending : (n : ℕ) (s : S) → pending s ≡ (recv n s).0 ++ pending (recv n s).1
  pub recv-at_most : (n : ℕ) (s : S) → length (recv n s).0 ≤ n
  pub recv-closed : (n : ℕ) (s : S) → 1 ≤ n → (recv n s).0 ≡ [] → pending s ≡ []

pub data RelayError : Type 0 where
  -- `EOFError("peer closed")`
  peer_closed : RelayError
  -- `ValueError(f"invalid Ethernet frame length {length}")`
  invalid_length : ℕ → RelayError

abbrev pub max_frame : ℕ
max_frame = 65536

unfoldable pub is_nil : List ℕ → Bool
is_nil [] = true
is_nil (x ∷ xs) = false

-- `struct.unpack("!I", header)`
unfoldable pub unpack : List ℕ → ℕ
unpack (a ∷ b ∷ c ∷ d ∷ []) = ((a * 256 + b) * 256 + c) * 256 + d
unpack _ = 0

module _ {S : Type 0} (socket : Stream S) where
  -- The loop of `recv_exact`; every round adds a byte at least, so that as many rounds as bytes are
  -- enough.
  unfoldable pub receive_more : ℕ → ℕ → List ℕ → S → Result RelayError (List ℕ × S)
  unfolding is_nil
  receive_more zero size data' s = ok (data', s)
  receive_more (suc fuel) size data' s =
      let got = socket.recv (size - length data') s in
      let rest = receive_more fuel size (data' ++ got.0) got.1 in
      if ltb (length data') size
      then (if is_nil got.0 then err peer_closed else rest)
      else ok (data', s)

  unfoldable pub recv_exact : ℕ → S → Result RelayError (List ℕ × S)
  recv_exact size s = receive_more size size [] s

  -- The header and the frame behind it.
  unfoldable pub read_frame : S → Result RelayError (List ℕ × List ℕ × S)
  unfolding recv_exact unpack
  read_frame s = do
    header ← recv_exact 4 s
    let size = unpack header.0
    raise_if (ltb size 14 || ltb max_frame size) (invalid_length size)
    frame ← recv_exact size header.1
    ok (header.0, frame.0, frame.1)

-- `mac[0] & 1`
unfoldable pub is_group : List ℕ → Bool
is_group [] = false
is_group (first ∷ rest) = first % 2 == 1

-- `frame[:6]` and `frame[6:12]`
unfoldable pub destination_mac : List ℕ → List ℕ
destination_mac frame = take 6 frame

unfoldable pub source_mac : List ℕ → List ℕ
source_mac frame = take 6 (drop 6 frame)

-- The update of `mac_table`.
unfoldable pub learn : ℕ → List ℕ → Dict (List ℕ) ℕ → Dict (List ℕ) ℕ
unfolding is_group source_mac
learn source frame table =
    if is_group (source_mac frame) then table else insert (source_mac frame) source table

-- `[index for index in range(len(sockets)) if index != source_index]`
unfoldable pub others : ℕ → List ℕ → List ℕ
others source [] = []
others source (port ∷ rest) =
    let more = others source rest in if port == source then more else port ∷ more

-- `destinations`
unfoldable pub destinations_of : ℕ → ℕ → Bool → Option ℕ → List ℕ
unfolding others
destinations_of count source true found = others source (range_from 0 count)
destinations_of count source false none = others source (range_from 0 count)
destinations_of count source false (some port) = if port == source then [] else port ∷ []

unfoldable pub destinations : ℕ → ℕ → List ℕ → Dict (List ℕ) ℕ → List ℕ
unfolding destinations_of is_group destination_mac
destinations count source frame table =
    destinations_of count source (is_group (destination_mac frame))
      (lookup (destination_mac frame) table)
