-- ===== src/Tests/Relay.antt =====
-- tools/ethernet_relay.py with sockets that deliver one byte at a time.
use openurma_gem5_lab.Prelude.{
  ℕ, zero, suc, ◌≤◌, ◌<◌, ◌≡◌, ◌≢◌, ◌↔◌, ◌⊎◌, refl, false, true, List, [], ◌∷◌, ◌++◌, length, some,
  none, contains, All, nat_eq, list_eq, arith,
}
use openurma_gem5_lab.Prelude.Dict.{lookup, insert}
use openurma_gem5_lab.Prelude.Result.{ok, ◌>>=◌}
use openurma_gem5_lab.Relay.{
  Stream, unpack, is_nil, receive_more, recv_exact, read_frame, is_group, source_mac,
  destination_mac, learn, destinations, destinations_of, others,
}
use openurma_gem5_lab.Relay.Frames.{pack, read_frame-pack, IsRead, read_frame-IsRead}
use openurma_gem5_lab.Relay.Switching.{IsBounded, destinations_iff}
use openurma_gem5_lab.Relay.Threads.{
  Packet, State, set_at, start, packets, after_read, after_send, Reach, here, there, read, send,
}
use openurma_gem5_lab.Relay.Delivery.{IsDelivery, sent-IsDelivery}

unfoldable one_byte : ℕ → List ℕ → List ℕ × List ℕ
one_byte zero bytes = ([], bytes)
one_byte (suc n) [] = ([], [])
one_byte (suc n) (b ∷ bytes) = (b ∷ [], bytes)

one_byte-pending : (n : ℕ) (s : List ℕ) → s ≡ (one_byte n s).0 ++ (one_byte n s).1
unfolding one_byte
one_byte-pending zero s = refl
one_byte-pending (suc n) [] = refl
one_byte-pending (suc n) (b ∷ bytes) = refl

one_byte-at_most : (n : ℕ) (s : List ℕ) → length (one_byte n s).0 ≤ n
unfolding one_byte
one_byte-at_most zero s = omega arith
one_byte-at_most (suc n) [] = omega arith
one_byte-at_most (suc n) (b ∷ bytes) = omega arith

one_byte-closed : (n : ℕ) (s : List ℕ) → 1 ≤ n → (one_byte n s).0 ≡ [] → s ≡ []
unfolding one_byte
one_byte-closed zero s h e = absurd (omega (arith, h))
one_byte-closed (suc n) [] h e = refl
one_byte-closed (suc n) (b ∷ bytes) h e = cc

abbrev trickle : Stream (List ℕ)
trickle = record {
  recv = one_byte;
  pending = λ s. s;
  recv-pending = one_byte-pending;
  recv-at_most = one_byte-at_most;
  recv-closed = one_byte-closed;
}

abbrev first_mac : List ℕ
first_mac = 2 ∷ 0 ∷ 0 ∷ 0 ∷ 0 ∷ 1 ∷ []

abbrev second_mac : List ℕ
second_mac = 2 ∷ 0 ∷ 0 ∷ 0 ∷ 0 ∷ 2 ∷ []

abbrev hello : List ℕ
hello = second_mac ++ first_mac ++ 8 ∷ 0 ∷ []

abbrev answer : List ℕ
answer = first_mac ++ second_mac ++ 8 ∷ 0 ∷ []

read_frame-pack_example :
    (s' : List ℕ) × (read_frame trickle (pack 14 ++ (hello ++ [])) ≡ ok (pack 14, hello, s'))
    × (s' ≡ [])
read_frame-pack_example =
    read_frame-pack trickle (pack 14 ++ (hello ++ [])) hello [] (omega arith) (omega arith) refl

hello_read : read_frame trickle (pack 14 ++ hello) ≡ ok (pack 14, hello, [])
unfolding read_frame recv_exact receive_more is_nil unpack one_byte ◌>>=◌
hello_read = refl

read_frame-IsRead_example : IsRead trickle (pack 14 ++ hello) (pack 14) hello []
read_frame-IsRead_example =
    read_frame-IsRead trickle (pack 14 ++ hello) (pack 14) hello [] hello_read

empty-IsBounded : IsBounded 3 []
unfolding lookup
empty-IsBounded mac port h = cc

destinations_iff_example : (contains (destinations 3 0 hello []) 2 ≡ true) ↔ (
    (2 < 3)
    × (◌≢◌ {A = ℕ} 2 0)
    × ((is_group (destination_mac hello) ≡ true)
        ⊎ (lookup {V = ℕ} (destination_mac hello) [] ≡ none)
        ⊎ (lookup {V = ℕ} (destination_mac hello) [] ≡ some 2)))
destinations_iff_example = destinations_iff 3 0 hello [] 2 empty-IsBounded

hello_station : is_group (source_mac hello) ≡ false
unfolding is_group source_mac
hello_station = refl

answer_addressed : destination_mac answer ≡ source_mac hello
unfolding destination_mac source_mac
answer_addressed = refl

two_apart : ◌≢◌ {A = ℕ} 2 0
two_apart e = cc

abbrev sockets : ℕ → List ℕ
sockets zero = pack 14 ++ hello
sockets (suc i) = []

abbrev before : State (List ℕ)
before = start sockets

abbrev queued : State (List ℕ)
queued = after_read 2 0 (pack 14) hello [] before

abbrev packet : Packet
packet = record { source = 0; destination = 1; bytes = pack 14 ++ hello }

abbrev after : State (List ℕ)
after = after_send 0 packet [] queued

still_running : queued.running 0 ≡ true
unfolding after_read
still_running = refl

packet_queued : queued.sending 0 ≡ packet ∷ []
unfolding after_read set_at packets destinations destinations_of others is_group destination_mac
    learn source_mac lookup insert
packet_queued = refl

delivered : Reach trickle 2 before after
delivered =
    there (there here (read 0 (pack 14) hello [] (omega arith) refl refl hello_read))
      (send 0 packet [] (omega arith) still_running packet_queued)

sent-IsDelivery_example : All (IsDelivery 2) after.sent
sent-IsDelivery_example = sent-IsDelivery trickle 2 sockets after delivered
