-- ===== src/Network/WsTransport/Examples.antt =====
-- Reads of common/network/ws_impl.go on small messages.
use go_tools.Base.{ℕ, ◌≡◌, true, false, [], ◌∷◌, some, none, arith, refl}
use go_tools.Base.Bytes.{Bytes}
use go_tools.Network.WsTransport.{
  binary_message, other_message, reader_fails, WsTransportImpl, read, read_next,
}
use go_tools.Network.WsTransport.Stream.{IsReader, IsNext, read_gives_stream}

-- A reader that fills the buffer.
abbrev fill : ℕ → Bytes → ℕ
fill n bytes = n

fill-IsReader : IsReader fill
fill-IsReader = record { some_bytes = λ n b bs h. h; room = λ n bytes. omega arith }

-- The last byte of a message, an empty message and one of two bytes that breaks off.
abbrev three_messages : WsTransportImpl
three_messages = record {
  reader = some (1 ∷ [], false);
  incoming = binary_message ([], false) ∷ binary_message (2 ∷ 3 ∷ [], true) ∷ other_message ∷ [];
}

test_read : (read fill true 8 three_messages).0 ≡ (1 ∷ [], none)
unfolding read
test_read = refl

test_next : (read fill true 1 (read fill true 8 three_messages).1).0 ≡ (2 ∷ [], none)
unfolding read read_next
test_next = refl

test_broken :
    (read fill true 8 (read fill true 8 three_messages).1).0 ≡ (2 ∷ 3 ∷ [], some reader_fails)
unfolding read read_next
test_broken = refl

read_gives_stream_example : IsNext 8 (1 ∷ 2 ∷ 3 ∷ []) (read fill true 8 three_messages)
read_gives_stream_example = read_gives_stream fill true fill-IsReader 8 (omega arith) three_messages
