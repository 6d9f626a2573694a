-- ===== src/Network/WsTransport.antt =====
-- common/network/ws_impl.go: Read of WsTransportImpl, which makes a stream of bytes of the messages of a
-- websocket. The websocket is foreign: the messages that are still to come are a list, after which NextReader
-- fails, and `amount` says how many bytes the reader of a message gives. A message ends with EOF, or it breaks
-- off with another error: the read limit, the deadline, a connection that is gone; the reader gives that error
-- again when it is asked again. Either may be told along with the last bytes (`early`) or in a call of its own.
-- Deadlines that cannot be set are left out.
pub mod Stream
mod Examples
use go_tools.Base.{
  ℕ, Bool, true, false, List, [], ◌∷◌, Option, some, none, take, drop, leb, if◌then◌else◌,
}
use go_tools.Base.Bytes.{Bytes}

-- What the reader of a message will still give, and whether it breaks off then.
abbrev pub Reader : Type 0
Reader = Bytes × Bool

pub data Message : Type 0 where
  binary_message : Reader → Message
  other_message : Message

pub data WsError : Type 0 where
  next_reader_fails : WsError
  not_binary : WsError
  reader_fails : WsError

-- `incoming` is what the websocket will still receive.
pub record WsTransportImpl : Type 0 where
  pub reader : Option Reader
  pub incoming : List Message

-- A reader that is at its end.
abbrev pub at_end : Bool → Reader
at_end breaks = ([], breaks)

module _ (amount : ℕ → Bytes → ℕ) (early : Bool) where
  -- What Read has given, and the transport after it.
  abbrev pub ReadReply : Type 0
  ReadReply = (Bytes × Option WsError) × WsTransportImpl

  -- The error of a Read that has left so much of a message, and the reader after it: nil after EOF.
  abbrev pub after : Bool → Bytes → Option WsError × Option Reader
  after true [] =
      if early then (some reader_fails, some (at_end true)) else (none, some (at_end true))
  after false [] = if early then (none, none) else (none, some (at_end false))
  after breaks (b ∷ bs) = (none, some (b ∷ bs, breaks))

  -- A Read of the reader of a message that is not at its end.
  abbrev pub read_some : ℕ → Bytes → Bool → List Message → ReadReply
  read_some n bytes breaks incoming =
      let (err, reader) = after breaks (drop (amount n bytes) bytes) in
      ((take (amount n bytes) bytes, err), record { reader = reader; incoming = incoming })

  -- A Read of a reader that has broken off.
  abbrev pub broken_off : List Message → ReadReply
  broken_off incoming =
      (([], some reader_fails), record { reader = some (at_end true); incoming = incoming })

  -- The loop without a reader, over the messages to come.
  unfoldable pub read_next : ℕ → List Message → ReadReply
  read_next n [] = (([], some next_reader_fails), record { reader = none; incoming = [] })
  read_next n (other_message ∷ incoming) =
      (([], some not_binary), record { reader = none; incoming = incoming })
  read_next n (binary_message ([], false) ∷ incoming) = read_next n incoming
  read_next n (binary_message ([], true) ∷ incoming) = broken_off incoming
  read_next n (binary_message (b ∷ bs, breaks) ∷ incoming) = read_some n (b ∷ bs) breaks incoming

  -- The loop with the reader that the last Read has left.
  abbrev pub read_from : ℕ → Option Reader → List Message → ReadReply
  read_from n none incoming = read_next n incoming
  read_from n (some ([], false)) incoming = read_next n incoming
  read_from n (some ([], true)) incoming = broken_off incoming
  read_from n (some (b ∷ bs, breaks)) incoming = read_some n (b ∷ bs) breaks incoming

  -- Read into a buffer of `n` bytes.
  unfoldable pub read : ℕ → WsTransportImpl → ReadReply
  unfolding read_next
  read n w = if leb n 0 then (([], none), w) else read_from n w.reader w.incoming
