-- ===== src/Network/WsTransport/Stream.antt =====
-- The stream that Read of common/network/ws_impl.go gives: the boundaries of the messages do not show.
use go_tools.Base.{
  ℕ, zero, suc, ◌≡◌, ◌≤◌, ◌<◌, Bool, true, false, List, [], ◌∷◌, ◌++◌, Option, some, none, arith,
  refl, sym, ap, ◌∙◌, ◌⊎◌, inl, inr, length, take, drop, leb, if_intro,
}
use mathlib.Core.List.{append_assoc, append-nil}
use go_tools.Base.Bytes.{Bytes}
use go_tools.Network.WsTransport.{
  Reader, Message, binary_message, other_message, WsError, reader_fails, WsTransportImpl, after,
  read_some, read_next, read_from, read,
}

-- What comes after a message, which is nothing where the message breaks off.
abbrev pub follows : Bool → Bytes → Bytes
follows true bytes = []
follows false bytes = bytes

-- The bytes of the messages before the first that is not binary, and up to the first that breaks off.
abbrev pub bytes_of : List Message → Bytes
bytes_of [] = []
bytes_of (binary_message r ∷ ms) = r.0 ++ follows r.1 (bytes_of ms)
bytes_of (other_message ∷ ms) = []

abbrev pub bytes_from : Option Reader → List Message → Bytes
bytes_from none ms = bytes_of ms
bytes_from (some r) ms = r.0 ++ follows r.1 (bytes_of ms)

-- All that is still to be read.
abbrev pub stream : WsTransportImpl → Bytes
stream w = bytes_from w.reader w.incoming

take-drop : (n : ℕ) (xs : Bytes) → take n xs ++ drop n xs ≡ xs
take-drop zero xs = refl
take-drop (suc n) [] = refl
take-drop (suc n) (x ∷ xs) = ap (◌∷◌ x) (take-drop n xs)

take-le : (n : ℕ) (xs : Bytes) → length (take n xs) ≤ n
take-le zero xs = omega arith
take-le (suc n) [] = omega arith
take-le (suc n) (x ∷ xs) = omega (arith, take-le n xs)

take-positive : (n : ℕ) (x : ℕ) (xs : Bytes) → 0 < n → 0 < length (take n (x ∷ xs))
take-positive zero x xs h = absurd (omega arith)
take-positive (suc n) x xs h = omega arith

-- The reader of a message gives at least one byte, and no more than there is room for.
pub record IsReader (amount : ℕ → Bytes → ℕ) : Type 0 where
  pub some_bytes : (n b : ℕ) (bs : Bytes) → 0 < n → 0 < amount n (b ∷ bs)
  pub room : (n : ℕ) (bytes : Bytes) → amount n bytes ≤ n

-- Read gives the next bytes of the stream `before`, at least one; or the last ones, along with the error of
-- their message; or it fails at the end of the stream.
pub data IsNext (n : ℕ) (before : Bytes) : (Bytes × Option WsError) × WsTransportImpl → Type 0 where
  gives :
      {bytes : Bytes} {w : WsTransportImpl}
      → before ≡ bytes ++ stream w
      → 0 < length bytes
      → length bytes ≤ n
      → IsNext n before ((bytes, none), w)
  gives_last :
      {bytes : Bytes} {w : WsTransportImpl}
      → before ≡ bytes
      → stream w ≡ []
      → length bytes ≤ n
      → IsNext n before ((bytes, some reader_fails), w)
  ends : {err : WsError} {w : WsTransportImpl} → before ≡ [] → IsNext n before (([], some err), w)

not_empty : (n : ℕ) → 0 < n → leb n 0 ≡ false
not_empty n h = ground arith

-- Where a message is left: either all of the rest is still there, or it has broken off at its end.
abbrev IsLeft : Bool → Bytes → List Message → Option WsError × Option Reader → Type 0
IsLeft breaks rest ms (err, reader) =
    ((err ≡ none) × (bytes_from reader ms ≡ rest ++ follows breaks (bytes_of ms)))
    ⊎ ((err ≡ some reader_fails) × (rest ≡ []) × (breaks ≡ true) × (bytes_from reader ms ≡ []))

module _ (amount : ℕ → Bytes → ℕ) (early : Bool) (reads : IsReader amount) (n : ℕ)
    (room : 0 < n) where
  after-IsLeft :
      (breaks : Bool) (rest : Bytes) (ms : List Message)
      → IsLeft breaks rest ms (after amount early breaks rest)
  after-IsLeft true [] ms =
      if_intro (IsLeft true [] ms) early _ _ (λ e. inr (refl, refl, refl, refl))
        (λ e. inl (refl, refl))
  after-IsLeft false [] ms =
      if_intro (IsLeft false [] ms) early _ _ (λ e. inl (refl, refl)) (λ e. inl (refl, refl))
  after-IsLeft breaks (b ∷ bs) ms = inl (refl, refl)

  read_some-IsNext :
      (b : ℕ) (bs : Bytes) (breaks : Bool) (ms : List Message)
      → IsNext n
          ((b ∷ bs) ++ follows breaks (bytes_of ms))
          (read_some amount early n (b ∷ bs) breaks ms)
  read_some-IsNext b bs breaks ms =
      let k = amount n (b ∷ bs) in
      let more = follows breaks (bytes_of ms) in
      let whole = take-drop k (b ∷ bs) in
      let fits : length (take k (b ∷ bs)) ≤ n =
        omega (arith, take-le k (b ∷ bs), reads.room n (b ∷ bs)) in
      elim (after-IsLeft breaks (drop k (b ∷ bs)) ms) [
        | inl (fine, left) ↦ rw fine (
            gives
              (ap (◌++ more) (sym whole)
                ∙ (append_assoc (take k (b ∷ bs)) (drop k (b ∷ bs)) more
                    ∙ ap (take k (b ∷ bs) ++◌) (sym left)))
              (take-positive k b bs (reads.some_bytes n b bs room)) fits)
        | inr (broken, over, breaks_off, gone) ↦ rw broken (
            gives_last
              (ap (λ x. (b ∷ bs) ++ follows x (bytes_of ms)) breaks_off
                ∙ (append-nil (b ∷ bs)
                    ∙ (sym whole ∙ (ap (take k (b ∷ bs) ++◌) over ∙ append-nil (take k (b ∷ bs))))))
              gone fits)
      ]

  read_next-IsNext : (ms : List Message) → IsNext n (bytes_of ms) (read_next amount early n ms)
  unfolding read_next
  read_next-IsNext [] = ends refl
  read_next-IsNext (other_message ∷ ms) = ends refl
  read_next-IsNext (binary_message ([], false) ∷ ms) = read_next-IsNext ms
  read_next-IsNext (binary_message ([], true) ∷ ms) = ends refl
  read_next-IsNext (binary_message (b ∷ bs, breaks) ∷ ms) = read_some-IsNext b bs breaks ms

  read_from-IsNext :
      (o : Option Reader) (ms : List Message)
      → IsNext n (bytes_from o ms) (read_from amount early n o ms)
  read_from-IsNext none ms = read_next-IsNext ms
  read_from-IsNext (some ([], false)) ms = read_next-IsNext ms
  read_from-IsNext (some ([], true)) ms = ends refl
  read_from-IsNext (some (b ∷ bs, breaks)) ms = read_some-IsNext b bs breaks ms

  -- A Read into a buffer that is not empty gives the next bytes of the stream of all messages, at least one
  -- and at most as many as the buffer takes, wherever the messages begin and end. It gives an error only
  -- where no more is to come before the connection ends, a message is not binary or a message breaks off,
  -- be it along with the last bytes of that message.
  pub read_gives_stream : (w : WsTransportImpl) → IsNext n (stream w) (read amount early n w)
  unfolding read
  read_gives_stream w = rw (not_empty n room) (read_from-IsNext w.reader w.incoming)
