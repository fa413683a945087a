-- ===== src/Cvms/Manifests.antt =====
-- agent/cvms/api/grpc/server.go: sendRunReqInChunks. `answers i` is what the stream answers to its
-- send `i`; a round takes a byte at least, so that fuel above the length is enough.
use cocos.Common.{
  ℕ, zero, suc, Bool, true, false, Option, none, some, List, [], ◌∷◌, String, Bytes, take, drop,
  string_comparable,
}

abbrev pub buffer_size : ℕ
buffer_size = 1048576

-- What was sent of a manifest, and the error that ended the loop.
abbrev pub Sent : Type 0
Sent = Option String × List (Bytes × Bool)

abbrev pub after_send : Option String → Bytes → Option Sent → Option Sent
after_send (some e) piece later = some (some e, [])
after_send none piece none = none
after_send none piece (some (e, sent)) = some (e, (piece, false) ∷ sent)

-- The chunk with the mark `IsLast`, which the buffer's io.EOF makes.
abbrev pub send_last : Option String → Sent
send_last (some e) = (some e, [])
send_last none = (none, ([], true) ∷ [])

unfoldable pub send_chunks : ℕ → (ℕ → Option String) → ℕ → Bytes → Option Sent
send_chunks zero answers i buffer = none
send_chunks (suc fuel) answers i [] = some (send_last (answers i))
send_chunks (suc fuel) answers i (b ∷ bs) =
    after_send (answers i) (take buffer_size (b ∷ bs))
      (send_chunks fuel answers (suc i) (drop buffer_size (b ∷ bs)))

-- proto.Marshal, then the loop.
unfoldable pub send_run_req_in_chunks : ℕ → (ℕ → Option String) → Option Bytes → Option Sent
unfolding send_chunks
send_run_req_in_chunks fuel answers none = some (some "failed to marshal", [])
send_run_req_in_chunks fuel answers (some bytes) = send_chunks fuel answers 0 bytes
