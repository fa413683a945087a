-- ===== src/Cvms/Outgoing.antt =====
-- agent/cvms/api/grpc/client.go: the messages to the server, sent, stored and sent again.
use cocos.Common.{
  ℕ, ◌≡◌, refl, sym, append-nil, Bool-cases, inl, inr, Bool, true, false, Option, none, some, List,
  [], ◌∷◌, ◌++◌, append_assoc, arith,
}
use cocos.Cvms.Storage.{Codec, Message, FileStorage, StorageError, add, clear, empty_array}

-- The answers to one message: whether the stream took it, and the answer to the write if not.
pub record Answer : Type 0 where
  pub sent : Bool
  pub write : Option StorageError
  pub now : ℕ

pub record Client (A : Type 0) : Type 0 where
  pub storage : FileStorage A
  pub delivered : List A

module _ {A : Type 0} (json : Codec (Message A)) where
  -- A message that cannot be sent is added to the storage; that errors are logged is left out.
  unfoldable pub send_or_store : Answer → A → Client A → Client A
  send_or_store r m c = elim r.sent [
    | true ↦ record c { delivered = c.delivered ++ m ∷ [] }
    | false ↦ record c { storage = (add json r.write m r.now c.storage).1 }
  ]

  -- The loop of sendPendingMessages over the messages and the answers to them.
  unfoldable pub resend : List (Message A × Answer) → Client A → Client A
  resend [] c = c
  resend ((m, r) ∷ ms) c = resend ms (send_or_store r m.message c)

  unfoldable pub send_pending_messages :
      List (Message A × Answer) → Option StorageError → Client A → Client A
  unfolding resend
  send_pending_messages ms w c =
      let c' = resend ms c in record c' { storage = (clear w c'.storage).1 }

  -- The messages that the stream takes.
  abbrev pub taken : List (Message A × Answer) → List A
  taken [] = []
  taken ((m, r) ∷ ms) = elim r.sent [ true ↦ m.message ∷ taken ms | false ↦ taken ms ]

  resend-delivered :
      (ms : List (Message A × Answer)) (c : Client A)
      → (resend ms c).delivered ≡ c.delivered ++ taken ms
  unfolding resend send_or_store
  resend-delivered [] c = sym (append-nil c.delivered)
  resend-delivered ((m, r) ∷ ms) c = elim (Bool-cases r.sent) [
    | inl s ↦
        rw (resend-delivered ms (send_or_store r m.message c), s)
          (append_assoc c.delivered (m.message ∷ []) (taken ms))
    | inr s ↦ rw (resend-delivered ms (send_or_store r m.message c), s)
  ]

  -- Sending the pending messages delivers those that the stream takes, in order, and leaves the
  -- storage empty, in memory always and in the file if it can be written: a message that failed
  -- again is kept nowhere.
  pub send_pending_messages_forgets :
      (ms : List (Message A × Answer)) (w : Option StorageError) (c : Client A)
      → let c' = send_pending_messages ms w c in
        (c'.delivered ≡ c.delivered ++ taken ms)
        × (c'.storage.msgs ≡ [])
        × (w ≡ none → c'.storage.file ≡ some empty_array)
  unfolding send_pending_messages clear
  send_pending_messages_forgets ms none c = (resend-delivered ms c, refl, λ e. refl)
  send_pending_messages_forgets ms (some x) c =
      (resend-delivered ms c, refl, λ e. absurd (ground arith))
