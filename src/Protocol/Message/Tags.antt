-- ===== src/Protocol/Message/Tags.antt =====
-- The opcode byte of each message type.
use wiredesk.Base.{ℕ, ◌≡◌, ◌↔◌, refl, sym, ap, ◌∙◌, arith}
use wiredesk.Base.Result.{ok}
use wiredesk.Protocol.Message.{MessageType, to_u8, try_from}

try_from-to_u8 : (t : MessageType) → try_from (to_u8 t) ≡ ok t
unfolding try_from to_u8
try_from-to_u8 MessageType.hello = refl
try_from-to_u8 _ = refl

to_u8-try_from : (v : ℕ) (t : MessageType) → try_from v ≡ ok t → to_u8 t ≡ v
unfolding try_from to_u8
to_u8-try_from v t h = ground arith

-- The opcode table and its inverse agree in both directions: a byte is read as a message type
-- exactly when it is that type's opcode, and so every other byte is refused.
pub try_from-to_u8_iff : (v : ℕ) (t : MessageType) → (try_from v ≡ ok t) ↔ (to_u8 t ≡ v)
try_from-to_u8_iff v t = (to_u8-try_from v t, λ e. sym (ap try_from e) ∙ try_from-to_u8 t)
