-- ===== src/Transport/Fragment.antt =====
-- crates/wiredesk-transport/src/bluetooth/fragment.rs: packets cut into BLE writes, and put
-- together again. Instants are milliseconds; `duration_since` stops at 0, as `-` does. The map from
-- packet ids to slots is a function. A panic (`assert!`, `expect`, an index out of range) is a value.
pub mod Header
pub mod Split
pub mod Slots
pub mod Reassembly
pub mod Delivery
mod Tests
use wiredesk.Base.{
  ℕ, zero, suc, ◌+◌, ◌-◌, ◌/◌, ◌%◌, Bool, true, false, List, [], ◌∷◌, ◌++◌, Option, none, some, ltb,
  leb, ◌==◌, if◌then◌else◌, length, get_elem?, get_or, set, take, drop, replicate,
}
use wiredesk.Base.Chunks.{chunks}
use wiredesk.Base.Bytes.{Bytes, le_bytes, from_le}
use wiredesk.Base.Result.{Result, ok, err}

abbrev pub att_header_overhead : ℕ
att_header_overhead = 3

abbrev pub chunk_header_len : ℕ
chunk_header_len = 4

abbrev pub default_att_mtu : ℕ
default_att_mtu = 247

abbrev pub reassembly_timeout : ℕ
reassembly_timeout = 5000

abbrev pub max_total_chunks : ℕ
max_total_chunks = 255

-- `saturating_sub` twice.
unfoldable pub max_chunk_payload : ℕ → ℕ
max_chunk_payload att_mtu = att_mtu - att_header_overhead - chunk_header_len

pub data FragmentError : Type 0 where
  header_too_short : (got : ℕ) → FragmentError
  zero_total : FragmentError
  out_of_range : (idx total : ℕ) → FragmentError
  payload_too_large : (got most : ℕ) → FragmentError
  too_many_chunks : (chunks : ℕ) → FragmentError

pub record ChunkHeader : Type 0 where
  pub packet_id : ℕ
  pub chunk_idx : ℕ
  pub total_chunks : ℕ

unfoldable pub to_bytes : ChunkHeader → Bytes
to_bytes h = le_bytes 2 h.packet_id ++ h.chunk_idx ∷ h.total_chunks ∷ []

unfoldable pub from_bytes : Bytes → Result FragmentError ChunkHeader
from_bytes bytes =
    let packet_id = from_le (take 2 bytes) in
    let chunk_idx = get_or bytes 2 0 in
    let total_chunks = get_or bytes 3 0 in
    if ltb (length bytes) chunk_header_len
    then err (header_too_short (length bytes))
    else if total_chunks == 0
    then err zero_total
    else if leb total_chunks chunk_idx
    then err (out_of_range chunk_idx total_chunks)
    else ok (record { packet_id = packet_id; chunk_idx = chunk_idx; total_chunks = total_chunks })

-- The loop over `chunks(..).enumerate()`, from index `idx` on.
unfoldable pub writes : ℕ → ℕ → ℕ → List Bytes → List Bytes
writes packet_id total idx [] = []
writes packet_id total idx (slice ∷ rest) =
    (to_bytes (record { packet_id = packet_id; chunk_idx = idx % 256; total_chunks = total % 256 })
      ++ slice)
    ∷ writes packet_id total (idx + 1) rest

-- `div_ceil`, and one chunk for an empty payload.
abbrev pub total_chunks_of : Bytes → ℕ → ℕ
total_chunks_of [] most = 1
total_chunks_of (b ∷ bs) most = (length (b ∷ bs) + most - 1) / most

-- What is written: a header alone for an empty payload.
write_all : ℕ → Bytes → ℕ → ℕ → List Bytes
write_all packet_id [] most total =
    to_bytes (record { packet_id = packet_id; chunk_idx = 0; total_chunks = 1 }) ∷ []
write_all packet_id (b ∷ bs) most total =
    writes packet_id total 0 (chunks (length (b ∷ bs)) most (b ∷ bs))

-- `none` is the failed `assert!(max_chunk_payload > 0)`.
unfoldable pub split_packet : ℕ → Bytes → ℕ → Option (Result FragmentError (List Bytes))
unfolding write_all
split_packet packet_id payload most =
    let total = total_chunks_of payload most in
    if most == 0
    then none
    else if ltb max_total_chunks total
    then some (err (too_many_chunks total))
    else some (ok (write_all packet_id payload most total))

pub record Slot : Type 0 where
  pub first_seen : ℕ
  pub total : ℕ
  pub chunks : List (Option Bytes)
  pub received : ℕ

pub record Reassembler : Type 0 where
  pub slots : ℕ → Option Slot

-- `Reassembler::new`.
abbrev pub new : Reassembler
new = record { slots = λ _. none }

-- What a call does: it returns, or it panics.
pub data Outcome : Type 0 where
  returned : Result FragmentError (Option Bytes) → Outcome
  panicked : Outcome

abbrev pub keep_fresh : ℕ → Option Slot → Option Slot
keep_fresh now none = none
keep_fresh now (some slot) =
    if ltb (now - slot.first_seen) reassembly_timeout then some slot else none

-- `retain` on the age of the slots.
unfoldable pub sweep_expired : Reassembler → ℕ → Reassembler
sweep_expired r now = record { slots = λ id. keep_fresh now (r.slots id) }

abbrev pub update : (ℕ → Option Slot) → ℕ → Option Slot → ℕ → Option Slot
update f id v other = if id == other then v else f other

unfoldable pub fresh : ℕ → ChunkHeader → Slot
fresh now h = record {
  first_seen = now;
  total = h.total_chunks;
  chunks = replicate h.total_chunks none;
  received = 0;
}

-- `entry(..).or_insert_with(..)`, and the restart where the announced total has changed.
unfoldable pub slot_for : Option Slot → ℕ → ChunkHeader → Slot
slot_for none now h = fresh now h
slot_for (some slot) now h = if slot.total == h.total_chunks then slot else fresh now h

-- `slot.chunks[idx]`: an empty place takes the payload, a filled one stays. `none` is the panic.
unfoldable pub store : Slot → ℕ → Bytes → Option Slot
store slot idx payload = elim (get_elem? slot.chunks idx) [
  | none ↦ none
  | some found ↦ elim found [
    | none ↦
        some (record slot {
          chunks = set slot.chunks idx (some payload);
          received = slot.received + 1;
        })
    | some old ↦ some slot
  ]
]

-- The chunks of a full slot; `none` is the failed `expect`.
unfoldable pub gather : List (Option Bytes) → Option Bytes
gather [] = some []
gather (none ∷ rest) = none
gather (some chunk ∷ rest) = elim (gather rest) [ none ↦ none | some full ↦ some (chunk ++ full) ]

-- The end of `feed_chunk_at`: a full slot is taken out, another is kept.
unfoldable pub settle : Reassembler → ℕ → Slot → Reassembler × Outcome
settle r id slot =
    if slot.received == slot.total
    then (
      record { slots = update r.slots id none },
      elim (gather slot.chunks) [ none ↦ panicked | some full ↦ returned (ok (some full)) ],
    )
    else (record { slots = update r.slots id (some slot) }, returned (ok none))

unfoldable pub place : Reassembler → ℕ → ChunkHeader → Bytes → Reassembler × Outcome
place r now h payload = elim (store (slot_for (r.slots h.packet_id) now h) h.chunk_idx payload) [
  | none ↦ (r, panicked)
  | some slot ↦ settle r h.packet_id slot
]

unfoldable pub feed_chunk_at : Reassembler → ℕ → Bytes → Reassembler × Outcome
feed_chunk_at r now bytes =
    let swept = sweep_expired r now in
    elim (from_bytes bytes) [
      | err e ↦ (swept, returned (err e))
      | ok h ↦ place swept now h (drop chunk_header_len bytes)
    ]
