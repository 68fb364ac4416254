-- ===== src/Host/Clipboard/Bounds.antt =====
-- What a peer can make the clipboard do.
use wiredesk.Base.{
  ℕ, suc, ◌+◌, ◌*◌, ◌%◌, ◌≤◌, ◌<◌, ◌≡◌, refl, min, Bool, true, false, not, ◌&&◌, inl, inr, [], ◌∷◌,
  none, ltb, leb, ltb→le, ◌==◌, if◌then◌else◌, length, All, length-append, Bool-cases, arith,
}
use wiredesk.Base.Bytes.{Bytes}
use wiredesk.Host.Clipboard.{
  format_file, Received, insert, contains_key, ClipboardSync, reset_reassembly,
}
use wiredesk.Host.Clipboard.Incoming.{
  Platform, is_known, cap, arm, on_offer, deliver, contiguous, concatenated, commit_buffer, commit,
  keep, commit_if_complete, on_chunk,
}
use wiredesk.Host.Clipboard.Delivery.{cap-le}
use wiredesk.Host.Clipboard.Harmless.{IsHarmless, deliver-Safe}

-- What is left for data in a packet of the largest length, behind the index of a chunk.
abbrev pub max_chunk_data : ℕ
max_chunk_data = 65533

-- The keys rise from `low` on, below 65536, and no chunk is larger than a packet can carry.
abbrev pub Entries : ℕ → Received → Type 0
Entries low [] = low ≤ 65536
Entries low ((k, bytes) ∷ rest) =
    (low ≤ k) × (k < 65536) × (length bytes ≤ max_chunk_data) × Entries (suc k) rest

insert-Entries :
    (low index : ℕ) (bytes : Bytes) (r : Received)
    → Entries low r
    → low ≤ index
    → index < 65536
    → length bytes ≤ max_chunk_data
    → Entries low (insert index bytes r)
insert-Entries low index bytes [] e l h c = (l, h, c, omega arith)
insert-Entries low index bytes ((k, held) ∷ rest) e l h c = elim (Bool-cases (index == k)) [
  | inl t ↦ rw t (e.0, e.1, c, e.3)
  | inr n ↦ elim (Bool-cases (ltb index k)) [
    | inl t ↦ rw (n, t) (l, h, c, (ground arith, e.1, e.2, e.3))
    | inr m ↦
        rw (n, m) (e.0, e.1, e.2, insert-Entries (suc k) index bytes rest e.3 (ground arith) h c)
  ]
]

concatenated-le :
    (low : ℕ) (r : Received)
    → Entries low r
    → length (concatenated r) + low * max_chunk_data ≤ 65536 * max_chunk_data
concatenated-le low [] e = omega arith
concatenated-le low ((k, bytes) ∷ rest) e =
    omega
      (arith, length-append bytes (concatenated rest), concatenated-le (suc k) rest e.3, e.0, e.2)

pub record IsSync (s : ClipboardSync) : Type 0 where
  pub entries : Entries 0 s.received
  pub idle : s.expected_len ≡ 0 → (s.received ≡ []) × (s.received_total ≡ 0)
  pub below : 0 < s.expected_len → s.received_total < s.expected_len
  pub within : s.expected_len ≤ cap s.expected_format
  pub known : 0 < s.expected_len → is_known s.expected_format ≡ true
  pub progress : s.incoming_progress ≡ s.received_total
  pub total : s.incoming_total ≡ s.expected_len
  pub nothing_in_flight : s.in_flight_file_path ≡ none

pub reset_reassembly-IsSync :
    (s : ClipboardSync) → s.in_flight_file_path ≡ none → IsSync (reset_reassembly s)
reset_reassembly-IsSync s h = record {
  entries = omega arith;
  idle = λ e. (refl, refl);
  below = λ e. absurd (omega arith);
  within = omega arith;
  known = λ e. absurd (omega arith);
  progress = refl;
  total = refl;
  nothing_in_flight = h;
}

module _ (p : Platform) where
  commit_buffer-safe :
      (s : ClipboardSync) (buf : Bytes)
      → length buf < 4294967296
      → s.expected_len ≤ cap s.expected_format
      → s.in_flight_file_path ≡ none
      → IsSync (commit_buffer p s buf).0 × All (IsHarmless p) (commit_buffer p s buf).1
  commit_buffer-safe s buf w c n = elim (Bool-cases (length buf % 4294967296 == s.expected_len)) [
    | inl t ↦
        let fits : length buf ≤ cap s.expected_format = ground arith in
        let safe = deliver-Safe p (record s { received = [] }) s.expected_format buf fits n in
        rw t (
          reset_reassembly-IsSync (deliver p s.expected_format (record s { received = [] }) buf).0
              safe.0,
          safe.1,
        )
    | inr m ↦ rw m (reset_reassembly-IsSync s n, tt)
  ]

  commit-safe :
      (s : ClipboardSync)
      → Entries 0 s.received
      → s.expected_len ≤ cap s.expected_format
      → s.in_flight_file_path ≡ none
      → IsSync (commit p s).0 × All (IsHarmless p) (commit p s).1
  unfolding commit
  commit-safe s e c n = elim (Bool-cases (contiguous 0 s.received)) [
    | inr m ↦ rw m (reset_reassembly-IsSync s n, tt)
    | inl t ↦ rw t (
        commit_buffer-safe s (concatenated s.received)
          (omega (arith, concatenated-le 0 s.received e)) c n)
  ]

  -- A chunk that is kept, up to the question whether all is there.
  kept-safe :
      (s : ClipboardSync) (index : ℕ) (bytes : Bytes)
      → IsSync s
      → 0 < s.expected_len
      → index < 65536
      → length bytes ≤ max_chunk_data
      → IsSync (commit_if_complete p (keep p s index bytes)).0
        × All (IsHarmless p) (commit_if_complete p (keep p s index bytes)).1
  kept-safe s index bytes w o i l =
      let stored = insert-Entries 0 index bytes s.received w.entries (omega arith) i l in
      elim (Bool-cases (leb s.expected_len (keep p s index bytes).received_total)) [
        | inl t ↦ rw t (commit-safe (keep p s index bytes) stored w.within w.nothing_in_flight)
        | inr n ↦ rw n (
          record {
            entries = stored;
            idle = λ e. absurd (omega arith);
            below = λ h. ground arith;
            within = w.within;
            known = w.known;
            progress = counted (contains_key index s.received) n;
            total = w.total;
            nothing_in_flight = w.nothing_in_flight;
          },
          tt,
        )
      ]
    where
      counted :
          (seen : Bool)
          → leb s.expected_len (
              if seen
              then s.received_total
              else min (s.received_total + length bytes % 4294967296) 4294967295)
            ≡ false
          → (if seen
              then s.incoming_progress
              else (s.incoming_progress + length bytes % 4294967296) % 18446744073709551616)
            ≡ (if seen
                then s.received_total
                else min (s.received_total + length bytes % 4294967296) 4294967295)
      counted true n = w.progress
      counted false n = ground (arith, w.progress, w.within, cap-le s.expected_format)

  pub on_chunk-safe :
      (s : ClipboardSync) (index : ℕ) (bytes : Bytes)
      → IsSync s
      → index < 65536
      → length bytes ≤ max_chunk_data
      → IsSync (on_chunk p s index bytes).0 × All (IsHarmless p) (on_chunk p s index bytes).1
  unfolding on_chunk
  on_chunk-safe s index bytes w i l = elim (Bool-cases (s.expected_len == 0)) [
    | inl t ↦ rw t (w, tt)
    | inr n ↦ rw n (kept-safe s index bytes w (ground arith) i l)
  ]

  pub on_offer-safe :
      (s : ClipboardSync) (format total_len : ℕ)
      → IsSync s
      → IsSync (on_offer s format total_len).0
        × All (IsHarmless p) (on_offer s format total_len).1.1
  unfolding on_offer
  on_offer-safe s format total_len w =
      let idle = reset_reassembly-IsSync s w.nothing_in_flight in
      elim (Bool-cases (is_known format)) [
        | inr n ↦ rw n (idle, tt)
        | inl t ↦ elim (Bool-cases ((format == format_file) && not s.receive_files)) [
          | inl d ↦ rw (t, d) (idle, tt)
          | inr a ↦ elim (Bool-cases (ltb (cap format) total_len)) [
            | inl o ↦
                rw (t, a, o, w.nothing_in_flight)
                  (reset_reassembly-IsSync (record s { in_flight_file_path = none }) refl, tt)
            | inr f ↦ rw (t, a, f) (armed t (ltb→le (cap format) total_len f), tt)
          ]
        ]
      ]
    where
      armed : is_known format ≡ true → total_len ≤ cap format → IsSync (arm s format total_len)
      armed k f = record {
        entries = omega arith;
        idle = λ e. (refl, refl);
        below = λ h. h;
        within = f;
        known = λ h. k;
        progress = refl;
        total = refl;
        nothing_in_flight = w.nothing_in_flight;
      }
