-- ===== src/Host/Session/Gathering.antt =====
-- What a pump reads of a shell's events.
use wiredesk.Base.{
  ℕ, ◌≤◌, ◌<◌, ◌≡◌, refl, sym, ◌∙◌, true, false, inl, inr, List, [], ◌∷◌, ◌++◌, append-nil,
  append_assoc, none, ltb, Bool-cases, length, length-append, map, arith,
}
use wiredesk.Base.Bytes.{Bytes}
use wiredesk.Base.Chunks.{joined}
use wiredesk.Host.Session.Pump.{ShellEvent, output, exit, gather}

-- The output among a shell's events.
abbrev pub output_of : List ShellEvent → Bytes
output_of [] = []
output_of (output bytes ∷ rest) = bytes ++ output_of rest
output_of (exit code ∷ rest) = output_of rest

pub gather-all :
    (budget : ℕ) (out : Bytes) (events : List ShellEvent)
    → (gather budget out events).out ++ output_of (gather budget out events).left
      ≡ out ++ output_of events
unfolding gather
gather-all budget out [] = refl
gather-all budget out (output bytes ∷ rest) = elim (Bool-cases (ltb (length out) budget)) [
  | inl t ↦ rw t (gather-all budget (out ++ bytes) rest ∙ append_assoc out bytes (output_of rest))
  | inr n ↦ rw n refl
]
gather-all budget out (exit code ∷ rest) = elim (Bool-cases (ltb (length out) budget)) [
  | inl t ↦ rw t refl
  | inr n ↦ rw n refl
]

-- A budget that is met takes nothing more.
gather-full :
    (budget : ℕ) (out : Bytes) (events : List ShellEvent)
    → ltb (length out) budget ≡ false
    → gather budget out events ≡ record { out = out; code = none; left = events }
unfolding gather
gather-full budget out [] h = refl
gather-full budget out (output bytes ∷ rest) h = rw h refl
gather-full budget out (exit code ∷ rest) h = rw h refl

-- Reads below the budget are all taken.
gather-below :
    (budget : ℕ) (out : Bytes) (reads : List Bytes) (events : List ShellEvent)
    → length (out ++ joined reads) < budget
    → gather budget out (map output reads ++ events) ≡ gather budget (out ++ joined reads) events
unfolding gather
gather-below budget out [] events h = rw (append-nil out) refl
gather-below budget out (bytes ∷ reads) events h =
    rw (room, sym (append_assoc out bytes (joined reads)))
      (gather-below budget (out ++ bytes) reads events below)
  where
    below : length ((out ++ bytes) ++ joined reads) < budget
    below = rw (append_assoc out bytes (joined reads)) h

    room : ltb (length out) budget ≡ true
    room = ground (arith, length-append out (bytes ++ joined reads))

pub gather-reads :
    (budget : ℕ) (reads : List Bytes) (bytes : Bytes) (late : List ShellEvent)
    → length (joined reads) < budget
    → budget ≤ length (joined reads ++ bytes)
    → gather budget [] (map output reads ++ output bytes ∷ late)
      ≡ record { out = joined reads ++ bytes; code = none; left = late }
unfolding gather
gather-reads budget reads bytes late pos full =
    gather-below budget [] reads (output bytes ∷ late) pos
    ∙ rw (room pos) (gather-full budget (joined reads ++ bytes) late (met full))
  where
    room : length (joined reads) < budget → ltb (length (joined reads)) budget ≡ true
    room h = ground arith

    met :
        budget ≤ length (joined reads ++ bytes)
        → ltb (length (joined reads ++ bytes)) budget ≡ false
    met h = ground arith
