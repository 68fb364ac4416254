-- ===== src/Host/Session/Shipped.antt =====
-- What becomes of the output that a pump has read.
use wiredesk.Base.{
  ℕ, ◌≤◌, ◌≡◌, refl, ap, ◌∙◌, Bool, true, false, inl, inr, List, [], ◌∷◌, append-nil, Option, none,
  some, ◌==◌, All, Bool-cases, length, arith,
}
use wiredesk.Base.Bytes.{Bytes}
use wiredesk.Base.Int.{ℤ}
use wiredesk.Base.Chunks.{joined, joined-chunks, chunks-bounded}
use wiredesk.Host.Flow.{ShellFlow, ShellSlot, note_sent}
use wiredesk.Host.Session.{Session, Machine, prepend, and_then, send}
use wiredesk.Host.Session.Pump.{
  Gathered, output_message, ship, split_shell_output, clear, report_exit, or_exited, mark_use,
  proc_of, speaks_legacy, deliver_output,
}
use wiredesk.Host.Session.Told.{
  IsSpoken, exits_of, IsReported, exits_of-append, IsSent, and_then-IsSent, and_then-session,
  and_then-IsSpoken, IsKept, and_then-IsKept,
}

module _ (e : Machine) where
  told :
      (s : Session) (legacy : Bool) (piece : Bytes)
      → e.sends s.seq ≡ true
      → IsSent (send e s (output_message legacy piece)) piece
  unfolding send
  told s true piece h = (h, append-nil piece)
  told s false piece h = (h, append-nil piece)

  ship-IsSent :
      (s : Session) (slot : ShellSlot) (legacy : Bool) (pieces : List Bytes)
      → ((n : ℕ) → e.sends n ≡ true)
      → IsSent (ship e s slot legacy pieces) (joined pieces)
  unfolding ship
  ship-IsSent s slot legacy [] h = (refl, refl)
  ship-IsSent s slot legacy (piece ∷ rest) h =
      let noted = record s { flow = note_sent s.flow slot (length piece) e.now } in
      and_then-IsSent (send e noted (output_message legacy piece)) (λ t. ship e t slot legacy rest)
        piece (joined rest) (told noted legacy piece (h s.seq))
        (ship-IsSent (send e noted (output_message legacy piece)).session slot legacy rest h)

  ship-IsSpoken :
      (s : Session) (slot : ShellSlot) (legacy : Bool) (pieces : List Bytes)
      → All (λ piece. length piece ≤ 4096) pieces
      → All (IsSpoken legacy) (ship e s slot legacy pieces).calls
  unfolding ship
  ship-IsSpoken s slot legacy [] h = tt
  ship-IsSpoken s slot legacy (piece ∷ rest) h =
      let noted = record s { flow = note_sent s.flow slot (length piece) e.now } in
      and_then-IsSpoken legacy (send e noted (output_message legacy piece))
        (λ t. ship e t slot legacy rest) (spoken noted legacy)
        (ship-IsSpoken (send e noted (output_message legacy piece)).session slot legacy rest h.1)
    where
      spoken :
          (t : Session) (legacy : Bool)
          → All (IsSpoken legacy) (send e t (output_message legacy piece)).calls
      spoken t true = ((refl, h.0), tt)
      spoken t false = ((refl, h.0), tt)

  report_exit-IsSent :
      (s : Session) (slot : ShellSlot) (legacy : Bool) (code : Option ℤ)
      → ((n : ℕ) → e.sends n ≡ true)
      → IsSent (report_exit e s slot legacy code) []
  unfolding send
  report_exit-IsSent s slot legacy none h = (refl, refl)
  report_exit-IsSent s slot true (some code) h = (h (clear slot s).seq, refl)
  report_exit-IsSent s slot false (some code) h = (h (clear slot s).seq, refl)

  report_exit-IsSpoken :
      (s : Session) (slot : ShellSlot) (legacy : Bool) (code : Option ℤ)
      → All (IsSpoken legacy) (report_exit e s slot legacy code).calls
  unfolding send
  report_exit-IsSpoken s slot legacy none = tt
  report_exit-IsSpoken s slot true (some code) = (refl, tt)
  report_exit-IsSpoken s slot false (some code) = (refl, tt)

  pub deliver_output-IsSent :
      (s : Session) (slot : ShellSlot) (g : Gathered) (exited : Option ℤ)
      → ((n : ℕ) → e.sends n ≡ true)
      → IsSent (deliver_output e s slot g exited) g.out
  unfolding deliver_output
  deliver_output-IsSent s slot g exited h =
      let legacy = speaks_legacy slot s in
      let shipped = ship e s slot legacy (split_shell_output g.out) in
      let all =
        and_then-IsSent shipped
          (λ t. report_exit e (mark_use e slot g.out t) slot legacy (or_exited g.code exited))
          (joined (split_shell_output g.out)) []
          (ship-IsSent s slot legacy (split_shell_output g.out) h)
          (report_exit-IsSent (mark_use e slot g.out shipped.session) slot legacy
            (or_exited g.code exited) h) in
      (
        all.0,
        all.1
            ∙ append-nil (joined (split_shell_output g.out))
            ∙ joined-chunks (length g.out) 4096 g.out (omega arith) (omega arith),
      )

  pub deliver_output-IsSpoken :
      (s : Session) (slot : ShellSlot) (g : Gathered) (exited : Option ℤ)
      → All (IsSpoken (speaks_legacy slot s)) (deliver_output e s slot g exited).calls
  unfolding deliver_output
  deliver_output-IsSpoken s slot g exited =
      let legacy = speaks_legacy slot s in
      let shipped = ship e s slot legacy (split_shell_output g.out) in
      and_then-IsSpoken legacy shipped
        (λ t. report_exit e (mark_use e slot g.out t) slot legacy (or_exited g.code exited))
        (ship-IsSpoken s slot legacy (split_shell_output g.out)
          (chunks-bounded (length g.out) 4096 g.out))
        (report_exit-IsSpoken (mark_use e slot g.out shipped.session) slot legacy
          (or_exited g.code exited))

  output-IsKept :
      (s : Session) (f : ShellFlow) (slot : ShellSlot) (legacy : Bool) (piece : Bytes)
      → IsKept slot s (send e (record s { flow = f }) (output_message legacy piece))
  unfolding send
  output-IsKept s f ShellSlot.exec true piece = (refl, refl)
  output-IsKept s f ShellSlot.exec false piece = (refl, refl)
  output-IsKept s f ShellSlot.pty true piece = (refl, refl)
  output-IsKept s f ShellSlot.pty false piece = (refl, refl)

  ship-IsKept :
      (s : Session) (slot : ShellSlot) (legacy : Bool) (pieces : List Bytes)
      → IsKept slot s (ship e s slot legacy pieces)
  unfolding ship
  ship-IsKept s slot legacy [] = (refl, refl)
  ship-IsKept s slot legacy (piece ∷ rest) =
      let flow = note_sent s.flow slot (length piece) e.now in
      let first = send e (record s { flow = flow }) (output_message legacy piece) in
      and_then-IsKept slot s first (λ t. ship e t slot legacy rest)
        (output-IsKept s flow slot legacy piece) (ship-IsKept first.session slot legacy rest)

  mark_use-proc_of :
      (slot : ShellSlot) (out : Bytes) (s : Session)
      → proc_of slot (mark_use e slot out s) ≡ proc_of slot s
  mark_use-proc_of ShellSlot.exec out s = refl
  mark_use-proc_of ShellSlot.pty out s = elim (Bool-cases (length out == 0)) [
    | inl t ↦ rw t refl
    | inr n ↦ rw n refl
  ]

  report_exit-IsReported :
      (s : Session) (slot : ShellSlot) (legacy : Bool) (code : Option ℤ)
      → IsReported
          (exits_of (report_exit e s slot legacy code).calls)
          (proc_of slot s)
          (proc_of slot (report_exit e s slot legacy code).session)
  unfolding send
  report_exit-IsReported s slot legacy none = refl
  report_exit-IsReported s ShellSlot.exec true (some code) = refl
  report_exit-IsReported s ShellSlot.exec false (some code) = refl
  report_exit-IsReported s ShellSlot.pty true (some code) = refl
  report_exit-IsReported s ShellSlot.pty false (some code) = refl

  pub deliver_output-IsReported :
      (s : Session) (slot : ShellSlot) (g : Gathered) (exited : Option ℤ)
      → ((n : ℕ) → e.sends n ≡ true)
      → IsReported
          (exits_of (deliver_output e s slot g exited).calls)
          (proc_of slot s)
          (proc_of slot (deliver_output e s slot g exited).session)
  unfolding deliver_output and_then prepend
  deliver_output-IsReported s slot g exited h =
      let legacy = speaks_legacy slot s in
      let shipped = ship e s slot legacy (split_shell_output g.out) in
      let marked = mark_use e slot g.out shipped.session in
      let code = or_exited g.code exited in
      let before = ship-IsKept s slot legacy (split_shell_output g.out) in
      let reported = report_exit-IsReported marked slot legacy code in
      rw
        (
          (ship-IsSent s slot legacy (split_shell_output g.out) h).0,
          exits_of-append shipped.calls (report_exit e marked slot legacy code).calls,
          before.0,
        )
        (rw (mark_use-proc_of slot g.out shipped.session ∙ before.1) at reported)

  report_exit-clears :
      (s : Session) (slot : ShellSlot) (legacy : Bool) (code : ℤ)
      → proc_of slot (report_exit e s slot legacy (some code)).session ≡ none
  unfolding send
  report_exit-clears s ShellSlot.exec legacy code = refl
  report_exit-clears s ShellSlot.pty legacy code = refl

  pub deliver_output-clears :
      (s : Session) (slot : ShellSlot) (g : Gathered) (code : ℤ)
      → ((n : ℕ) → e.sends n ≡ true)
      → g.code ≡ none
      → proc_of slot (deliver_output e s slot g (some code)).session ≡ none
  unfolding deliver_output
  deliver_output-clears s slot g code h c =
      let legacy = speaks_legacy slot s in
      let shipped = ship e s slot legacy (split_shell_output g.out) in
      let marked = mark_use e slot g.out shipped.session in
      rw c (
        ap (proc_of slot) (
          and_then-session shipped
            (λ t. report_exit e (mark_use e slot g.out t) slot legacy (or_exited none (some code)))
            (ship-IsSent s slot legacy (split_shell_output g.out) h).0)
        ∙ report_exit-clears marked slot legacy code)
