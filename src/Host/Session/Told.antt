-- ===== src/Host/Session/Told.antt =====
-- What the messages that a pump sends tell of a shell.
use wiredesk.Base.{
  ℕ, ◌≤◌, ◌≡◌, refl, sym, ap, ◌∙◌, Bool, true, false, inl, inr, List, [], ◌∷◌, ◌++◌, append_assoc,
  Option, none, All, All-append, Bool-cases, length,
}
use wiredesk.Base.Bytes.{Bytes}
use wiredesk.Base.Int.{ℤ}
use wiredesk.Protocol.Message.{Message}
use wiredesk.Host.Flow.{ShellSlot}
use wiredesk.Host.Session.{Session, Call, sent, Outcome, prepend, and_then}
use wiredesk.Host.Session.Pump.{proc_of}

-- The shell output in a message, and in the messages that were sent.
abbrev pub bytes_of : Call → Bytes
bytes_of (sent n (Message.shell_output bytes)) = bytes
bytes_of (sent n (Message.pty_output bytes)) = bytes
bytes_of _ = []

abbrev pub shell_bytes : List Call → Bytes
shell_bytes [] = []
shell_bytes (c ∷ cs) = bytes_of c ++ shell_bytes cs

-- A packet of output or an exit, in the opcodes of a slot, with no more output than a packet takes.
abbrev pub IsSpoken : Bool → Call → Type 0
IsSpoken legacy (sent n (Message.shell_output bytes)) = (legacy ≡ true) × (length bytes ≤ 4096)
IsSpoken legacy (sent n (Message.pty_output bytes)) = (legacy ≡ false) × (length bytes ≤ 4096)
IsSpoken legacy (sent n (Message.shell_exit code)) = legacy ≡ true
IsSpoken legacy (sent n (Message.pty_exit code)) = legacy ≡ false
IsSpoken legacy _ = ⊥

-- The exit codes in the messages that were sent.
abbrev pub code_of : Call → List ℤ
code_of (sent n (Message.shell_exit code)) = code ∷ []
code_of (sent n (Message.pty_exit code)) = code ∷ []
code_of _ = []

abbrev pub exits_of : List Call → List ℤ
exits_of [] = []
exits_of (c ∷ cs) = code_of c ++ exits_of cs

-- A slot is as it was where no exit was reported, and empty where one was; two never are.
abbrev pub IsReported : List ℤ → Option ℕ → Option ℕ → Type 0
IsReported [] before after = after ≡ before
IsReported (code ∷ []) before after = after ≡ none
IsReported (code ∷ more ∷ rest) before after = ⊥

pub exits_of-append : (cs ds : List Call) → exits_of (cs ++ ds) ≡ exits_of cs ++ exits_of ds
exits_of-append [] ds = refl
exits_of-append (c ∷ cs) ds =
    ap (λ (t : List ℤ). code_of c ++ t) (exits_of-append cs ds)
    ∙ sym (append_assoc (code_of c) (exits_of cs) (exits_of ds))

pub shell_bytes-append :
    (cs ds : List Call) → shell_bytes (cs ++ ds) ≡ shell_bytes cs ++ shell_bytes ds
shell_bytes-append [] ds = refl
shell_bytes-append (c ∷ cs) ds =
    ap (λ (t : Bytes). bytes_of c ++ t) (shell_bytes-append cs ds)
    ∙ sym (append_assoc (bytes_of c) (shell_bytes cs) (shell_bytes ds))

-- Code whose sends are all fine, up to its end.
abbrev pub IsSent : Outcome → Bytes → Type 0
IsSent o bytes = (o.ok ≡ true) × (shell_bytes o.calls ≡ bytes)

pub and_then-IsSent :
    (o : Outcome) (next : Session → Outcome) (s t : Bytes)
    → IsSent o s
    → IsSent (next o.session) t
    → IsSent (and_then o next) (s ++ t)
unfolding and_then prepend
and_then-IsSent o next s t a b =
    rw a.0 (b.0, shell_bytes-append o.calls (next o.session).calls ∙ (λ i. a.1 i ++ b.1 i))

pub and_then-session :
    (o : Outcome) (next : Session → Outcome)
    → o.ok ≡ true
    → (and_then o next).session ≡ (next o.session).session
unfolding and_then prepend
and_then-session o next h = rw h refl

pub and_then-IsSpoken :
    (legacy : Bool) (o : Outcome) (next : Session → Outcome)
    → All (IsSpoken legacy) o.calls
    → All (IsSpoken legacy) (next o.session).calls
    → All (IsSpoken legacy) (and_then o next).calls
unfolding and_then prepend
and_then-IsSpoken legacy o next a b = elim (Bool-cases o.ok) [
  | inl t ↦ rw t (All-append (IsSpoken legacy) o.calls (next o.session).calls a b)
  | inr n ↦ rw n a
]

-- Code that reports no exit and leaves a slot as it was.
abbrev pub IsKept : ShellSlot → Session → Outcome → Type 0
IsKept slot s o = (exits_of o.calls ≡ []) × (proc_of slot o.session ≡ proc_of slot s)

pub and_then-IsKept :
    (slot : ShellSlot) (s : Session) (o : Outcome) (next : Session → Outcome)
    → IsKept slot s o
    → IsKept slot o.session (next o.session)
    → IsKept slot s (and_then o next)
unfolding and_then prepend
and_then-IsKept slot s o next a b = elim (Bool-cases o.ok) [
  | inl t ↦ rw t (exits_of-append o.calls (next o.session).calls ∙ (λ i. a.0 i ++ b.0 i), b.1 ∙ a.1)
  | inr n ↦ rw n a
]
