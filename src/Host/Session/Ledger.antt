-- ===== src/Host/Session/Ledger.antt =====
-- Each arm about the shells accounts for its processes.
use wiredesk.Base.{
  ℕ, ◌+◌, ◌≡◌, refl, ap, ◌∙◌, Bool, false, ◌||◌, inl, inr, List, [], ◌∷◌, Option, none, some,
  if◌then◌else◌, Bool-cases, arith,
}
use wiredesk.Base.Bytes.{Bytes}
use wiredesk.Protocol.Message.{Message}
use wiredesk.Host.Session.{
  PtySlot, Session, Machine, Call, closed, wrote, with_calls, send, pty_proc, warm_proc, exec_kill,
  pty_kill, is_some, is_legacy, same_argv, warm_matches, Taken, take_spawned, take_warm,
  take_warm_or_spawn,
}
use wiredesk.Host.Session.Shells.{
  err_shell_busy, err_shell_spawn, err_pty_busy, err_pty_spawn, open_taken, shell_open, open_legacy,
  shell_open_pty, open_dedicated, pty_open, resize_slot, write_legacy, write_exec, shell_input,
  write_dedicated, pty_input, close_legacy, close_exec, shell_close, close_dedicated, pty_close,
}
use wiredesk.Host.Session.Accounts.{
  is, held, started_by, ended_by, started, ended, Balanced, prepend-Balanced, and_then-Balanced,
  done-Balanced, send-Balanced, exec_kill-Balanced, pty_kill-Balanced, warm_up-Balanced, neutral,
}

-- A call that starts and kills no process.
pub calls-Balanced :
    (s : Session) (c : Call)
    → ((x : ℕ) → started_by x c ≡ ended_by x c)
    → Balanced s (with_calls (c ∷ []) s)
unfolding Balanced
calls-Balanced s c h x = omega (arith, h x)

no_shell {ℓ} : {A : Type ℓ} (o : Option A) (b : Bool) → (is_some o || b) ≡ false → o ≡ none
no_shell none b h = refl
no_shell (some a) b h = cc

warm_matches-proc :
    (want : List Bytes) (w : Option (List Bytes × ℕ)) {proc : ℕ}
    → warm_matches want w ≡ some proc
    → warm_proc w ≡ some proc
warm_matches-proc want none h = cc
warm_matches-proc want (some (argv, p)) h = elim (Bool-cases (same_argv argv want)) [
  | inl t ↦ rw t at h
  | inr n ↦ cc (rw n at h)
]

-- The shell that is taken comes out of the warm slot, or is started.
take-Balanced :
    (e : Machine) (s : Session) (shell : Bytes) (x : ℕ)
    → held x (take_warm_or_spawn e s shell).session
        + is x (take_warm_or_spawn e s shell).proc
        + ended x (take_warm_or_spawn e s shell).calls
      ≡ held x s + started x (take_warm_or_spawn e s shell).calls
unfolding take_warm_or_spawn
take-Balanced e s shell x =
    go (warm_matches (e.shell_argv shell) s.warm)
      (λ p h. warm_matches-proc (e.shell_argv shell) s.warm h)
  where
    fresh :
        (o : Option ℕ)
        → held x (take_spawned s o).session
            + is x (take_spawned s o).proc
            + ended x (take_spawned s o).calls
          ≡ held x s + started x (take_spawned s o).calls
    fresh none = omega arith
    fresh (some proc) = omega arith

    go :
        (m : Option ℕ)
        → ((proc : ℕ) → m ≡ some proc → warm_proc s.warm ≡ some proc)
        → held x (take_warm e s shell m).session
            + is x (take_warm e s shell m).proc
            + ended x (take_warm e s shell m).calls
          ≡ held x s + started x (take_warm e s shell m).calls
    go none h = fresh (e.spawn shell none)
    go (some proc) h = omega (arith, ap (is x) (h proc refl))

take-exec :
    (e : Machine) (s : Session) (shell : Bytes)
    → (take_warm_or_spawn e s shell).session.exec ≡ s.exec
unfolding take_warm_or_spawn
take-exec e s shell = go (warm_matches (e.shell_argv shell) s.warm)
  where
    fresh : (o : Option ℕ) → (take_spawned s o).session.exec ≡ s.exec
    fresh none = refl
    fresh (some proc) = refl

    go : (m : Option ℕ) → (take_warm e s shell m).session.exec ≡ s.exec
    go none = fresh (e.spawn shell none)
    go (some proc) = refl

open_taken-Balanced :
    (e : Machine) (s : Session) (t : Taken) (o : Option ℕ)
    → o ≡ t.proc
    → s.exec ≡ none
    → t.session.exec ≡ s.exec
    → ((x : ℕ) → held x t.session + is x t.proc + ended x t.calls ≡ held x s + started x t.calls)
    → Balanced s (open_taken e t o)
open_taken-Balanced e s t none p n k b =
    prepend-Balanced s t.session t.calls _ (λ x. omega (arith, b x, ap (is x) p))
      (send-Balanced e t.session (Message.error err_shell_spawn []))
open_taken-Balanced e s t (some proc) p n k b =
    prepend-Balanced s (record t.session { exec = some proc }) t.calls _
      (λ x. omega (arith, b x, ap (is x) p, ap (is x) (k ∙ n)))
      (warm_up-Balanced e (record t.session { exec = some proc }))

pub shell_open-Balanced :
    (e : Machine) (s : Session) (shell : Bytes) → Balanced s (shell_open e s shell)
unfolding shell_open
shell_open-Balanced e s shell = elim (Bool-cases (is_some s.exec || is_legacy s.pty)) [
  | inl t ↦ rw t (send-Balanced e s (Message.error err_shell_busy []))
  | inr n ↦
      let taken = take_warm_or_spawn e s shell in
      rw n (
        open_taken-Balanced e s taken taken.proc refl (no_shell s.exec (is_legacy s.pty) n)
          (take-exec e s shell) (take-Balanced e s shell))
]

open_legacy-Balanced :
    (e : Machine) (s : Session) (o : Option ℕ) → s.pty ≡ none → Balanced s (open_legacy e s o)
unfolding Balanced
open_legacy-Balanced e s none h = send-Balanced e s (Message.error err_shell_spawn [])
open_legacy-Balanced e s (some proc) h = λ x. omega (arith, ap (λ o. is x (pty_proc o)) h)

pub shell_open_pty-Balanced :
    (e : Machine) (s : Session) (shell : Bytes) (cols rows : ℕ)
    → Balanced s (shell_open_pty e s shell cols rows)
unfolding shell_open_pty
shell_open_pty-Balanced e s shell cols rows = elim (Bool-cases (is_some s.pty || is_some s.exec)) [
  | inl t ↦ rw t (send-Balanced e s (Message.error err_shell_busy []))
  | inr n ↦ rw n (open_legacy-Balanced e s _ (no_shell s.pty (is_some s.exec) n))
]

open_dedicated-Balanced :
    (e : Machine) (s : Session) (o : Option ℕ) → s.pty ≡ none → Balanced s (open_dedicated e s o)
unfolding Balanced
open_dedicated-Balanced e s none h = send-Balanced e s (Message.error err_pty_spawn [])
open_dedicated-Balanced e s (some proc) h = λ x. omega (arith, ap (λ o. is x (pty_proc o)) h)

pub pty_open-Balanced :
    (e : Machine) (s : Session) (shell : Bytes) (cols rows : ℕ)
    → Balanced s (pty_open e s shell cols rows)
unfolding pty_open
pty_open-Balanced e s shell cols rows = opened (e.spawn shell (some (cols, rows))) s.pty refl
  where
    opened :
        (o : Option ℕ) (slot : Option PtySlot)
        → s.pty ≡ slot
        → Balanced s (
            if is_some slot then send e s (Message.error err_pty_busy []) else open_dedicated e s o)
    opened o none h = open_dedicated-Balanced e s o h
    opened o (some slot) h = send-Balanced e s (Message.error err_pty_busy [])

pub resize_slot-Balanced :
    (e : Machine) (s : Session) (o : Option PtySlot) (cols rows : ℕ)
    → Balanced s (resize_slot e s o cols rows)
unfolding Balanced
resize_slot-Balanced e s none cols rows = done-Balanced s
resize_slot-Balanced e s (some slot) cols rows = λ x. omega arith

write_legacy-Balanced :
    (s : Session) (o : Option PtySlot) (bytes : Bytes) → Balanced s (write_legacy s o bytes)
write_legacy-Balanced s none bytes = done-Balanced s
write_legacy-Balanced s (some slot) bytes = elim (Bool-cases slot.legacy) [
  | inl t ↦ rw t (calls-Balanced s (wrote slot.proc bytes) (λ x. refl))
  | inr n ↦ rw n (done-Balanced s)
]

pub shell_input-Balanced : (s : Session) (bytes : Bytes) → Balanced s (shell_input s bytes)
unfolding shell_input
shell_input-Balanced s bytes = go s.exec
  where
    go : (o : Option ℕ) → Balanced s (write_exec s o bytes)
    go (some proc) = calls-Balanced s (wrote proc bytes) (λ x. refl)
    go none = write_legacy-Balanced s s.pty bytes

pub pty_input-Balanced :
    (e : Machine) (s : Session) (bytes : Bytes) → Balanced s (pty_input e s bytes)
unfolding pty_input Balanced
pty_input-Balanced e s bytes = go s.pty
  where
    go : (o : Option PtySlot) → Balanced s (write_dedicated e s o bytes)
    go none = done-Balanced s
    go (some slot) = elim (Bool-cases slot.legacy) [
      | inl t ↦ rw t (done-Balanced s)
      | inr n ↦ rw n (λ x. omega arith)
    ]

close_legacy-Balanced :
    (e : Machine) (s : Session) (o : Option PtySlot) → Balanced s (close_legacy e s o)
close_legacy-Balanced e s none = done-Balanced s
close_legacy-Balanced e s (some slot) = elim (Bool-cases slot.legacy) [
  | inr n ↦ rw n (done-Balanced s)
  | inl t ↦ rw t (
      neutral s (closed slot.proc) _ (λ x. refl)
        (and_then-Balanced s (pty_kill s) _ (pty_kill-Balanced s)
          (send-Balanced e (pty_kill s).session Message.shell_closed)))
]

pub shell_close-Balanced : (e : Machine) (s : Session) → Balanced s (shell_close e s)
unfolding shell_close
shell_close-Balanced e s = go s.exec
  where
    go : (o : Option ℕ) → Balanced s (close_exec e s o)
    go none = close_legacy-Balanced e s s.pty
    go (some proc) =
        neutral s (closed proc) _ (λ x. refl)
          (and_then-Balanced s (exec_kill s) _ (exec_kill-Balanced s)
            (send-Balanced e (exec_kill s).session Message.shell_closed))

pub pty_close-Balanced : (s : Session) → Balanced s (pty_close s)
unfolding pty_close
pty_close-Balanced s = go s.pty
  where
    go : (o : Option PtySlot) → Balanced s (close_dedicated s o)
    go none = done-Balanced s
    go (some slot) = elim (Bool-cases slot.legacy) [
      | inl t ↦ rw t (done-Balanced s)
      | inr n ↦ rw n (neutral s (closed slot.proc) (pty_kill s) (λ x. refl) (pty_kill-Balanced s))
    ]
