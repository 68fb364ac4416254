-- ===== src/Host/Session/Slots.antt =====
-- Which slots may be filled at the same time, and when.
use wiredesk.Base.{
  ℕ, ◌≡◌, refl, sym, ap, ◌∙◌, Bool, true, false, not, ◌||◌, inl, inr, List, [], Option, none, some,
  ◌==◌, Bool-cases,
}
use wiredesk.Base.Bytes.{Bytes}
use wiredesk.Protocol.Message.{Message, version, host_proto_version}
use wiredesk.Host.Flow.{new}
use wiredesk.Host.Clipboard.Incoming.{reset}
use wiredesk.Host.Session.{
  waiting_for_hello, connected, Session, Machine, Call, Outcome, prepend, and_then, send,
  note_pty_activity, kill_all_shells, reset_clipboard, is_some, is_legacy, keep_warm, warm_up,
  warm_matches, Taken, take_spawned, take_warm, take_warm_or_spawn,
}
use wiredesk.Host.Session.Shells.{
  err_shell_busy, err_shell_spawn, err_pty_busy, err_pty_spawn, open_taken, shell_open, open_legacy,
  shell_open_pty, open_dedicated, pty_open,
}
use wiredesk.Host.Session.Handler.{hello, tear_down, disconnect, rehello, is_connected}

-- A legacy console excludes an exec shell, and a session without a client has no shell.
pub record IsSession (s : Session) : Type 0 where
  pub idle : is_connected s.state ≡ false → (s.exec ≡ none) × (s.pty ≡ none)
  pub alone : is_legacy s.pty ≡ true → s.exec ≡ none

pub prepend-IsSession :
    (cs : List Call) (o : Outcome) → IsSession o.session → IsSession (prepend cs o).session
unfolding prepend
prepend-IsSession cs o w = w

pub and_then-IsSession :
    (o : Outcome) (next : Session → Outcome)
    → IsSession o.session
    → IsSession (next o.session).session
    → IsSession (and_then o next).session
unfolding and_then
and_then-IsSession o next w n = elim (Bool-cases o.ok) [ inl t ↦ rw t n | inr f ↦ rw f w ]

-- Another session with the same state and slots.
same-IsSession :
    (s t : Session)
    → s.state ≡ t.state
    → s.exec ≡ t.exec
    → s.pty ≡ t.pty
    → IsSession s
    → IsSession t
same-IsSession s t a b c w = record {
  idle = λ h. let (x, y) = w.idle (ap is_connected a ∙ h) in (sym b ∙ x, sym c ∙ y);
  alone = λ h. sym b ∙ w.alone (ap is_legacy c ∙ h);
}

pub send-IsSession :
    (e : Machine) (s : Session) (m : Message) → IsSession s → IsSession (send e s m).session
unfolding send
send-IsSession e s m w = record { idle = w.idle; alone = w.alone }

-- A session without shells is fit in every state.
empty-IsSession : (s : Session) → s.exec ≡ none → s.pty ≡ none → IsSession s
empty-IsSession s a b = record { idle = λ h. (a, b); alone = λ h. a }

warm_up-slots :
    (e : Machine) (s : Session)
    → ((warm_up e s).session.state ≡ s.state)
      × ((warm_up e s).session.exec ≡ s.exec)
      × ((warm_up e s).session.pty ≡ s.pty)
unfolding warm_up
warm_up-slots e s = elim (Bool-cases (not s.warm_enabled || is_some s.warm)) [
  | inl t ↦ rw t (refl, refl, refl)
  | inr n ↦ rw n (kept e.spawn_warm)
]
  where
    kept :
        (o : Option ℕ)
        → ((keep_warm e s o).session.state ≡ s.state)
          × ((keep_warm e s o).session.exec ≡ s.exec)
          × ((keep_warm e s o).session.pty ≡ s.pty)
    kept none = (refl, refl, refl)
    kept (some proc) = (refl, refl, refl)

warm_up-IsSession : (e : Machine) (s : Session) → IsSession s → IsSession (warm_up e s).session
warm_up-IsSession e s w =
    let (a, b, c) = warm_up-slots e s in
    same-IsSession s (warm_up e s).session (sym a) (sym b) (sym c) w

pub hello-IsSession :
    (e : Machine) (s : Session) (v : ℕ) (name : Bytes)
    → s.exec ≡ none
    → s.pty ≡ none
    → IsSession (hello e s v name).session
unfolding hello
hello-IsSession e s v name a b = elim (Bool-cases (v == version)) [
  | inr n ↦ rw n (send-IsSession e s (Message.error 1 []) (empty-IsSession s a b))
  | inl t ↦
      let met = record s { client_name = some name; flow = new e.now } in
      let ack = Message.hello_ack host_proto_version s.host_name s.screen_w s.screen_h in
      let told = (send e met ack).session in
      let greeted = record told { state = connected; last_heartbeat_recv = e.now } in
      rw t (
        prepend-IsSession _ _ (
          and_then-IsSession (send e met ack) _ (send-IsSession e met ack (empty-IsSession met a b))
            (warm_up-IsSession e greeted (empty-IsSession greeted a b))))
]

pub tear_down-IsSession : (s : Session) → IsSession (tear_down s).session
unfolding tear_down kill_all_shells reset_clipboard and_then prepend
tear_down-IsSession s = empty-IsSession _ refl refl

pub disconnect-IsSession :
    (e : Machine) (s : Session) → IsSession s → IsSession (disconnect e s).session
unfolding disconnect
disconnect-IsSession e s w = elim (Bool-cases e.releases) [
  | inl t ↦ rw t (prepend-IsSession _ (tear_down s) (tear_down-IsSession s))
  | inr n ↦ rw n (prepend-IsSession _ (record { session = s; calls = []; ok = false }) w)
]

pub rehello-IsSession :
    (e : Machine) (s : Session) (v : ℕ) (name : Bytes) → IsSession (rehello e s v name).session
unfolding rehello kill_all_shells reset_clipboard and_then prepend
rehello-IsSession e s v name =
    hello-IsSession e
      (record s {
        clipboard = (reset s.clipboard).0;
        exec = none;
        pty = none;
        state = waiting_for_hello;
        client_name = none;
      })
      v name refl refl

-- A connected session with no legacy console.
open-IsSession : (s : Session) → is_connected s.state ≡ true → is_legacy s.pty ≡ false → IsSession s
open-IsSession s c l = record { idle = λ h. cc (c, h); alone = λ h. cc (l, h) }

take-slots :
    (e : Machine) (s : Session) (shell : Bytes)
    → ((take_warm_or_spawn e s shell).session.state ≡ s.state)
      × ((take_warm_or_spawn e s shell).session.pty ≡ s.pty)
unfolding take_warm_or_spawn
take-slots e s shell = go (warm_matches (e.shell_argv shell) s.warm)
  where
    fresh :
        (o : Option ℕ)
        → ((take_spawned s o).session.state ≡ s.state) × ((take_spawned s o).session.pty ≡ s.pty)
    fresh none = (refl, refl)
    fresh (some proc) = (refl, refl)

    go :
        (m : Option ℕ)
        → ((take_warm e s shell m).session.state ≡ s.state)
          × ((take_warm e s shell m).session.pty ≡ s.pty)
    go none = fresh (e.spawn shell none)
    go (some proc) = (refl, refl)

no_legacy : (a b : Bool) → (a || b) ≡ false → b ≡ false
no_legacy true b h = cc
no_legacy false b h = h

pub shell_open-IsSession :
    (e : Machine) (s : Session) (shell : Bytes)
    → is_connected s.state ≡ true
    → IsSession s
    → IsSession (shell_open e s shell).session
unfolding shell_open
shell_open-IsSession e s shell c w = elim (Bool-cases (is_some s.exec || is_legacy s.pty)) [
  | inl t ↦ rw t (send-IsSession e s (Message.error err_shell_busy []) w)
  | inr n ↦
      let taken = take_warm_or_spawn e s shell in
      let (a, b) = take-slots e s shell in
      rw n (
        opened taken taken.proc (ap is_connected a ∙ c)
          (ap is_legacy b ∙ no_legacy (is_some s.exec) (is_legacy s.pty) n))
]
  where
    opened :
        (t : Taken) (o : Option ℕ)
        → is_connected t.session.state ≡ true
        → is_legacy t.session.pty ≡ false
        → IsSession (open_taken e t o).session
    opened t none a b =
        prepend-IsSession t.calls (send e t.session (Message.error err_shell_spawn [])) (
          send-IsSession e t.session (Message.error err_shell_spawn [])
            (open-IsSession t.session a b))
    opened t (some proc) a b = prepend-IsSession t.calls _ (
        warm_up-IsSession e (record t.session { exec = some proc })
          (open-IsSession (record t.session { exec = some proc }) a b))

no_exec {ℓ} : {A : Type ℓ} (o : Option A) → is_some o ≡ false → o ≡ none
no_exec none h = refl
no_exec (some a) h = cc

pub shell_open_pty-IsSession :
    (e : Machine) (s : Session) (shell : Bytes) (cols rows : ℕ)
    → is_connected s.state ≡ true
    → IsSession s
    → IsSession (shell_open_pty e s shell cols rows).session
unfolding shell_open_pty
shell_open_pty-IsSession e s shell cols rows c w =
    elim (Bool-cases (is_some s.pty || is_some s.exec)) [
      | inl t ↦ rw t (send-IsSession e s (Message.error err_shell_busy []) w)
      | inr n ↦ rw n (
          opened (e.spawn shell (some (cols, rows)))
            (no_exec s.exec (no_legacy (is_some s.pty) (is_some s.exec) n)))
    ]
  where
    opened : (o : Option ℕ) → s.exec ≡ none → IsSession (open_legacy e s o).session
    opened none h = send-IsSession e s (Message.error err_shell_spawn []) w
    opened (some proc) h = record { idle = λ k. cc (c, k); alone = λ k. h }

pub pty_open-IsSession :
    (e : Machine) (s : Session) (shell : Bytes) (cols rows : ℕ)
    → is_connected s.state ≡ true
    → IsSession s
    → IsSession (pty_open e s shell cols rows).session
unfolding pty_open
pty_open-IsSession e s shell cols rows c w = elim (Bool-cases (is_some s.pty)) [
  | inl t ↦ rw t (send-IsSession e s (Message.error err_pty_busy []) w)
  | inr n ↦ rw n (opened (e.spawn shell (some (cols, rows))))
]
  where
    opened : (o : Option ℕ) → IsSession (open_dedicated e s o).session
    opened none = send-IsSession e s (Message.error err_pty_spawn []) w
    opened (some proc) =
        open-IsSession
          (note_pty_activity e (record s { pty = some (record { proc = proc; legacy = false }) })) c
          refl
