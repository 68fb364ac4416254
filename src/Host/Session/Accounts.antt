-- ===== src/Host/Session/Accounts.antt =====
-- Which processes the session holds.
use wiredesk.Base.{
  ℕ, ◌+◌, ◌≡◌, refl, ap, ◌∙◌, Bool, true, false, not, ◌||◌, inl, inr, List, [], ◌∷◌, ◌++◌, Option,
  none, some, ◌==◌, if◌then◌else◌, Bool-cases, arith,
}
use wiredesk.Base.Bytes.{Bytes}
use wiredesk.Protocol.Message.{Message, version, host_proto_version}
use wiredesk.Host.Flow.{new}
use wiredesk.Host.Clipboard.Incoming.{Effect, reset}
use wiredesk.Host.Session.{
  waiting_for_hello, connected, Session, Machine, Call, spawned, killed, browser_reset, released,
  Outcome, done, prepend, and_then, send, kill_calls, pty_proc, warm_proc, exec_kill, pty_kill,
  warm_kill, kill_all_shells, clipboard_calls, reset_clipboard, is_some, keep_warm, warm_up,
}
use wiredesk.Host.Session.Handler.{hello, tear_down, disconnect, rehello}

abbrev pub is : ℕ → Option ℕ → ℕ
is x none = 0
is x (some proc) = if x == proc then 1 else 0

-- How often the session holds a process: in its slots, and warm.
abbrev pub held : ℕ → Session → ℕ
held x s = is x s.exec + is x (pty_proc s.pty) + is x (warm_proc s.warm)

abbrev pub started_by : ℕ → Call → ℕ
started_by x (spawned proc) = if x == proc then 1 else 0
started_by x _ = 0

abbrev pub ended_by : ℕ → Call → ℕ
ended_by x (killed proc) = if x == proc then 1 else 0
ended_by x _ = 0

-- How often it was started and killed.
abbrev pub started : ℕ → List Call → ℕ
started x [] = 0
started x (c ∷ cs) = started_by x c + started x cs

abbrev pub ended : ℕ → List Call → ℕ
ended x [] = 0
ended x (c ∷ cs) = ended_by x c + ended x cs

unfoldable pub Balanced : Session → Outcome → Type 0
Balanced s o = (x : ℕ) → held x o.session + ended x o.calls ≡ held x s + started x o.calls

pub started-append :
    (x : ℕ) (cs ds : List Call) → started x (cs ++ ds) ≡ started x cs + started x ds
started-append x [] ds = omega arith
started-append x (c ∷ cs) ds = omega (arith, started-append x cs ds)

pub ended-append : (x : ℕ) (cs ds : List Call) → ended x (cs ++ ds) ≡ ended x cs + ended x ds
ended-append x [] ds = omega arith
ended-append x (c ∷ cs) ds = omega (arith, ended-append x cs ds)

pub prepend-Balanced :
    (s t : Session) (cs : List Call) (o : Outcome)
    → ((x : ℕ) → held x t + ended x cs ≡ held x s + started x cs)
    → Balanced t o
    → Balanced s (prepend cs o)
unfolding Balanced prepend
prepend-Balanced s t cs o h b x =
    omega (arith, started-append x cs o.calls, ended-append x cs o.calls, h x, b x)

pub and_then-Balanced :
    (s : Session) (o : Outcome) (next : Session → Outcome)
    → Balanced s o
    → Balanced o.session (next o.session)
    → Balanced s (and_then o next)
unfolding and_then Balanced
and_then-Balanced s o next b n = elim (Bool-cases o.ok) [
  | inl t ↦ rw t (prepend-Balanced s o.session o.calls (next o.session) b n)
  | inr f ↦ rw f b
]

-- Another session with the same processes.
pub same-Balanced :
    (s t : Session) (o : Outcome) → ((x : ℕ) → held x t ≡ held x s) → Balanced t o → Balanced s o
unfolding Balanced
same-Balanced s t o h b x = omega (arith, h x, b x)

pub done-Balanced : (s : Session) → Balanced s (done s)
unfolding Balanced
done-Balanced s x = omega arith

pub send-Balanced : (e : Machine) (s : Session) (msg : Message) → Balanced s (send e s msg)
unfolding send Balanced
send-Balanced e s msg x = omega arith

kills : (x : ℕ) (o : Option ℕ) → (ended x (kill_calls o) ≡ is x o) × (started x (kill_calls o) ≡ 0)
kills x none = (refl, refl)
kills x (some proc) = (omega arith, omega arith)

pub exec_kill-Balanced : (s : Session) → Balanced s (exec_kill s)
unfolding Balanced
exec_kill-Balanced s x = omega (arith, kills x s.exec)

pub pty_kill-Balanced : (s : Session) → Balanced s (pty_kill s)
unfolding Balanced
pty_kill-Balanced s x = omega (arith, kills x (pty_proc s.pty))

warm_kill-Balanced : (s : Session) → Balanced s (warm_kill s)
unfolding Balanced
warm_kill-Balanced s x = omega (arith, kills x (warm_proc s.warm))

kills_all :
    (x : ℕ) (a b : Option ℕ)
    → (ended x (kill_calls a ++ kill_calls b ++ browser_reset ∷ []) ≡ is x a + is x b)
      × (started x (kill_calls a ++ kill_calls b ++ browser_reset ∷ []) ≡ 0)
kills_all x a b =
    let shells = kill_calls a ++ kill_calls b in
    let outer = ended-append x shells (browser_reset ∷ []) in
    let inner = ended-append x (kill_calls a) (kill_calls b) in
    let outer' = started-append x shells (browser_reset ∷ []) in
    let inner' = started-append x (kill_calls a) (kill_calls b) in
    (
      omega (arith, outer, inner, kills x a, kills x b),
      omega (arith, outer', inner', kills x a, kills x b),
    )

kill_all_shells-Balanced : (s : Session) → Balanced s (kill_all_shells s)
unfolding kill_all_shells Balanced
kill_all_shells-Balanced s x =
    let (kill, start) = kills_all x s.exec (pty_proc s.pty) in
    let warm = is x (warm_proc s.warm) in
    let both = ap (λ (n : ℕ). 0 + warm + n) kill in both ∙ omega (arith, start)

pub no_processes :
    (x : ℕ) (es : List Effect)
    → (ended x (clipboard_calls es) ≡ 0) × (started x (clipboard_calls es) ≡ 0)
no_processes x [] = (refl, refl)
no_processes x (effect ∷ es) =
    let (a, b) = no_processes x es in (omega (arith, a), omega (arith, b))

reset_clipboard-Balanced : (s : Session) → Balanced s (reset_clipboard s)
unfolding reset_clipboard Balanced
reset_clipboard-Balanced s x = omega (arith, no_processes x (reset s.clipboard).1)

keep_warm-Balanced :
    (e : Machine) (s : Session) (o : Option ℕ)
    → is_some s.warm ≡ false
    → Balanced s (keep_warm e s o)
unfolding Balanced
keep_warm-Balanced e s none h x = omega arith
keep_warm-Balanced e s (some proc) h x = omega (arith, cold s.warm h)
  where
    cold : (w : Option (List Bytes × ℕ)) → is_some w ≡ false → is x (warm_proc w) ≡ 0
    cold none h = refl
    cold (some w) h = cc

pub warm_up-Balanced : (e : Machine) (s : Session) → Balanced s (warm_up e s)
unfolding warm_up
warm_up-Balanced e s = elim (Bool-cases (not s.warm_enabled || is_some s.warm)) [
  | inl t ↦ rw t (done-Balanced s)
  | inr n ↦ rw n (keep_warm-Balanced e s e.spawn_warm (off (not s.warm_enabled) (is_some s.warm) n))
]
  where
    off : (a b : Bool) → (a || b) ≡ false → b ≡ false
    off true b n = cc
    off false b n = n

pub neutral :
    (s : Session) (c : Call) (o : Outcome)
    → ((x : ℕ) → started_by x c ≡ ended_by x c)
    → Balanced s o
    → Balanced s (prepend (c ∷ []) o)
neutral s c o h b = prepend-Balanced s s (c ∷ []) o (λ x. omega (arith, h x)) b

pub hello-Balanced :
    (e : Machine) (s : Session) (v : ℕ) (client_name : Bytes) → Balanced s (hello e s v client_name)
unfolding hello
hello-Balanced e s v client_name = elim (Bool-cases (v == version)) [
  | inr n ↦ rw n (send-Balanced e s (Message.error 1 []))
  | inl t ↦
      let met = record s { client_name = some client_name; flow = new e.now } in
      let ack = Message.hello_ack host_proto_version s.host_name s.screen_w s.screen_h in
      let told = (send e met ack).session in
      let greeted = record told { state = connected; last_heartbeat_recv = e.now } in
      rw t (
        neutral s browser_reset _ (λ x. refl)
          (and_then-Balanced s (send e met ack) _
            (same-Balanced s met _ (λ x. refl) (send-Balanced e met ack))
            (same-Balanced told greeted _ (λ x. refl) (warm_up-Balanced e greeted))))
]

-- The fields that hold no process may change.
waiting-Balanced :
    (s : Session) → Balanced s (done (record s { state = waiting_for_hello; client_name = none }))
unfolding Balanced
waiting-Balanced s x = omega arith

failed-Balanced : (s : Session) → Balanced s (record { session = s; calls = []; ok = false })
unfolding Balanced
failed-Balanced s x = omega arith

tear_down-Balanced : (s : Session) → Balanced s (tear_down s)
unfolding tear_down
tear_down-Balanced s = and_then-Balanced s (kill_all_shells s) _ (kill_all_shells-Balanced s) (
    and_then-Balanced _ (warm_kill _) _ (warm_kill-Balanced _)
      (and_then-Balanced _ (reset_clipboard _) _ (reset_clipboard-Balanced _) (waiting-Balanced _)))

pub disconnect-Balanced : (e : Machine) (s : Session) → Balanced s (disconnect e s)
unfolding disconnect
disconnect-Balanced e s = neutral s released _ (λ x. refl) (ended-session e.releases)
  where
    ended-session :
        (b : Bool)
        → Balanced s (if b then tear_down s else record { session = s; calls = []; ok = false })
    ended-session true = tear_down-Balanced s
    ended-session false = failed-Balanced s

pub rehello-Balanced :
    (e : Machine) (s : Session) (v : ℕ) (client_name : Bytes)
    → Balanced s (rehello e s v client_name)
unfolding rehello
rehello-Balanced e s v client_name =
    let clean = (reset_clipboard s).session in
    let alone = (kill_all_shells clean).session in
    let waiting = record alone { state = waiting_for_hello; client_name = none } in
    neutral s released _ (λ x. refl)
      (and_then-Balanced s (reset_clipboard s) _ (reset_clipboard-Balanced s) (
        and_then-Balanced clean (kill_all_shells clean) _ (kill_all_shells-Balanced clean)
          (same-Balanced alone waiting _ (λ x. refl) (hello-Balanced e waiting v client_name))))
