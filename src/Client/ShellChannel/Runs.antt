-- ===== src/Client/ShellChannel/Runs.antt =====
-- The channel over its runs: claims and drops in any order.
use wiredesk.Base.{
  ℕ, zero, suc, ◌+◌, ◌≤◌, ◌<◌, ◌≡◌, ◌⊎◌, refl, ap, Bool, true, false, inl, inr, List, [], ◌∷◌, some,
  lt→ltb, subst, Option-cases, length, get_elem?, All, arith,
}
use wiredesk.Client.ShellChannel.{
  ShellOwner, idle, exec, interactive, owner, System, Event, acquire, drop_guard, remove, acquired,
  dropped, step, run, start,
}
use wiredesk.Client.ShellChannel.Claims.{
  execs, consoles, flag, flag-le, IsCounted, length-remove, remove-Counts, release-IsCounted,
  Grants, try_acquire-Grants,
}

step-IsCounted :
    (s : System) (e : Event)
    → IsCounted s
    → length s.guards + 1 < 4294967296
    → IsCounted (step s e) × (length (step s e).guards ≤ length s.guards + 1)
unfolding step
step-IsCounted s (acquire kind dual) v h = elim (try_acquire-Grants s kind dual v h) [
  | inl granted ↦ rw (ap (acquired s kind) granted.1.1) (granted.1.2, omega arith)
  | inr refused ↦ rw (ap (acquired s kind) refused.1) (v, omega arith)
]
step-IsCounted s (drop_guard i) v h = elim (Option-cases (get_elem? s.guards i)) [
  | inl e ↦ rw (ap (dropped s i) e) (v, omega arith)
  | inr held ↦
      rw (ap (dropped s i) held.1)
        (release-IsCounted s i held.0 held.1 v, omega (arith, length-remove s.guards i))
]

run-IsCounted' :
    (events : List Event) (s : System)
    → IsCounted s
    → length s.guards + length events < 4294967296
    → IsCounted (run s events)
run-IsCounted' [] s v h = v
run-IsCounted' (e ∷ events) s v h =
    let one = step-IsCounted s e v (omega arith) in
    run-IsCounted' events (step s e) one.0 (omega (arith, one.1))

-- After fewer than 2^32 claims and drops from the start, the state counts the guards that are
-- alive: the count is that of the exec guards, and the flag stands for the console guards, of which
-- there is at most one.
pub run-IsCounted :
    (events : List Event)
    → length events < 4294967296
    → IsCounted (run start events) × (consoles (run start events).guards ≤ 1)
run-IsCounted events h =
    let v = run-IsCounted' events start (record { refs = refl; console = refl }) (omega arith) in
    (v, omega (arith, v.console, flag-le (run start events).channel.is_interactive))

-- The events of a host with one slot: no claim is made with `dual`.
abbrev pub IsSingle : Event → Type 0
IsSingle (acquire kind dual) = dual ≡ false
IsSingle (drop_guard i) = Unit

-- Not both kinds are held.
abbrev pub Exclusive : List ShellOwner → Type 0
Exclusive gs = (execs gs ≡ 0) ⊎ (consoles gs ≡ 0)

-- Who the guards say owns the channel: a console before an exec run.
abbrev pub owner_of : ℕ → ℕ → ShellOwner
owner_of zero zero = idle
owner_of (suc runs) zero = exec
owner_of zero (suc n) = interactive
owner_of (suc runs) (suc n) = interactive

owner-holding :
    (refs : ℕ) (on : Bool) (runs n : ℕ)
    → refs ≡ runs
    → flag on ≡ n
    → owner (record { exec_refs = refs; is_interactive = on }) ≡ owner_of runs n
unfolding owner
owner-holding refs true runs zero e f = absurd (omega arith)
owner-holding refs true zero (suc n) e f = refl
owner-holding refs true (suc runs) (suc n) e f = refl
owner-holding refs false runs (suc n) e f = absurd (omega arith)
owner-holding refs false zero zero e f = rw e refl
owner-holding refs false (suc runs) zero e f = rw (e, lt→ltb 0 (suc runs) (omega arith)) refl

Grants-Exclusive :
    (kind : ShellOwner) (gs : List ShellOwner) → Grants false kind gs → Exclusive (kind ∷ gs)
Grants-Exclusive idle gs g = elim g [ ]
Grants-Exclusive exec gs g = inr g
Grants-Exclusive interactive gs g = inl g.1

remove-Exclusive :
    (gs : List ShellOwner) (i : ℕ) (kind : ShellOwner)
    → get_elem? gs i ≡ some kind
    → Exclusive gs
    → Exclusive (remove gs i)
remove-Exclusive gs i kind e (inl x) = inl (omega (arith, (remove-Counts gs i kind e).0))
remove-Exclusive gs i kind e (inr x) = inr (omega (arith, (remove-Counts gs i kind e).1))

step-Exclusive :
    (s : System) (e : Event)
    → IsSingle e
    → IsCounted s
    → length s.guards + 1 < 4294967296
    → Exclusive s.guards
    → Exclusive (step s e).guards
unfolding step
step-Exclusive s (acquire kind dual) d v h x = elim (try_acquire-Grants s kind dual v h) [
  | inl granted ↦
      rw (ap (acquired s kind) granted.1.1)
        (Grants-Exclusive kind s.guards (subst (λ b. Grants b kind s.guards) d granted.0))
  | inr refused ↦ rw (ap (acquired s kind) refused.1) x
]
step-Exclusive s (drop_guard i) d v h x = elim (Option-cases (get_elem? s.guards i)) [
  | inl e ↦ rw (ap (dropped s i) e) x
  | inr held ↦ rw (ap (dropped s i) held.1) (remove-Exclusive s.guards i held.0 held.1 x)
]

run-Exclusive' :
    (events : List Event) (s : System)
    → All IsSingle events
    → IsCounted s
    → length s.guards + length events < 4294967296
    → Exclusive s.guards
    → Exclusive (run s events).guards
run-Exclusive' [] s a v h x = x
run-Exclusive' (e ∷ events) s a v h x =
    let one = step-IsCounted s e v (omega arith) in
    run-Exclusive' events (step s e) a.1 one.0 (omega (arith, one.1))
      (step-Exclusive s e a.0 v (omega arith) x)

-- Where every claim is made for a host with one slot, in fewer than 2^32 claims and drops, a console
-- guard and an exec guard are never alive together.
pub run-Exclusive :
    (events : List Event)
    → All IsSingle events
    → length events < 4294967296
    → Exclusive (run start events).guards
run-Exclusive events a h =
    run-Exclusive' events start a (record { refs = refl; console = refl }) (omega arith) (inl refl)

-- After fewer than 2^32 claims and drops the observable owner is the one that the guards that are
-- alive say: the console if one is held, else exec if exec guards are held, else nobody.
pub owner-run :
    (events : List Event)
    → length events < 4294967296
    → owner (run start events).channel
      ≡ owner_of (execs (run start events).guards) (consoles (run start events).guards)
owner-run events h =
    let v = (run-IsCounted events h).0 in
    let s = run start events in
    owner-holding s.channel.exec_refs s.channel.is_interactive (execs s.guards) (consoles s.guards)
      v.refs v.console
