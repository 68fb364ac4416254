-- ===== src/Client/ShellChannel/Claims.antt =====
-- The channel's state against the guards that are alive.
use wiredesk.Base.{
  ℕ, zero, suc, ◌+◌, ◌%◌, ◌≤◌, ◌<◌, ◌≡◌, ◌⊎◌, refl, Bool, true, false, inl, inr, List, [], ◌∷◌,
  none, some, lt→ltb, length, get_elem?, arith,
}
use wiredesk.Client.ShellChannel.{
  ShellOwner, idle, exec, interactive, ChannelState, try_acquire, release, System, remove,
}

-- How many guards are of a kind.
abbrev pub execs : List ShellOwner → ℕ
execs [] = 0
execs (idle ∷ gs) = execs gs
execs (exec ∷ gs) = 1 + execs gs
execs (interactive ∷ gs) = execs gs

abbrev pub consoles : List ShellOwner → ℕ
consoles [] = 0
consoles (idle ∷ gs) = consoles gs
consoles (exec ∷ gs) = consoles gs
consoles (interactive ∷ gs) = 1 + consoles gs

abbrev pub flag : Bool → ℕ
flag true = 1
flag false = 0

pub flag-le : (b : Bool) → flag b ≤ 1
flag-le true = omega arith
flag-le false = omega arith

-- The state counts the guards: the flag is the number of consoles, which is then at most 1.
pub record IsCounted (s : System) : Type 0 where
  pub refs : s.channel.exec_refs ≡ execs s.guards
  pub console : flag s.channel.is_interactive ≡ consoles s.guards

execs-le : (gs : List ShellOwner) → execs gs ≤ length gs
execs-le [] = omega arith
execs-le (idle ∷ gs) = omega (arith, execs-le gs)
execs-le (exec ∷ gs) = omega (arith, execs-le gs)
execs-le (interactive ∷ gs) = omega (arith, execs-le gs)

pub length-remove : (gs : List ShellOwner) (i : ℕ) → length (remove gs i) ≤ length gs
length-remove [] i = omega arith
length-remove (g ∷ gs) zero = omega arith
length-remove (g ∷ gs) (suc i) = omega (arith, length-remove gs i)

-- What taking a guard out does to the counts.
abbrev pub Counts : List ShellOwner → ℕ → ShellOwner → Type 0
Counts gs i kind =
    (execs gs ≡ execs (kind ∷ []) + execs (remove gs i))
    × (consoles gs ≡ consoles (kind ∷ []) + consoles (remove gs i))

pub remove-Counts :
    (gs : List ShellOwner) (i : ℕ) (kind : ShellOwner)
    → get_elem? gs i ≡ some kind
    → Counts gs i kind
remove-Counts [] i kind e = cc
remove-Counts (idle ∷ gs) zero idle e = (omega arith, omega arith)
remove-Counts (exec ∷ gs) zero exec e = (omega arith, omega arith)
remove-Counts (interactive ∷ gs) zero interactive e = (omega arith, omega arith)
remove-Counts (idle ∷ gs) zero exec e = cc
remove-Counts (idle ∷ gs) zero interactive e = cc
remove-Counts (exec ∷ gs) zero idle e = cc
remove-Counts (exec ∷ gs) zero interactive e = cc
remove-Counts (interactive ∷ gs) zero idle e = cc
remove-Counts (interactive ∷ gs) zero exec e = cc
remove-Counts (idle ∷ gs) (suc i) kind e = remove-Counts gs i kind e
remove-Counts (exec ∷ gs) (suc i) kind e =
    let h = remove-Counts gs i kind e in (omega (arith, h.0), h.1)
remove-Counts (interactive ∷ gs) (suc i) kind e =
    let h = remove-Counts gs i kind e in (h.0, omega (arith, h.1))

pub release-IsCounted :
    (s : System) (i : ℕ) (kind : ShellOwner)
    → get_elem? s.guards i ≡ some kind
    → IsCounted s
    → IsCounted (record { channel = release s.channel kind; guards = remove s.guards i })
unfolding release
release-IsCounted s i idle e v =
    let h = remove-Counts s.guards i idle e in
    record { refs = omega (arith, h.0, v.refs); console = omega (arith, h.1, v.console) }
release-IsCounted s i exec e v =
    let h = remove-Counts s.guards i exec e in
    record { refs = omega (arith, h.0, v.refs); console = omega (arith, h.1, v.console) }
release-IsCounted s i interactive e v =
    let h = remove-Counts s.guards i interactive e in
    record {
      refs = omega (arith, h.0, v.refs);
      console = omega (arith, h.1, v.console, flag-le s.channel.is_interactive);
    }

-- What a claim needs: a console, that there is none, and an exec run, where the host has one slot,
-- that the other kind holds no claim.
abbrev pub Grants : Bool → ShellOwner → List ShellOwner → Type 0
Grants dual idle gs = ⊥
Grants true exec gs = Unit
Grants false exec gs = consoles gs ≡ 0
Grants true interactive gs = consoles gs ≡ 0
Grants false interactive gs = (consoles gs ≡ 0) × (execs gs ≡ 0)

abbrev Answers : System → ShellOwner → Bool → Type 0
Answers s kind dual =
    (Grants dual kind s.guards
      × ((c : ChannelState) × (try_acquire s.channel kind dual ≡ some c)
          × IsCounted (record { channel = c; guards = kind ∷ s.guards })))
    ⊎ ((Grants dual kind s.guards → ⊥) × (try_acquire s.channel kind dual ≡ none))

abbrev holding : ℕ → Bool → List ShellOwner → System
holding refs on gs = record {
  channel = record { exec_refs = refs; is_interactive = on };
  guards = gs;
}

more_refs :
    (refs : ℕ) (on : Bool) (gs : List ShellOwner)
    → IsCounted (holding refs on gs)
    → length gs + 1 < 4294967296
    → IsCounted (holding ((refs + 1) % 4294967296) on (exec ∷ gs))
more_refs refs on gs v h = record { refs = omega (arith, v.refs, execs-le gs); console = v.console }

more_consoles :
    (refs : ℕ) (gs : List ShellOwner)
    → IsCounted (holding refs false gs)
    → IsCounted (holding refs true (interactive ∷ gs))
more_consoles refs gs v = record { refs = v.refs; console = omega (arith, v.console) }

answers :
    (refs : ℕ) (on : Bool) (gs : List ShellOwner) (kind : ShellOwner) (dual : Bool)
    → IsCounted (holding refs on gs)
    → length gs + 1 < 4294967296
    → Answers (holding refs on gs) kind dual
unfolding try_acquire
answers refs on gs idle dual v h = inr ((λ g. g), refl)
answers refs on gs exec true v h = inl (tt, (_, refl, more_refs refs on gs v h))
answers refs true gs exec false v h = inr ((λ g. omega (arith, v.console)), refl)
answers refs false gs exec false v h =
    inl (omega (arith, v.console), (_, refl, more_refs refs false gs v h))
answers refs true gs interactive true v h = inr ((λ g. omega (arith, v.console)), refl)
answers refs true gs interactive false v h = inr ((λ g. omega (arith, v.console, g.0)), refl)
answers refs false gs interactive true v h =
    inl (omega (arith, v.console), (_, refl, more_consoles refs gs v))
answers zero false gs interactive false v h =
    inl ((omega (arith, v.console), omega (arith, v.refs)), (_, refl, more_consoles zero gs v))
answers (suc refs) false gs interactive false v h =
    inr ((λ g. omega (arith, v.refs, g.1)), rw (lt→ltb 0 (suc refs) (omega arith)) refl)

-- In a state that counts its guards, fewer than 2^32 of them, a claim is granted where the claims
-- that are held allow it, the state then counts the new guard too, and it is refused otherwise.
pub try_acquire-Grants :
    (s : System) (kind : ShellOwner) (dual : Bool)
    → IsCounted s
    → length s.guards + 1 < 4294967296
    → (Grants dual kind s.guards
        × ((c : ChannelState) × (try_acquire s.channel kind dual ≡ some c)
            × IsCounted (record { channel = c; guards = kind ∷ s.guards })))
      ⊎ ((Grants dual kind s.guards → ⊥) × (try_acquire s.channel kind dual ≡ none))
try_acquire-Grants s kind dual v h =
    answers s.channel.exec_refs s.channel.is_interactive s.guards kind dual v h
