-- ===== src/Client/ShellChannel.antt =====
-- apps/wiredesk-client/src/shell_channel.rs: who holds the host's shell slots. The mutex makes each
-- call one step on the state it guards; a guard is the kind of the claim that its drop releases.
pub mod Claims
pub mod Runs
mod Tests
use wiredesk.Base.{
  ℕ, zero, suc, ◌+◌, ◌-◌, ◌%◌, Bool, true, false, not, ◌&&◌, ◌||◌, List, [], ◌∷◌, ◌++◌, Option,
  none, some, ltb, if◌then◌else◌, get_elem?,
}

pub data ShellOwner : Type 0 where
  idle exec interactive : ShellOwner

pub record ChannelState : Type 0 where
  pub exec_refs : ℕ
  pub is_interactive : Bool

-- `ChannelState::default`, in `new_shared_owner`.
abbrev pub new_shared_owner : ChannelState
new_shared_owner = record { exec_refs = 0; is_interactive = false }

-- `ChannelState::owner`, and with it `current_owner`.
unfoldable pub owner : ChannelState → ShellOwner
owner s = if s.is_interactive then interactive else if ltb 0 s.exec_refs then exec else idle

-- The state after a claim that is granted; `none` is a refusal. The count is a `u32`.
unfoldable pub try_acquire : ChannelState → ShellOwner → Bool → Option ChannelState
try_acquire s interactive dual =
    if s.is_interactive || (not dual && ltb 0 s.exec_refs)
    then none
    else some (record s { is_interactive = true })
try_acquire s exec dual =
    if not dual && s.is_interactive
    then none
    else some (record s { exec_refs = (s.exec_refs + 1) % 4294967296 })
try_acquire s idle dual = none

-- `Drop for ShellChannelGuard`.
unfoldable pub release : ChannelState → ShellOwner → ChannelState
release s exec = record s { exec_refs = s.exec_refs - 1 }
release s interactive = record s { is_interactive = false }
release s idle = s

-- The channel and the guards that are alive.
pub record System : Type 0 where
  pub channel : ChannelState
  pub guards : List ShellOwner

pub data Event : Type 0 where
  acquire : (kind : ShellOwner) (dual : Bool) → Event
  drop_guard : (index : ℕ) → Event

abbrev pub remove : List ShellOwner → ℕ → List ShellOwner
remove [] i = []
remove (g ∷ gs) zero = gs
remove (g ∷ gs) (suc i) = g ∷ remove gs i

abbrev pub acquired : System → ShellOwner → Option ChannelState → System
acquired s kind none = s
acquired s kind (some channel) = record { channel = channel; guards = kind ∷ s.guards }

abbrev pub dropped : System → ℕ → Option ShellOwner → System
dropped s i none = s
dropped s i (some kind) = record { channel = release s.channel kind; guards = remove s.guards i }

unfoldable pub step : System → Event → System
step s (acquire kind dual) = acquired s kind (try_acquire s.channel kind dual)
step s (drop_guard i) = dropped s i (get_elem? s.guards i)

abbrev pub run : System → List Event → System
run s [] = s
run s (e ∷ es) = run (step s e) es

abbrev pub start : System
start = record { channel = new_shared_owner; guards = [] }
