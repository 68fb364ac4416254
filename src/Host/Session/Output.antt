-- ===== src/Host/Session/Output.antt =====
-- What a pump makes of a shell's output.
use wiredesk.Base.{
  ℕ, ◌≤◌, ◌<◌, ◌≡◌, refl, ap, ◌∙◌, Bool, true, false, inl, inr, List, [], ◌∷◌, ◌++◌, Option, none,
  some, ◌==◌, All, Bool-cases, length, map, arith,
}
use wiredesk.Base.Bytes.{Bytes}
use wiredesk.Base.Int.{ℤ}
use wiredesk.Base.Chunks.{joined}
use wiredesk.Host.Flow.{ShellSlot}
use wiredesk.Host.Session.{Session, Machine, is_some}
use wiredesk.Host.Session.Pump.{
  ShellEvent, output, Gathered, gather, proc_of, speaks_legacy, budget_of, unread, pump_slot,
}
use wiredesk.Host.Session.Told.{shell_bytes, IsSpoken, exits_of, IsReported}
use wiredesk.Host.Session.Gathering.{output_of, gather-all, gather-reads}
use wiredesk.Host.Session.Shipped.{
  deliver_output-IsSent, deliver_output-IsSpoken, deliver_output-IsReported, deliver_output-clears,
}

module _ (e : Machine) where
  -- A pump of a slot with a shell, whose sends all succeed, cuts the shell's output in two, with
  -- nothing lost, repeated or reordered up to the cut: it sends the first part, and the second part
  -- is what stays in the channel while the shell stays in its slot. Either no exit is reported and
  -- the slot is as before, or one is, the slot is empty and nothing stays in the channel: the
  -- second part is lost then. Every packet is output or an exit in the opcodes of the slot, with at
  -- most 4096 bytes of output.
  pub pump_slot-outputs :
      (s : Session) (slot : ShellSlot) (buffers : Bool) (events : List ShellEvent)
      (exited : Option ℤ)
      → ((n : ℕ) → e.sends n ≡ true)
      → is_some (proc_of slot s) ≡ true
      → (let pumped = pump_slot e s slot buffers events exited in
          (late : List ShellEvent) × (shell_bytes pumped.outcome.calls ++ output_of late
            ≡ output_of events)
          × (pumped.left ≡ unread slot pumped.outcome.session late)
          × IsReported
              (exits_of pumped.outcome.calls)
              (proc_of slot s)
              (proc_of slot pumped.outcome.session)
          × All (IsSpoken (speaks_legacy slot s)) pumped.outcome.calls)
  unfolding pump_slot
  pump_slot-outputs s slot buffers events exited h m =
      elim (Bool-cases (budget_of e s slot buffers == 0)) [
        | inl t ↦ rw t (events, refl, rw m refl, refl, tt)
        | inr n ↦
            let g = gather (budget_of e s slot buffers) [] events in
            rw (n, m)
              (
                g.left,
                ap (λ (t : Bytes). t ++ output_of g.left)
                      (deliver_output-IsSent e s slot g exited h).1
                    ∙ gather-all (budget_of e s slot buffers) [] events,
                refl,
                deliver_output-IsReported e s slot g exited h,
                deliver_output-IsSpoken e s slot g exited,
              )
      ]

  -- A shell's last output can be lost: where the shell's exit code is found while it has printed
  -- more than the budget takes, then with all sends succeeding the reads up to the one that meets
  -- the budget are sent, the slot is cleared, and of the events behind them none is sent and none
  -- can be read. The budget is not 0.
  pub pump_slot-cuts :
      (s : Session) (slot : ShellSlot) (buffers : Bool) (reads : List Bytes) (bytes : Bytes)
      (late : List ShellEvent) (code : ℤ)
      → ((n : ℕ) → e.sends n ≡ true)
      → is_some (proc_of slot s) ≡ true
      → length (joined reads) < budget_of e s slot buffers
      → budget_of e s slot buffers ≤ length (joined reads ++ bytes)
      → (let pumped =
            pump_slot e s slot buffers (map output reads ++ output bytes ∷ late) (some code) in
          (shell_bytes pumped.outcome.calls ≡ joined reads ++ bytes)
          × (pumped.left ≡ [])
          × (proc_of slot pumped.outcome.session ≡ none))
  unfolding pump_slot
  pump_slot-cuts s slot buffers reads bytes late code h m pos full =
      let g : Gathered = record { out = joined reads ++ bytes; code = none; left = late } in
      rw (some_left pos, m, gather-reads (budget_of e s slot buffers) reads bytes late pos full)
        (
          (deliver_output-IsSent e s slot g (some code) h).1,
          rw (deliver_output-clears e s slot g code h refl) refl,
          deliver_output-clears e s slot g code h refl,
        )
    where
      some_left :
          length (joined reads) < budget_of e s slot buffers
          → (budget_of e s slot buffers == 0) ≡ false
      some_left pos = ground arith
