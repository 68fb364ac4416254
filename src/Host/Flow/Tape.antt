-- ===== src/Host/Flow/Tape.antt =====
-- The bytes of shell output in the order they were sent, each named by its slot.
use wiredesk.Base.{
  ℕ, zero, suc, ◌+◌, ◌-◌, ◌≤◌, ◌≡◌, refl, ap, ◌∙◌, List, [], ◌∷◌, ◌++◌, length, drop, replicate,
  arith,
}
use wiredesk.Host.Flow.{ShellSlot, exec, pty}

abbrev pub Tape : Type 0
Tape = List ShellSlot

abbrev pub execs : Tape → ℕ
execs [] = 0
execs (exec ∷ tape) = suc (execs tape)
execs (pty ∷ tape) = execs tape

pub execs-append : (s t : Tape) → execs (s ++ t) ≡ execs s + execs t
execs-append [] t = omega arith
execs-append (exec ∷ s) t = omega (arith, execs-append s t)
execs-append (pty ∷ s) t = execs-append s t

pub execs-exec : (n : ℕ) → execs (replicate n exec) ≡ n
execs-exec zero = refl
execs-exec (suc n) = ap suc (execs-exec n)

pub execs-pty : (n : ℕ) → execs (replicate n pty) ≡ 0
execs-pty zero = refl
execs-pty (suc n) = execs-pty n

pub drop-replicate :
    (k n : ℕ) (slot : ShellSlot) → drop k (replicate n slot) ≡ replicate (n - k) slot
drop-replicate zero n slot = let e : n ≡ n - 0 = omega arith in ap (λ m. replicate m slot) e
drop-replicate (suc k) zero slot =
    let e : 0 ≡ 0 - suc k = omega arith in ap (λ m. replicate m slot) e
drop-replicate (suc k) (suc n) slot =
    let e : n - k ≡ suc n - suc k = omega arith in
    drop-replicate k n slot ∙ ap (λ m. replicate m slot) e

pub drop-append : (k : ℕ) (s t : Tape) → drop k (s ++ t) ≡ drop k s ++ drop (k - length s) t
drop-append zero [] t = let e : 0 ≡ 0 - 0 = omega arith in ap (λ m. drop m t) e
drop-append (suc k) [] t = let e : suc k ≡ suc k - 0 = omega arith in ap (λ m. drop m t) e
drop-append zero (x ∷ s) t =
    let e : 0 ≡ 0 - suc (length s) = omega arith in ap (λ m. (x ∷ s) ++ drop m t) e
drop-append (suc k) (x ∷ s) t =
    let e : k - length s ≡ suc k - suc (length s) = omega arith in
    drop-append k s t ∙ ap (λ m. drop k s ++ drop m t) e

pub drop-all : (k : ℕ) (s : Tape) → length s ≤ k → drop k s ≡ []
drop-all zero [] h = refl
drop-all (suc k) [] h = refl
drop-all zero (x ∷ s) h = absurd (omega arith)
drop-all (suc k) (x ∷ s) h = drop-all k s (omega arith)
