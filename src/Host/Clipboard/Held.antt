-- ===== src/Host/Clipboard/Held.antt =====
-- What a reassembly holds once some chunks of a payload have arrived.
use wiredesk.Base.{
  ℕ, zero, suc, ◌+◌, ◌≤◌, ◌<◌, ◌≡◌, refl, sym, ap, ◌∙◌, Bool, true, false, List, [], ◌∷◌, ◌++◌,
  some, length, get_elem?, get_or, set, replicate, All, length-append, arith, ==_iff,
}
use wiredesk.Base.Bytes.{Bytes}
use wiredesk.Base.Chunks.{joined, full}
use wiredesk.Host.Clipboard.{Received, insert, contains_key}
use wiredesk.Host.Clipboard.Incoming.{contiguous, concatenated}

-- The marked pieces, under their indices from `i` on.
abbrev pub held : ℕ → List Bytes → List Bool → Received
held i [] mask = []
held i (p ∷ ps) [] = []
held i (p ∷ ps) (true ∷ mask) = (i, p) ∷ held (suc i) ps mask
held i (p ∷ ps) (false ∷ mask) = held (suc i) ps mask

-- How many bytes they are.
abbrev pub size : List Bytes → List Bool → ℕ
size [] mask = 0
size (p ∷ ps) [] = 0
size (p ∷ ps) (true ∷ mask) = length p + size ps mask
size (p ∷ ps) (false ∷ mask) = size ps mask

insert-front :
    (i j : ℕ) (piece : Bytes) (ps : List Bytes) (mask : List Bool)
    → i < j
    → insert i piece (held j ps mask) ≡ (i, piece) ∷ held j ps mask
insert-front i j piece [] mask h = refl
insert-front i j piece (p ∷ ps) [] h = refl
insert-front i j piece (p ∷ ps) (true ∷ mask) h = ground arith
insert-front i j piece (p ∷ ps) (false ∷ mask) h =
    insert-front i (suc j) piece ps mask (omega arith)

contains-front :
    (i j : ℕ) (ps : List Bytes) (mask : List Bool) → i < j → contains_key i (held j ps mask) ≡ false
contains-front i j [] mask h = refl
contains-front i j (p ∷ ps) [] h = refl
contains-front i j (p ∷ ps) (true ∷ mask) h =
    ground (arith, contains-front i (suc j) ps mask (omega arith))
contains-front i j (p ∷ ps) (false ∷ mask) h = contains-front i (suc j) ps mask (omega arith)

pub contains_key-held :
    (i k n : ℕ) (ps : List Bytes) (mask : List Bool)
    → n ≡ i + k
    → length mask ≡ length ps
    → k < length ps
    → contains_key n (held i ps mask) ≡ get_or mask k false
contains_key-held i k n [] mask a e h = absurd (omega arith)
contains_key-held i k n (p ∷ ps) [] a e h = absurd (omega arith)
contains_key-held i zero n (p ∷ ps) (true ∷ mask) a e h = ground arith
contains_key-held i zero n (p ∷ ps) (false ∷ mask) a e h =
    contains-front n (suc i) ps mask (omega arith)
contains_key-held i (suc k) n (p ∷ ps) (true ∷ mask) a e h =
    ground (arith, contains_key-held (suc i) k n ps mask (omega arith) (omega arith) (omega arith))
contains_key-held i (suc k) n (p ∷ ps) (false ∷ mask) a e h =
    contains_key-held (suc i) k n ps mask (omega arith) (omega arith) (omega arith)

pub insert-held :
    (i k n : ℕ) (piece : Bytes) (ps : List Bytes) (mask : List Bool)
    → n ≡ i + k
    → length mask ≡ length ps
    → get_elem? ps k ≡ some piece
    → insert n piece (held i ps mask) ≡ held i ps (set mask k true)
insert-held i k n piece [] mask a e g = cc
insert-held i k n piece (p ∷ ps) [] a e g = absurd (omega arith)
insert-held i zero n piece (p ∷ ps) (true ∷ mask) a e g =
    let same : p ≡ piece = cc g in
    let at : n ≡ i = omega arith in
    rw ((==_iff n i).1 at) (ap (λ (t : Bytes). (i, t) ∷ held (suc i) ps mask) (sym same))
insert-held i zero n piece (p ∷ ps) (false ∷ mask) a e g =
    let same : p ≡ piece = cc g in
    let at : n ≡ i = omega arith in
    insert-front n (suc i) piece ps mask (omega arith)
    ∙ (λ t. (at t, sym same t) ∷ held (suc i) ps mask)
insert-held i (suc k) n piece (p ∷ ps) (true ∷ mask) a e g =
    ground (arith, insert-held (suc i) k n piece ps mask (omega arith) (omega arith) g)
insert-held i (suc k) n piece (p ∷ ps) (false ∷ mask) a e g =
    insert-held (suc i) k n piece ps mask (omega arith) (omega arith) g

-- A piece counts once.
pub size-set :
    (k : ℕ) (piece : Bytes) (ps : List Bytes) (mask : List Bool)
    → length mask ≡ length ps
    → get_elem? ps k ≡ some piece
    → get_or mask k false ≡ false
    → size ps (set mask k true) ≡ size ps mask + length piece
size-set k piece [] mask e g n = cc
size-set k piece (p ∷ ps) [] e g n = absurd (omega arith)
size-set zero piece (p ∷ ps) (true ∷ mask) e g n = cc
size-set zero piece (p ∷ ps) (false ∷ mask) e g n =
    let same : p ≡ piece = cc g in omega (arith, ap length same)
size-set (suc k) piece (p ∷ ps) (true ∷ mask) e g n =
    omega (arith, size-set k piece ps mask (omega arith) g n)
size-set (suc k) piece (p ∷ ps) (false ∷ mask) e g n = size-set k piece ps mask (omega arith) g n

pub set-marked : (k : ℕ) (mask : List Bool) → get_or mask k false ≡ true → set mask k true ≡ mask
set-marked k [] n = cc
set-marked zero (true ∷ mask) n = refl
set-marked zero (false ∷ mask) n = cc
set-marked (suc k) (true ∷ mask) n = ap (◌∷◌ true) (set-marked k mask n)
set-marked (suc k) (false ∷ mask) n = ap (◌∷◌ false) (set-marked k mask n)

pub size-le : (ps : List Bytes) (mask : List Bool) → size ps mask ≤ length (joined ps)
size-le [] mask = omega arith
size-le (p ∷ ps) [] = omega arith
size-le (p ∷ ps) (true ∷ mask) = omega (arith, size-le ps mask, length-append p (joined ps))
size-le (p ∷ ps) (false ∷ mask) = omega (arith, size-le ps mask, length-append p (joined ps))

-- Where no piece is empty, the bytes are all there only with the last piece.
pub size-lt :
    (ps : List Bytes) (mask : List Bool)
    → All (λ p. 0 < length p) ps
    → length mask ≡ length ps
    → full mask ≡ false
    → size ps mask < length (joined ps)
size-lt [] [] a e f = cc
size-lt [] (b ∷ mask) a e f = absurd (omega arith)
size-lt (p ∷ ps) [] a e f = absurd (omega arith)
size-lt (p ∷ ps) (true ∷ mask) a e f =
    omega (arith, size-lt ps mask a.1 (omega arith) f, length-append p (joined ps))
size-lt (p ∷ ps) (false ∷ mask) a e f =
    omega (arith, a.0, size-le ps mask, length-append p (joined ps))

pub size-full :
    (ps : List Bytes) (mask : List Bool)
    → length mask ≡ length ps
    → full mask ≡ true
    → size ps mask ≡ length (joined ps)
size-full [] mask e f = refl
size-full (p ∷ ps) [] e f = absurd (omega arith)
size-full (p ∷ ps) (true ∷ mask) e f =
    omega (arith, size-full ps mask (omega arith) f, length-append p (joined ps))
size-full (p ∷ ps) (false ∷ mask) e f = cc

pub contiguous-held :
    (i : ℕ) (ps : List Bytes) (mask : List Bool)
    → full mask ≡ true
    → contiguous i (held i ps mask) ≡ true
contiguous-held i [] mask f = refl
contiguous-held i (p ∷ ps) [] f = refl
contiguous-held i (p ∷ ps) (true ∷ mask) f = ground (arith, contiguous-held (suc i) ps mask f)
contiguous-held i (p ∷ ps) (false ∷ mask) f = cc

pub concatenated-held :
    (i : ℕ) (ps : List Bytes) (mask : List Bool)
    → length mask ≡ length ps
    → full mask ≡ true
    → concatenated (held i ps mask) ≡ joined ps
concatenated-held i [] mask e f = refl
concatenated-held i (p ∷ ps) [] e f = absurd (omega arith)
concatenated-held i (p ∷ ps) (true ∷ mask) e f =
    ap (λ (t : Bytes). p ++ t) (concatenated-held (suc i) ps mask (omega arith) f)
concatenated-held i (p ∷ ps) (false ∷ mask) e f = cc

pub held-none :
    (i : ℕ) (ps : List Bytes) (n : ℕ)
    → (held i ps (replicate n false) ≡ []) × (size ps (replicate n false) ≡ 0)
held-none i [] n = (refl, refl)
held-none i (p ∷ ps) zero = (refl, refl)
held-none i (p ∷ ps) (suc n) = held-none (suc i) ps n
