-- ===== src/Ipc/Ensures.antt =====
-- Total correctness of an action: it does not touch a freed ticket, it panics only where an
-- allocation fails, and its result satisfies a postcondition.
use kext.Prelude.{ℕ, ◌≡◌, refl, Bool, true, false, Option, none, some, arith, if◌then◌else◌}
use kext.Ipc.State.{FuseData, Ticket, Kernel}
use kext.Ipc.Monad.{Run, done, panic, fault, M, bind_run, ◌>>=◌, or_fault, load, or_panic}

-- 1 for a ticket that is there, 0 for an address that was freed or never used.
abbrev pub live : Option Ticket → ℕ
live none = 0
live (some t) = 1

-- Every allocation succeeds.
pub record HasMemory (k : Kernel) : Type 0 where
  pub buffers : (n : ℕ) → k.malloc n ≡ true
  pub tickets : k.ticket_memory ≡ true

abbrev pub Ensures : {A : Type 0} → Kernel → (A → FuseData → Type 0) → Run A → Type 0
Ensures k P (done a d) = P a d
Ensures k P panic = ¬ HasMemory k
Ensures k P fault = ⊥

pub Ensures-bind :
    {A B : Type 0} (k : Kernel) (P : A → FuseData → Type 0) (Q : B → FuseData → Type 0) (r : Run A)
    (f : A → M B)
    → Ensures k P r
    → ((a : A) (d : FuseData) → P a d → Ensures k Q (f a d))
    → Ensures k Q (bind_run r f)
Ensures-bind k P Q (done a d) f h g = g a d h
Ensures-bind k P Q panic f h g = h
Ensures-bind k P Q fault f h g = h

-- One rule for each form of statement: a read through a pointer, a checked allocation, a branch.
module _ {A : Type 0} (k : Kernel) (Q : A → FuseData → Type 0) (d : FuseData) where
  pub Ensures-load :
      (p : ℕ) (f : Ticket → M A)
      → live (d.heap p) ≡ 1
      → ((t : Ticket) → d.heap p ≡ some t → Ensures k Q (f t d))
      → Ensures k Q ((load p >>= f) d)
  Ensures-load p f here g = from (d.heap p) here g
    where
      from :
          (o : Option Ticket)
          → live o ≡ 1
          → ((t : Ticket) → o ≡ some t → Ensures k Q (f t d))
          → Ensures k Q ((or_fault o >>= f) d)
      from none h g = absurd (omega arith)
      from (some t) h g = g t refl

  pub Ensures-or_panic :
      {B : Type 0} (o : Option B) (f : B → M A)
      → (o ≡ none → ¬ HasMemory k)
      → ((b : B) → o ≡ some b → Ensures k Q (f b d))
      → Ensures k Q ((or_panic o >>= f) d)
  Ensures-or_panic none f fails g = fails refl
  Ensures-or_panic (some b) f fails g = g b refl

  pub Ensures-if :
      (b : Bool) (m n : M A)
      → (b ≡ true → Ensures k Q (m d))
      → (b ≡ false → Ensures k Q (n d))
      → Ensures k Q ((if b then m else n) d)
  Ensures-if true m n f g = f refl
  Ensures-if false m n f g = g refl

-- The result, with the equation that it is the result.
pub Ensures-remember :
    {A : Type 0} (k : Kernel) (P : A → FuseData → Type 0) (r : Run A)
    → Ensures k P r
    → Ensures k (λ a d. P a d × (r ≡ done a d)) r
Ensures-remember k P (done a d) h = (h, refl)
Ensures-remember k P panic h = h
Ensures-remember k P fault h = h

pub Ensures-mono :
    {A : Type 0} (k : Kernel) (P Q : A → FuseData → Type 0) (r : Run A)
    → Ensures k P r
    → ((a : A) (d : FuseData) → P a d → Q a d)
    → Ensures k Q r
Ensures-mono k P Q (done a d) h g = g a d h
Ensures-mono k P Q panic h g = h
Ensures-mono k P Q fault h g = h
