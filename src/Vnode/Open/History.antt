-- ===== src/Vnode/Open/History.antt =====
-- fuse_vnops.c: sequences of calls on one vnode, from opening to giving it up.
use kext.Prelude.{ℕ, List, [], ◌∷◌, ◌≡◌, ◌⊎◌, refl, true, false, ◌||◌, arith, if◌then◌else◌, Bool}
use kext.Device.Lifecycle.{Process}
use kext.Vnode.State.{VnodeState, Env, FufhType, bit, fufh_rdonly, fufh_wronly, fufh_rdwr}
use kext.Vnode.Monad.{V, Outcome, done, panic, pure, ◌>>=◌}
use kext.Vnode.Session.{fuse_isdirectio, fuse_blanket_deny}
use kext.Vnode.Files.{fuse_filehandle_xlate_from_mmap}
use kext.Vnode.Returns.{Returns, Returns-bind, Returns-mono, Returns-if}
use kext.Vnode.Open.{fuse_vnop_open, fuse_vnop_close, fuse_vnop_inactive, fuse_vnop_reclaim}
use kext.Vnode.Open.Mapping.{fuse_vnop_mmap, fuse_vnop_mnomap}
use kext.Vnode.Open.Quiet.{
  Quiet, Quiet-refl, opened_times, released_times, held_times, held_in, uses,
}
use kext.Vnode.Open.Balance.{IsBalanced, Quiet-BalancedBy}
use kext.Vnode.Open.Calls.{IsSensible, fuse_vnop_open-Took, fuse_vnop_close-Closed}
use kext.Vnode.Open.Ending.{Ended, fuse_vnop_inactive-Ended, fuse_vnop_reclaim-Ended}

-- A mapping asks for some access: PROT_READ, PROT_WRITE or PROT_EXEC.
abbrev pub HasAccess : ℕ → Type 0
HasAccess fflags = (bit 0 fflags || bit 1 fflags || bit 2 fflags) ≡ true

-- It panics or it leaves everything as it is.
abbrev pub IsIdle : VnodeState → Outcome ℕ → Type 0
IsIdle s (done err u) = u ≡ s
IsIdle s panic = Unit {0}

IsIdle-if :
    (s : VnodeState) (b : Bool) (m n : V ℕ)
    → (b ≡ true → IsIdle s (m s))
    → (b ≡ false → IsIdle s (n s))
    → IsIdle s ((if b then m else n) s)
IsIdle-if s true m n h g = h refl
IsIdle-if s false m n h g = g refl

no_access :
    (fflags : ℕ) (s : VnodeState)
    → (bit 0 fflags || bit 1 fflags || bit 2 fflags) ≡ false
    → fuse_filehandle_xlate_from_mmap fflags s ≡ panic
unfolding fuse_filehandle_xlate_from_mmap
no_access fflags s e = ground (arith, e)

-- For all flags and in every state, fuse_vnop_mmap panics or leaves the state as it is: it never
-- takes a file handle.
pub fuse_vnop_mmap-IsIdle :
    (env : Env) (fflags : ℕ) (context : Process) (s : VnodeState)
    → IsIdle s (fuse_vnop_mmap env fflags context s)
unfolding fuse_vnop_mmap
fuse_vnop_mmap-IsIdle env fflags context s =
    IsIdle-if s s.mpdata.dead (pure _) _ (λ _. refl)
      (λ _.
        IsIdle-if s (fuse_isdirectio s) (pure _) _ (λ _. refl)
          (λ _.
            IsIdle-if s (fuse_blanket_deny s context) (pure _) _ (λ _. refl)
              (λ _.
                IsIdle-if s (bit 0 fflags || bit 1 fflags || bit 2 fflags) (pure 0) _ (λ _. refl)
                  (λ e. rw (no_access fflags s e) tt))))

-- The calls that the kernel makes on a vnode.
pub data VnodeCall : Type 0 where
  opens : (mode : ℕ) → Process → VnodeCall
  closes : (fflag : ℕ) → VnodeCall
  maps : (fflags : ℕ) → Process → VnodeCall
  unmaps inactivates : VnodeCall

-- Flags for which the sources do not panic.
abbrev pub IsSound : VnodeCall → Type 0
IsSound (opens mode context) = IsSensible mode
IsSound (closes fflag) = (fflag ≡ 16) ⊎ IsSensible fflag
IsSound (maps fflags context) = HasAccess fflags
IsSound unmaps = Unit {0}
IsSound inactivates = Unit {0}

unfoldable pub perform : Env → VnodeCall → V ℕ
perform env (opens mode context) = fuse_vnop_open env mode context
perform env (closes fflag) = fuse_vnop_close env fflag
perform env (maps fflags context) = fuse_vnop_mmap env fflags context
perform env unmaps = fuse_vnop_mnomap env
perform env inactivates = fuse_vnop_inactive env

unfoldable pub perform_all : Env → List VnodeCall → V (Unit {0})
perform_all env [] = pure tt
perform_all env (c ∷ cs) = do _ ← perform env c; perform_all env cs

abbrev pub AllSound : List VnodeCall → Type 0
AllSound [] = Unit {0}
AllSound (c ∷ cs) = IsSound c × AllSound cs

mmap_returns :
    (env : Env) (fflags : ℕ) (context : Process) (s : VnodeState)
    → HasAccess fflags
    → Returns (λ _ u. Quiet s u) (fuse_vnop_mmap env fflags context s)
unfolding fuse_vnop_mmap
mmap_returns env fflags context s h =
    Returns-if (λ _ u. Quiet s u) s s.mpdata.dead (pure _) _ (λ _. Quiet-refl s)
      (λ _.
        Returns-if (λ _ u. Quiet s u) s (fuse_isdirectio s) (pure _) _ (λ _. Quiet-refl s)
          (λ _.
            Returns-if (λ _ u. Quiet s u) s (fuse_blanket_deny s context) (pure _) _
              (λ _. Quiet-refl s)
              (λ _.
                Returns-if (λ _ u. Quiet s u) s (bit 0 fflags || bit 1 fflags || bit 2 fflags)
                  (pure 0) _ (λ _. Quiet-refl s) (λ e. absurd (ground (arith, e, h))))))

perform-IsBalanced :
    (env : Env) (c : VnodeCall) (s : VnodeState)
    → IsSound c
    → IsBalanced s
    → Returns (λ _ u. IsBalanced u) (perform env c s)
unfolding perform fuse_vnop_mnomap
perform-IsBalanced env (opens mode context) s h b =
    Returns-mono _ (λ _ u. IsBalanced u) _ (fuse_vnop_open-Took env mode context s b h)
      (λ _ u t. t.0)
perform-IsBalanced env (closes fflag) s h b =
    Returns-mono _ (λ _ u. IsBalanced u) _ (fuse_vnop_close-Closed env fflag s b h) (λ _ u t. t.0)
perform-IsBalanced env (maps fflags context) s h b =
    Returns-mono _ (λ _ u. IsBalanced u) _ (mmap_returns env fflags context s h)
      (λ _ u q. Quiet-BalancedBy (λ fh. 0) s u q b)
perform-IsBalanced env unmaps s h b = b
perform-IsBalanced env inactivates s h b =
    Returns-mono _ (λ _ u. IsBalanced u) _ (fuse_vnop_inactive-Ended env s b) (λ _ u t. t.0)

-- Any sequence.
pub perform_all-IsBalanced :
    (env : Env) (cs : List VnodeCall) (s : VnodeState)
    → AllSound cs
    → IsBalanced s
    → Returns (λ _ u. IsBalanced u) (perform_all env cs s)
unfolding perform_all
perform_all-IsBalanced env [] s h b = b
perform_all-IsBalanced env (c ∷ cs) s h b =
    Returns-bind (λ _ u. IsBalanced u) (λ _ u. IsBalanced u) (perform env c s)
      (λ _. perform_all env cs) (perform-IsBalanced env c s h.0 b)
      (λ _ u t. perform_all-IsBalanced env cs u h.1 t)

-- Where no handle has uses, nothing is held.
none_held : (u : VnodeState) → ((t : FufhType) → uses u t ≡ 0) → (fh : ℕ) → held_times fh u ≡ 0
unfolding held_in
none_held u none fh = rw (none fufh_rdonly, none fufh_wronly, none fufh_rdwr) refl

-- On a device that lives, every id was released as often as it was opened.
abbrev pub AllReleased : VnodeState → Type 0
AllReleased u =
    u.mpdata.dead ≡ false → (fh : ℕ) → released_times fh u.exchanges ≡ opened_times fh u.exchanges

Ended-AllReleased : (u : VnodeState) → Ended u → AllReleased u
Ended-AllReleased u h live fh = omega (arith, h.0.exact live fh, none_held u h.1 fh)

-- Take a vnode in a state where every file handle id was opened at least as often as it was
-- released or is held, and exactly so if its device lives. After any list of calls to open, close,
-- mmap, munmap and inactivate it, whose flags are such that the source does not panic (open: FREAD
-- or FWRITE or 0; close: the same or IO_NDELAY; mmap: some access), fuse_vnop_inactive returns: no
-- handle has uses any more, and if the device still lives, each id that the daemon ever opened was
-- released exactly as often, whatever the daemon answered.
pub fuse_vnop_inactive-releases :
    (env : Env) (cs : List VnodeCall) (s : VnodeState)
    → AllSound cs
    → IsBalanced s
    → Returns
        (λ _ u. AllReleased u × ((t : FufhType) → uses u t ≡ 0))
        ((perform_all env cs >>= λ _. fuse_vnop_inactive env) s)
fuse_vnop_inactive-releases env cs s h b =
    Returns-bind (λ _ u. IsBalanced u) (λ _ u. AllReleased u × ((t : FufhType) → uses u t ≡ 0))
      (perform_all env cs s) (λ _. fuse_vnop_inactive env) (perform_all-IsBalanced env cs s h b)
      (λ _ u t.
        Returns-mono (λ _ v. Ended v) (λ _ v. AllReleased v × ((t : FufhType) → uses v t ≡ 0))
          (fuse_vnop_inactive env u) (fuse_vnop_inactive-Ended env u t)
          (λ _ v e. (Ended-AllReleased v e, e.1)))

-- On a live device, from a state whose account of file handles is balanced, fuse_vnop_reclaim
-- returns without a panic; then no handle has uses, and if the device still lives, each id was
-- released exactly as often as it was opened.
pub fuse_vnop_reclaim-releases :
    (env : Env) (s : VnodeState)
    → IsBalanced s
    → s.mpdata.dead ≡ false
    → Returns (λ _ u. AllReleased u × ((t : FufhType) → uses u t ≡ 0)) (fuse_vnop_reclaim env s)
fuse_vnop_reclaim-releases env s b live =
    Returns-mono (λ _ v. Ended v) (λ _ v. AllReleased v × ((t : FufhType) → uses v t ≡ 0))
      (fuse_vnop_reclaim env s) (fuse_vnop_reclaim-Ended env s b live)
      (λ _ v e. (Ended-AllReleased v e, e.1))
