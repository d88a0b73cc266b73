-- ===== src/Vnode/Open/Closing.antt =====
-- The account when uses of a file handle are added, dropped or reset.
use kext.Prelude.{ℕ, ◌<◌, ◌≡◌, refl, ap, ◌∙◌, true, not, ◌+◌, ◌-◌, ◌==◌, ◌&&◌, if◌then◌else◌, arith}
use kext.Vnode.State.{VnodeState, FufhType, fufh_rdonly, fufh_wronly, fufh_rdwr, Env, same_type}
use kext.Vnode.Monad.{◌>>=◌, modify, increment}
use kext.Vnode.Files.{fufh_is_valid, fuse_filehandle_put}
use kext.Vnode.Returns.{Returns, Returns-bind, Returns-mono, Returns-when}
use kext.Vnode.Open.{
  fufh_use_inc, fufh_use_dec, fufh_use_reset, reuse, drop_use, count_zombie, give_back,
  reclaim_handle,
}
use kext.Vnode.Open.Quiet.{Quiet, Quiet-frame, uses, id_of, Quiet-refl}
use kext.Vnode.Open.Balance.{
  BalancedBy, IsBalanced, Became, Settled, Quiet-BalancedBy, with_fufh, held_with_fufh, update_uses,
  update_self, fuse_filehandle_put-Settled,
}

-- The state with another number of uses of a handle.
abbrev with_uses : VnodeState → FufhType → ℕ → VnodeState
with_uses s t n = with_fufh s t (record (s.fvdat.fufh t) { open_count = n })

module _ (s : VnodeState) (t : FufhType) (b : IsBalanced s) (valid : 0 < uses s t) where
  kept : (n : ℕ) → 0 < n → IsBalanced (with_uses s t n)
  kept n h = record {
    covered = λ fh.
        ground
          (arith, held_with_fufh s t (record (s.fvdat.fufh t) { open_count = n }) fh, b.covered fh);
    exact = λ live fh. ground (
      arith,
      held_with_fufh s t (record (s.fvdat.fufh t) { open_count = n }) fh,
      b.exact live fh,
    );
  }

  same_id : (n : ℕ) → id_of (with_uses s t n) t ≡ id_of s t
  same_id n =
      ap (λ h. h.fh_id) (update_self s.fvdat.fufh t (record (s.fvdat.fufh t) { open_count = n }))

  new_uses : (n : ℕ) → uses (with_uses s t n) t ≡ n
  new_uses n =
      ap (λ h. h.open_count)
        (update_self s.fvdat.fufh t (record (s.fvdat.fufh t) { open_count = n }))

  emptied :
      (n : ℕ)
      → n ≡ 0
      → BalancedBy (λ fh. if id_of (with_uses s t n) t == fh then 1 else 0) (with_uses s t n)
  emptied n e = record {
    covered = λ fh. ground (
      arith,
      same_id n,
      e,
      held_with_fufh s t (record (s.fvdat.fufh t) { open_count = n }) fh,
      b.covered fh,
    );
    exact = λ live fh. ground (
      arith,
      same_id n,
      e,
      held_with_fufh s t (record (s.fvdat.fufh t) { open_count = n }) fh,
      b.exact live fh,
    );
  }

-- Balanced, and one handle has so many uses.
abbrev pub Reached : FufhType → ℕ → VnodeState → VnodeState → Type 0
Reached t n s u = IsBalanced u × Became t n s u

replaced : (s : VnodeState) (t : FufhType) (n : ℕ) → Became t n s (with_uses s t n)
replaced s t n = update_uses s.fvdat.fufh t (record (s.fvdat.fufh t) { open_count = n })

pub reuse-Reached :
    (t : FufhType) (s : VnodeState)
    → IsBalanced s
    → 0 < uses s t
    → Returns (λ _ u. Reached t (uses s t + 1) s u) (reuse t s)
unfolding reuse fufh_use_inc
reuse-Reached t s b valid = (
  Quiet-BalancedBy (λ fh. 0) (with_uses s t (uses s t + 1)) _
      (Quiet-frame (with_uses s t (uses s t + 1)) _ refl refl refl refl)
      (kept s t b valid (uses s t + 1) (omega arith)),
  replaced s t (uses s t + 1),
)

-- A state in which what was owed for a handle was paid.
Settled-Reached :
    (s v u : VnodeState) (t : FufhType) (n : ℕ) → Became t n s v → Settled v u → Reached t n s u
Settled-Reached s v u t n m h = (h.0, λ t'. h.1 t' ∙ m t')

module _ (env : Env) (t : FufhType) (s : VnodeState) (b : IsBalanced s) where
  pub drop_use-Reached :
      0 < uses s t → Returns (λ _ u. Reached t (uses s t - 1) s u) (drop_use env t s)
  unfolding drop_use fufh_use_dec
  drop_use-Reached valid =
      Returns-when (λ _ u. Reached t n s u) v (not (fufh_is_valid (v.fvdat.fufh t)))
        (fuse_filehandle_put env t)
        (λ e.
          Returns-mono (λ _ u. Settled v u) (λ _ u. Reached t n s u) (fuse_filehandle_put env t v)
            (fuse_filehandle_put-Settled env t v (emptied s t b valid n (zero e))
              (new_uses s t b valid n ∙ zero e))
            (λ _ u h. Settled-Reached s v u t n (replaced s t n) h))
        (λ e. (kept s t b valid n (ground (arith, e, new_uses s t b valid n)), replaced s t n))
    where
      n : ℕ
      n = uses s t - 1

      v : VnodeState
      v = with_uses s t n

      zero : not (fufh_is_valid (v.fvdat.fufh t)) ≡ true → n ≡ 0
      zero e = ground (arith, e, new_uses s t b valid n)

uses_self : (f : FufhType → ℕ) (t t' : FufhType) → f t' ≡ (if same_type t t' then f t else f t')
unfolding same_type
uses_self f fufh_rdonly fufh_rdonly = refl
uses_self f fufh_rdonly fufh_wronly = refl
uses_self f fufh_rdonly fufh_rdwr = refl
uses_self f fufh_wronly fufh_rdonly = refl
uses_self f fufh_wronly fufh_wronly = refl
uses_self f fufh_wronly fufh_rdwr = refl
uses_self f fufh_rdwr fufh_rdonly = refl
uses_self f fufh_rdwr fufh_wronly = refl
uses_self f fufh_rdwr fufh_rdwr = refl

pub Became-idle : (s : VnodeState) (t : FufhType) (n : ℕ) → n ≡ uses s t → Became t n s s
Became-idle s t n e = rw e (uses_self (uses s) t)

pub Became-after :
    (s u v : VnodeState) (t : FufhType) (m n : ℕ)
    → Quiet s u
    → m ≡ n
    → Became t m u v
    → Became t n s v
Became-after s u v t m n q e h = λ t'.
    h t'
    ∙ ap (λ x. if same_type t t' then x else uses u t') e
    ∙ ap (λ x. if same_type t t' then n else x) (q.same_uses t')

count_zombie-Quiet : (env : Env) (s : VnodeState) → Returns (λ _ u. Quiet s u) (count_zombie env s)
unfolding count_zombie
count_zombie-Quiet env s =
    Returns-when (λ _ u. Quiet s u) s (not env.isforce && not s.mpdata.dead)
      (modify λ u. record u { fh_zombies = increment u.fh_zombies })
      (λ _. Quiet-frame s _ refl refl refl refl) (λ _. Quiet-refl s)

module _ (env : Env) (t : FufhType) (s : VnodeState) (b : IsBalanced s) where
  -- The handle has been reset, and other things may have been done since.
  put_reset :
      0 < uses s t
      → (w : VnodeState) → Quiet (with_uses s t 0) w
      → Returns (λ _ u. Reached t 0 s u) (fuse_filehandle_put env t w)
  put_reset valid w q =
      Returns-mono (λ _ u. Settled w u) (λ _ u. Reached t 0 s u) (fuse_filehandle_put env t w)
        (fuse_filehandle_put-Settled env t w owing (q.same_uses t ∙ new_uses s t b valid 0))
        (λ _ u h. (h.0, λ t'. h.1 t' ∙ q.same_uses t' ∙ replaced s t 0 t'))
    where
      v : VnodeState
      v = with_uses s t 0

      owing : BalancedBy (λ fh. if id_of w t == fh then 1 else 0) w
      owing = rw (q.same_ids t) (
          Quiet-BalancedBy (λ fh. if id_of v t == fh then 1 else 0) v w q
            (emptied s t b valid 0 refl))

  pub give_back-Reached : Returns (λ _ u. Reached t 0 s u) (give_back env t s)
  unfolding give_back fufh_use_reset
  give_back-Reached =
      Returns-when (λ _ u. Reached t 0 s u) s (fufh_is_valid (s.fvdat.fufh t))
        (fufh_use_reset t >>= λ _. fuse_filehandle_put env t)
        (λ e. put_reset (ground (arith, e)) (with_uses s t 0) (Quiet-refl (with_uses s t 0)))
        (λ e. (b, Became-idle s t 0 (ground (arith, e))))

  pub reclaim_handle-Reached : Returns (λ _ u. Reached t 0 s u) (reclaim_handle env t s)
  unfolding reclaim_handle fufh_use_reset
  reclaim_handle-Reached =
      Returns-when (λ _ u. Reached t 0 s u) s (fufh_is_valid (s.fvdat.fufh t))
        (fufh_use_reset t >>= λ _. count_zombie env >>= λ _. fuse_filehandle_put env t)
        (λ e.
          Returns-bind (λ _ w. Quiet (with_uses s t 0) w) (λ _ u. Reached t 0 s u)
            (count_zombie env (with_uses s t 0)) (λ _. fuse_filehandle_put env t)
            (count_zombie-Quiet env (with_uses s t 0)) (λ _ w q. put_reset (ground (arith, e)) w q))
        (λ e. (b, Became-idle s t 0 (ground (arith, e))))
