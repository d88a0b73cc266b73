-- ===== src/Vnode/Readdir/Loops.antt =====
-- fuse_internal.c: the loops of reading a directory, on every answer of the daemon.
use kext.Prelude.{
  ℕ, zero, suc, Bool, true, false, List, [], ◌∷◌, ◌++◌, Option, none, some, ◌≤◌, ◌<◌, ◌≡◌, ◌≢◌,
  refl, sym, ap, ◌∙◌, ◌+◌, ◌-◌, ◌==◌, arith, if◌then◌else◌, length, drop,
}
use mathlib.Core.Path.{subst}
use mathlib.Core.List.{append-nil, append_assoc}
use kext.Ipc.State.{FuseData}
use kext.Vnode.Readdir.{
  Dirent, Uio, Reader, fuse_dirent_size, namelen_of, bytesavail, cooked, stops, advanced, reported,
  process, concluded, fuse_internal_readdir_processdata,
}

length-drop : (k : ℕ) (xs : List ℕ) → length (drop k xs) ≡ length xs - k
length-drop zero xs = omega arith
length-drop (suc k) [] = omega arith
length-drop (suc k) (x ∷ xs) = omega (arith, length-drop k xs)

module _ (reader : Reader) where
  -- The bytes of these entries in the reader's buffer.
  pub total : List Dirent → ℕ
  total [] = 0
  total (e ∷ es) = bytesavail reader e.d_namlen + total es

  total-append : (xs ys : List Dirent) → total (xs ++ ys) ≡ total xs + total ys
  unfolding total
  total-append [] ys = omega arith
  total-append (x ∷ xs) ys = omega (arith, total-append xs ys)

  -- Entries were added at the end, and their bytes are what was taken of the buffer.
  pub record Filled (before after : Uio) : Type 0 where
    pub entries : List Dirent
    pub appended : after.moved ≡ before.moved ++ entries
    pub spent : after.resid + total entries ≡ before.resid

  pub Filled-refl : (u : Uio) → Filled u u
  unfolding total
  Filled-refl u = record { entries = []; appended = sym (append-nil u.moved); spent = omega arith }

  pub Filled-trans : (u v w : Uio) → Filled u v → Filled v w → Filled u w
  Filled-trans u v w p q = record {
    entries = p.entries ++ q.entries;
    appended =
        q.appended
        ∙ ap (λ xs. xs ++ q.entries) p.appended
        ∙ append_assoc u.moved p.entries q.entries;
    spent = omega (arith, p.spent, q.spent, total-append p.entries q.entries);
  }

module _ (reader : Reader) (d : FuseData) where
  module _ (buf : List ℕ) (uio : Uio) (first : Bool)
      (e : stops reader d first buf uio.resid ≡ none) where
    goes_on :
        (24 ≤ length buf)
        × (fuse_dirent_size (namelen_of buf) ≤ length buf)
        × (bytesavail reader (namelen_of buf) ≤ uio.resid)
    unfolding stops
    goes_on = ground (arith, e)

    moved_one : Filled reader uio (advanced reader d buf uio)
    unfolding advanced total cooked
    moved_one = record {
      entries = cooked reader d buf ∷ [];
      appended = refl;
      spent = omega (arith, goes_on.2);
    }

    less_left : length (drop (fuse_dirent_size (namelen_of buf)) buf) < length buf
    less_left =
        omega (arith, goes_on.0, goes_on.1, length-drop (fuse_dirent_size (namelen_of buf)) buf)

    smaller : (advanced reader d buf uio).resid < uio.resid
    unfolding advanced
    smaller = omega (arith, goes_on.2)

  -- An answer without a whole entry at its start is an error or the end.
  first_stops : (buf : List ℕ) (resid err : ℕ) → stops reader d true buf resid ≡ some err → err ≢ 0
  unfolding stops
  first_stops buf resid err e = ground (arith, e)

  -- What a run of the loop leaves: with the errno 0 some entry was moved, if none was before.
  pub record Processed (n : ℕ) (before : Uio) (r : ℕ × Uio) : Type 0 where
    pub filled : Filled reader before r.1
    pub progress : r.0 ≡ 0 → n ≡ 0 → r.1.resid < before.resid

  -- The rest of the loop has a result, and what it does counts.
  Finishes : ℕ → Uio → Option (ℕ × Uio) → Type 0
  Finishes n uio o = (r : ℕ × Uio) × (o ≡ some r) × Processed n uio r

  reported-Processed :
      (n stop : ℕ) (uio : Uio) → (n ≡ 0 → stop ≢ 0) → Processed n uio (reported reader d n stop uio)
  unfolding reported total
  reported-Processed n stop uio h = record {
    filled = either (stop == 0);
    progress = λ success first. absurd (h first success);
  }
    where
      either : (b : Bool) → Filled reader uio (if b then record uio { numdirent = n } else uio)
      either true = record {
        entries = [];
        appended = sym (append-nil uio.moved);
        spent = omega arith;
      }
      either false = Filled-refl reader uio

  Finishes-if :
      (n : ℕ) (uio : Uio) (b : Bool) (x y : Option (ℕ × Uio))
      → (b ≡ true → Finishes n uio x)
      → (b ≡ false → Finishes n uio y)
      → Finishes n uio (if b then x else y)
  Finishes-if n uio true x y h g = h refl
  Finishes-if n uio false x y h g = g refl

  -- One entry was moved, then the rest.
  after_one :
      (n : ℕ) (buf : List ℕ) (uio : Uio) (first : Bool)
      → stops reader d first buf uio.resid ≡ none
      → (o : Option (ℕ × Uio)) → Finishes (n + 1) (advanced reader d buf uio) o
      → Finishes n uio o
  unfolding Finishes
  after_one n buf uio first e o (r, is, p) = (
    r,
    is,
    record {
      filled =
          Filled-trans reader uio (advanced reader d buf uio) r.1 (moved_one buf uio first e)
            p.filled;
      progress = λ success first'. omega (arith, p.filled.spent, smaller buf uio first e);
    },
  )

  concluded-Finishes :
      (n : ℕ) (buf : List ℕ) (uio : Uio) (err : ℕ) (o : Option ℕ) (rest : Option (ℕ × Uio))
      → stops reader d (n == 0) buf uio.resid ≡ o
      → (o ≡ none → Finishes (n + 1) (advanced reader d buf uio) rest)
      → Finishes n uio (concluded reader d o n err uio rest)
  unfolding concluded Finishes
  concluded-Finishes n buf uio err (some stop) rest e h = (
    reported reader d n stop uio,
    refl,
    reported-Processed n stop uio (λ first.
        first_stops buf uio.resid stop
          (subst (λ m. stops reader d (m == 0) buf uio.resid ≡ some stop) first e)),
  )
  concluded-Finishes n buf uio err none rest e h =
      Finishes-if n uio (err == 0) rest (some (err, uio))
        (λ _. after_one n buf uio (n == 0) e rest (h refl))
        (λ fails. (
          (err, uio),
          refl,
          record {
            filled = Filled-refl reader uio;
            progress = λ success first. absurd (ground (arith, fails, success));
          },
        ))

  process-Finishes :
      (fuel n : ℕ) (buf : List ℕ) (uio : Uio)
      → length buf < fuel
      → Finishes n uio (process reader d fuel n buf uio)
  unfolding process
  process-Finishes zero n buf uio h = absurd (omega arith)
  process-Finishes (suc fuel) n buf uio h =
      concluded-Finishes n buf uio (reader.uiomove (bytesavail reader (namelen_of buf)))
        (stops reader d (n == 0) buf uio.resid) _ refl
        (λ e.
          process-Finishes fuel (n + 1) (drop (fuse_dirent_size (namelen_of buf)) buf)
            (advanced reader d buf uio) (omega (arith, h, less_left buf uio (n == 0) e)))

  -- On every answer of the daemon, whatever its bytes, the loop of
  -- fuse_internal_readdir_processdata ends within its fuel, one more than the answer has bytes.
  -- Entries were only added behind those that the reader had, and the room left in his buffer is
  -- less by exactly their sizes; where the errno is 0 it is less than before.
  pub fuse_internal_readdir_processdata-Finishes :
      (buf : List ℕ) (uio : Uio)
      → (r : ℕ × Uio) × (fuse_internal_readdir_processdata reader d buf uio ≡ some r)
        × Processed 0 uio r
  unfolding fuse_internal_readdir_processdata Finishes
  fuse_internal_readdir_processdata-Finishes buf uio =
      process-Finishes (suc (length buf)) 0 buf uio (omega arith)
