-- ===== src/Vnode/Readdir/Entries.antt =====
-- fuse_internal.c: which entries the reader of a directory gets.
use kext.Prelude.{
  ℕ, zero, suc, Bool, List, [], ◌∷◌, ◌++◌, map, none, some, ◌≤◌, ◌<◌, ◌≡◌, refl, sym, ap, ◌∙◌, ◌+◌,
  ◌==◌, ltb, Bool-cases, inl, inr, arith, length, take, drop, length-append,
}
use mathlib.Core.List.{append-nil, append_assoc}
use kext.Ipc.State.{FuseData}
use kext.Ipc.Answer.{le, u32_at}
use kext.Vnode.Attr.{u64_at}
use kext.Vnode.Session.{fuse_skip_apple_double_mp}
use kext.Vnode.Readdir.{
  Uio, Reader, minus_one, fuse_dirent_size, namelen_of, name_of, bytesavail, cooked, stops,
  advanced, reported, concluded, process, fuse_internal_readdir_processdata,
}

-- A window of bytes inside the first of two runs, and the second run behind the first.
take-drop-append :
    (n k : ℕ) (xs ys : List ℕ) → k + n ≤ length xs → take n (drop k (xs ++ ys)) ≡ take n (drop k xs)
take-drop-append zero k xs ys h = refl
take-drop-append (suc n) zero [] ys h = absurd (omega arith)
take-drop-append (suc n) zero (x ∷ xs) ys h =
    ap (λ zs. x ∷ zs) (take-drop-append n 0 xs ys (omega arith))
take-drop-append (suc n) (suc k) [] ys h = absurd (omega arith)
take-drop-append (suc n) (suc k) (x ∷ xs) ys h = take-drop-append (suc n) k xs ys (omega arith)

drop-append : (xs ys : List ℕ) → drop (length xs) (xs ++ ys) ≡ ys
drop-append [] ys = refl
drop-append (x ∷ xs) ys = drop-append xs ys

-- A whole `struct fuse_dirent` with a name that the kernel takes.
pub record IsEntry (bytes : List ℕ) : Type 0 where
  pub whole : length bytes ≡ fuse_dirent_size (namelen_of bytes)
  pub named : 1 ≤ namelen_of bytes
  pub short : namelen_of bytes ≤ 255

abbrev pub AllEntries : List (List ℕ) → Type 0
AllEntries [] = Unit {0}
AllEntries (e ∷ es) = IsEntry e × AllEntries es

unfoldable pub joined : List (List ℕ) → List ℕ
joined [] = []
joined (e ∷ es) = e ++ joined es

length-joined : (es : List (List ℕ)) → AllEntries es → length es ≤ length (joined es)
unfolding joined
length-joined [] all = omega arith
length-joined (e ∷ es) all =
    omega (arith, length-append e (joined es), length-joined es all.1, all.0.whole)

module _ (reader : Reader) (d : FuseData) where
  -- The bytes that the entries take of the reader's buffer.
  unfoldable pub room : List (List ℕ) → ℕ
  room [] = 0
  room (e ∷ es) = bytesavail reader (namelen_of e) + room es

  module _ (e rest : List ℕ) (is : IsEntry e) where
    same_namelen : namelen_of (e ++ rest) ≡ namelen_of e
    same_namelen = ap le (take-drop-append 4 16 e rest (omega (arith, is.whole)))

    same_name : name_of (e ++ rest) ≡ name_of e
    same_name =
        ap (λ n. take n (drop 24 (e ++ rest))) same_namelen
        ∙ take-drop-append (namelen_of e) 24 e rest (omega (arith, is.whole))

    same_offset : u64_at 8 (e ++ rest) ≡ u64_at 8 e
    same_offset = ap le (take-drop-append 8 8 e rest (omega (arith, is.whole)))

    same_ino : u64_at 0 (e ++ rest) ≡ u64_at 0 e
    same_ino = ap le (take-drop-append 8 0 e rest (omega (arith, is.whole)))

    same_type : u32_at 20 (e ++ rest) ≡ u32_at 20 e
    same_type = ap le (take-drop-append 4 20 e rest (omega (arith, is.whole)))

    -- The bytes behind the name that the test for hidden names reads stand in the entry.
    same_hidden :
        fuse_skip_apple_double_mp d (drop 24 (e ++ rest)) (namelen_of (e ++ rest))
        ≡ fuse_skip_apple_double_mp d (drop 24 e) (namelen_of e)
    unfolding fuse_skip_apple_double_mp
    same_hidden = rw same_namelen elim (Bool-cases (ltb 2 (namelen_of e))) [
      | inl long ↦ elim (Bool-cases (namelen_of e == 9)) [
        | inl nine ↦
            rw
              (
                take-drop-append 10 24 e rest (ground (arith, nine, is.whole)),
                take-drop-append 2 24 e rest (ground (arith, long, is.whole)),
              )
              refl
        | inr other ↦ rw (other, take-drop-append 2 24 e rest (ground (arith, long, is.whole))) refl
      ]
      | inr few ↦ rw few refl
    ]

    same_cooked : cooked reader d (e ++ rest) ≡ cooked reader d e
    unfolding cooked
    same_cooked = rw (same_hidden, same_name, same_ino, same_type, same_namelen) refl

    same_advanced : (uio : Uio) → advanced reader d (e ++ rest) uio ≡ advanced reader d e uio
    unfolding advanced
    same_advanced uio = rw (same_cooked, same_offset, same_namelen) refl

    behind : drop (fuse_dirent_size (namelen_of (e ++ rest))) (e ++ rest) ≡ rest
    behind =
        ap (λ n. drop n (e ++ rest)) (ap fuse_dirent_size same_namelen ∙ sym is.whole)
        ∙ drop-append e rest

    runs :
        (first : Bool) (resid : ℕ)
        → bytesavail reader (namelen_of e) ≤ resid
        → stops reader d first (e ++ rest) resid ≡ none
    unfolding stops
    runs first resid h =
        ground (arith, h, same_namelen, is.whole, is.named, is.short, length-append e rest)

  nothing_left :
      (fuel n : ℕ) (uio : Uio) → process reader d (suc fuel) n [] uio ≡ some (minus_one, uio)
  unfolding process concluded stops reported
  nothing_left fuel n uio = refl

  module _ (moves : (n : ℕ) → reader.uiomove n ≡ 0) where
    process_once :
        (e rest : List ℕ) (is : IsEntry e) (fuel n : ℕ) (uio : Uio)
        → bytesavail reader (namelen_of e) ≤ uio.resid
        → process reader d (suc fuel) n (e ++ rest) uio
          ≡ process reader d fuel (n + 1) rest (advanced reader d e uio)
    unfolding process concluded
    process_once e rest is fuel n uio h =
        rw
          (
            runs e rest is (n == 0) uio.resid h,
            moves (bytesavail reader (namelen_of (e ++ rest))),
            behind e rest is,
            same_advanced e rest is uio,
          )
          refl

    -- The reader's buffer after these entries.
    filled : List (List ℕ) → Uio → Uio
    filled [] uio = uio
    filled (e ∷ es) uio = filled es (advanced reader d e uio)

    process-joined :
        (es : List (List ℕ)) (fuel n : ℕ) (uio : Uio)
        → length es < fuel
        → AllEntries es
        → room es ≤ uio.resid
        → process reader d fuel n (joined es) uio ≡ some (minus_one, filled es uio)
    unfolding joined room filled advanced
    process-joined es zero n uio h all fits = absurd (omega arith)
    process-joined [] (suc fuel) n uio h all fits = nothing_left fuel n uio
    process-joined (e ∷ es) (suc fuel) n uio h all fits =
        process_once e (joined es) all.0 fuel n uio (omega (arith, fits))
        ∙ process-joined es fuel (n + 1) (advanced reader d e uio) (omega (arith, h)) all.1
            (omega (arith, fits))

    filled-moved :
        (es : List (List ℕ)) (uio : Uio)
        → (filled es uio).moved ≡ uio.moved ++ map (cooked reader d) es
    unfolding filled advanced
    filled-moved [] uio = sym (append-nil uio.moved)
    filled-moved (e ∷ es) uio =
        filled-moved es (advanced reader d e uio)
        ∙ append_assoc uio.moved (cooked reader d e ∷ []) (map (cooked reader d) es)

    filled-resid :
        (es : List (List ℕ)) (uio : Uio)
        → room es ≤ uio.resid
        → (filled es uio).resid + room es ≡ uio.resid
    unfolding filled advanced room
    filled-resid [] uio h = omega arith
    filled-resid (e ∷ es) uio h =
        omega (arith, h, filled-resid es (advanced reader d e uio) (omega (arith, h)))

    -- Let uiomove always succeed. For an answer that is a run of whole struct fuse_dirents, each
    -- padded to its size and with a name of 1 to 255 bytes, which fit together into what is left
    -- of the reader's buffer, fuse_internal_readdir_processdata returns -1 (nothing left to do)
    -- within its fuel. The reader has got exactly one struct dirent for each, in their order,
    -- behind those that were there, and the room left is less by exactly their sizes.
    pub fuse_internal_readdir_processdata-joined :
        (es : List (List ℕ)) (uio : Uio)
        → AllEntries es
        → room es ≤ uio.resid
        → (after : Uio) × (fuse_internal_readdir_processdata reader d (joined es) uio
            ≡ some (minus_one, after))
          × (after.moved ≡ uio.moved ++ map (cooked reader d) es)
          × (after.resid + room es ≡ uio.resid)
    unfolding fuse_internal_readdir_processdata
    fuse_internal_readdir_processdata-joined es uio all fits = (
      filled es uio,
      process-joined es (suc (length (joined es))) 0 uio (omega (arith, length-joined es all)) all
          fits,
      filled-moved es uio,
      filled-resid es uio fits,
    )
