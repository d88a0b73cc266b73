-- ===== src/Tests/BigLocks.antt =====
-- The wrappers, on an operation that fails after it has changed the state.
use kext.Prelude.{ℕ, false, refl, some, suc, count-nil}
use kext.BigLock.{Thread, M}
use kext.BigLock.Entries.{Nodes, vnop_rename, fuse_biglock_vnode_operation_entries}
use kext.BigLock.Bracket.{IsBalanced, IsBracketed}
use kext.BigLock.Table.{nodes_of, entry-IsBracketed}
use kext.Tests.Nodes.{nodes, tree}

abbrev idle : Thread ℕ
idle = record { locks = nodes; biglock = false; rest = 7 }

-- An operation that counts its calls and returns EIO.
abbrev counting : M ℕ ℕ
counting s = some (5, record s { rest = suc s.rest })

abbrev arguments : Nodes
arguments = record { a_vp = 10; a_dvp = 50; a_fvp = 0; a_tvp = 50; a_fdvp = 10; a_tdvp = 50 }

counting-IsBalanced : IsBalanced counting (nodes_of vnop_rename arguments)
counting-IsBalanced = record {
  returns = λ s b h. ((5, record s { rest = suc s.rest }), refl, b, refl);
}

entry-IsBracketed_example :
    IsBracketed counting
      (nodes_of vnop_rename arguments)
      idle
      (fuse_biglock_vnode_operation_entries counting vnop_rename arguments idle)
entry-IsBracketed_example =
    entry-IsBracketed counting vnop_rename arguments idle refl refl (λ a c. count-nil a) (λ e. tree)
      counting-IsBalanced
