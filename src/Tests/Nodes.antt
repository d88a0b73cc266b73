-- ===== src/Tests/Nodes.antt =====
-- The theorems on locks, on a directory, two files in it and NULL.
use kext.Prelude.{ℕ, ◌<◌, count, ◌≡◌, ◌⊎◌, refl, true, false, [], ◌∷◌, arith, ◌==◌, if◌then◌else◌}
use kext.Errno.{enoent}
use kext.Locking.{FuseNode, Locks, nobody, fusefs_exclusive_lock, fusefs_lockpair}
use kext.Locking.Pair.{fusefs_lockpair_disagrees}
use kext.Locking.Four.{fusefs_lockfour}
use kext.Locking.Four.Order.{IsTree}
use kext.Locking.Four.Held.{wanted, LockedAll, LockedNone, fusefs_lockfour_all_or_none}

abbrev directory : FuseNode
directory = record {
  is_dir = true;
  nodeid = 2;
  parent_nodeid = 1;
  noexists = false;
  need_data_setsize = false;
  need_dvnode_put = false;
  has_vnode = true;
  nodelockowner = nobody;
}

-- The node at address 50 is a directory, the others are files in it.
abbrev pub nodes : Locks
nodes = record {
  node = λ p.
      if p == 50
      then directory
      else record directory { is_dir = false; nodeid = 3; parent_nodeid = 2 };
  held = [];
  posted = [];
  deadlocked = false;
}

pub tree : IsTree nodes.node 50 10 0 50
tree = record { acyclic = λ a b i j e f. ground arith; real = λ a i. ground arith }

fusefs_lockfour_all_or_none_example :
    ((((fusefs_lockfour fusefs_exclusive_lock 50 10 0 50 nodes).1 ≡ 0)
        × LockedAll fusefs_exclusive_lock 50 10 0 50 nodes
            (fusefs_lockfour fusefs_exclusive_lock 50 10 0 50 nodes).0)
      ⊎ (((fusefs_lockfour fusefs_exclusive_lock 50 10 0 50 nodes).1 ≡ enoent)
          × LockedNone fusefs_exclusive_lock 50 10 0 50 nodes
              (fusefs_lockfour fusefs_exclusive_lock 50 10 0 50 nodes).0))
    × (((fusefs_lockfour fusefs_exclusive_lock 50 10 0 50 nodes).0.deadlocked ≡ false)
        ⊎ (nodes.deadlocked ≡ true)
        ⊎ ((a : ℕ) × (wanted a 50 10 0 50 ≡ 1) × (0 < count a nodes.held)))
fusefs_lockfour_all_or_none_example =
    fusefs_lockfour_all_or_none fusefs_exclusive_lock 50 10 0 50 nodes tree

fusefs_lockpair_disagrees_example :
    ((fusefs_lockpair fusefs_exclusive_lock 10 50 nodes).0.held ≡ 50 ∷ 10 ∷ [])
    × ((fusefs_lockpair fusefs_exclusive_lock 50 10 nodes).0.held ≡ 10 ∷ 50 ∷ [])
fusefs_lockpair_disagrees_example =
    fusefs_lockpair_disagrees fusefs_exclusive_lock 10 50 nodes (omega arith) refl refl refl refl
