-- ===== src/Tests/NodeTable.antt =====
-- The vnodes of nodes, with a small kernel: its vnodes are regular files with id 1, and a new vnode is
-- at address 9. The tree is a function.
use kext.Prelude.{
  ℕ, false, true, Option, none, some, ◌≡◌, refl, ◌==◌, ◌/◌, if◌then◌else◌, is_zero, [], inl, arith,
  Bool-cases, inr,
}
use kext.Errno.{enoent}
use kext.BigLock.{Thread}
use kext.Node.State.{EntryOut, NodeData, Kpi, RbTree, Host, Cache, at}
use kext.Node.Create.{fuse_vnode_compare, find_node, create_vnode, zero_data, zero_time}
use kext.Node.Get.{fuse_vget_i, fs_node_get_or_create_file_vnode_by_id}
use kext.Node.Laws.{IsDocumented, IsFiled, IsSearchTree, or_else}
use kext.Node.Found.{Goes}
use kext.Node.Made.{kernel_answer}
use kext.Node.Identity.{Ends, fs_node_get_or_create_file_vnode_by_id-Ends}
use kext.Node.Filing.{IsFound, find_node-create_vnode}
use kext.Tests.Nodes.{nodes}

-- The data of each vnode.
abbrev Vnodes : Type 0
Vnodes = ℕ → ℕ

abbrev Found : Type 0
Found = ℕ → Option ℕ

abbrev kpi : Kpi Vnodes
kpi = record {
  vnode_vid = λ k vn. 1;
  vnode_vtype = λ k vn. 1;
  vnode_fsnode = λ k vn. k vn;
  vnode_getwithvid = λ k vn vid. (if vid == 1 then 0 else enoent, k);
  vnode_create = λ k params. (0, 9, at k 9 params.vnfs_fsnode);
  vnode_put = λ k vn. k;
  iftovt = λ mode. mode / 32768;
}

abbrev rb : RbTree Found
rb = record {
  rb_find = λ tree nodeid. tree nodeid;
  rb_insert = λ tree inserted p nodeid.
      if is_zero (fuse_vnode_compare nodeid inserted) then or_else (tree nodeid) p else tree nodeid;
}

abbrev host : Host Vnodes Found
host = record { kpi = kpi; rb = rb; fuse_os_malloc = λ h. 500; others = λ point h. h }

abbrev root_data : NodeData
root_data = record zero_data { vp = 4; nodeid = 1 }

-- The tree has the root, whose vnode is 4 and whose data is at 400.
abbrev idle : Thread (Cache Vnodes Found)
idle = record {
  locks = nodes;
  biglock = true;
  rest = record {
    shared = record {
      nodes_head = λ nodeid. if nodeid == 1 then some 400 else none;
      fvdat = at (λ p. zero_data) 400 root_data;
      kernel = λ vn. if vn == 4 then 400 else 0;
      fuse_vnodes_current = 1;
    };
    node_mtx = false;
    references = λ vn. 0;
    oflags = none;
    calls = [];
  };
}

-- A regular file with node id 7.
abbrev file : EntryOut
file = record {
  nodeid = 7;
  generation = 1;
  entry_valid = zero_time;
  attr_valid = zero_time;
  attr = record {
    ino = 7;
    size = 100;
    blocks = 1;
    atime = zero_time;
    mtime = zero_time;
    ctime = zero_time;
    crtime = zero_time;
    mode = 33188;
    nlink = 1;
    uid = 0;
    gid = 0;
    rdev = 0;
    flags = 0;
  };
}

AnyHeld : Vnodes → ℕ → Type 0
AnyHeld k vn = ℕ

host-IsDocumented : IsDocumented host AnyHeld
unfolding AnyHeld
host-IsDocumented = record {
  getwithvid_errno = λ k vn vid. elim (Bool-cases (vid == 1)) [
    | inl e ↦ inl (ground (arith, e))
    | inr e ↦ inr (ground (arith, e))
  ];
  getwithvid_fsnode = λ k vn vid u. refl;
  vid_identity = λ h vn e. record { fsnode = refl; nodeid = refl; generation = refl };
  create_fsnode = λ k params e. refl;
  create_held = λ k params e. 0;
  held_identity = λ h vn e. record { fsnode = refl; nodeid = refl; generation = refl };
}

idle-IsFiled : IsFiled host idle.rest.shared
idle-IsFiled = record { filed = λ nodeid p e. (ground arith, ground arith) }

rb-IsSearchTree : IsSearchTree rb
rb-IsSearchTree = record { find_inserted = λ tree nodeid inserted p. refl }

fs_node_get_or_create_file_vnode_by_id-Ends_example :
    Goes (Ends host file idle) (fs_node_get_or_create_file_vnode_by_id host false file 4 idle)
fs_node_get_or_create_file_vnode_by_id-Ends_example =
    fs_node_get_or_create_file_vnode_by_id-Ends host file idle host-IsDocumented false 4
      idle-IsFiled refl refl

find_node-create_vnode_example :
    (w : Thread (Cache Vnodes Found)) × (create_vnode host false file 4 1 500 idle
      ≡ some ((0, (kernel_answer host false file 4 1 500 idle).1), w))
    × Goes
        (λ found _.
          IsFound host false file 4 1 500 idle (kernel_answer host false file 4 1 500 idle).1 found)
        (find_node host 7 w)
find_node-create_vnode_example =
    find_node-create_vnode host false file 4 1 500 idle host-IsDocumented rb-IsSearchTree refl refl
      refl

-- The file gets a new vnode with one reference, and the tree finds it.
returns_9 :
    Goes
      (λ r u.
        (r ≡ (0, some 9)) × (u.rest.references 9 ≡ 1) × (u.rest.shared.nodes_head 7 ≡ some 500))
      (fs_node_get_or_create_file_vnode_by_id host false file 4 idle)
unfolding fs_node_get_or_create_file_vnode_by_id fuse_vnode_compare
returns_9 = (refl, refl, refl)

-- A lookup is counted on the node's data, and its name is noted.
counts_lookup :
    Goes
      (λ r u. (r ≡ (0, some 9)) × ((u.rest.shared.fvdat 500).nlookup ≡ 1))
      (fuse_vget_i host true (some file) 4 idle)
unfolding fuse_vget_i fs_node_get_or_create_file_vnode_by_id fuse_vnode_compare
counts_lookup = (refl, refl)

no_entry : Goes (λ r u. r ≡ (22, none)) (fuse_vget_i host true none 4 idle)
unfolding fuse_vget_i
no_entry = refl
