-- ===== src/Node/Made.antt =====
-- fuse_node.c: the vnode that is created for a node.
use mathlib.Core.Option
use kext.Prelude.{
  ℕ, Bool, true, false, ◌≡◌, refl, sym, ap, ◌∙◌, inl, inr, ◌+◌, ◌%◌, ◌^◌, ◌==◌, ◌∷◌, some,
  if◌then◌else◌, arith, Bool-cases,
}
use kext.BigLock.{Thread, fuse_biglock_lock, fuse_biglock_unlock}
use kext.Node.State.{
  EntryOut, FsParam, Shared, Host, Cache, after_create, at, with_data, vnode_addfsref,
}
use kext.Node.Create.{
  lock_nodes, unlock_nodes, attach, created, create_vnode, new_data, zero_data, size_of,
  parent_nodeid_of,
}
use kext.Node.Laws.{SameNode, IsDocumented}
use kext.Node.Found.{Goes, Kept, Same, Made}

module _ {K Tree : Type 0} (host : Host K Tree) (is_root : Bool) (feo : EntryOut) (dvp vtyp p : ℕ)
    (u : Thread (Cache K Tree)) where
  -- The shared state with the new data, which has no vnode yet, and the kernel's answer on it.
  abbrev prepared : Shared K Tree
  prepared =
      with_data p
        (new_data vtyp dvp (parent_nodeid_of host dvp u.rest.shared) (size_of host is_root feo) feo)
        u.rest.shared

  abbrev pub params : FsParam
  params = record {
    vnfs_vtype = vtyp;
    vnfs_dvp = dvp;
    vnfs_fsnode = p;
    vnfs_filesize = size_of host is_root feo;
    vnfs_markroot = is_root;
  }

  abbrev pub kernel_answer : ℕ × ℕ × K
  kernel_answer = host.kpi.vnode_create prepared.kernel params

  -- The shared state once the big lock is taken again.
  abbrev pub later : Shared K Tree
  later = host.others after_create (record prepared { kernel = kernel_answer.2 })

  abbrev pub linked : Shared K Tree
  linked =
      with_data p
        (record (later.fvdat p) {
          parentvp = if is_root then kernel_answer.1 else dvp;
          vp = kernel_answer.1;
          vid = host.kpi.vnode_vid later.kernel kernel_answer.1;
        })
        later

  abbrev pub attached : Thread (Cache K Tree)
  attached = record u {
    biglock = true;
    rest = record u.rest {
      node_mtx = false;
      references = at u.rest.references kernel_answer.1 (u.rest.references kernel_answer.1 + 1);
      oflags = Option.map (λ flags. true) u.rest.oflags;
      calls = vnode_addfsref kernel_answer.1 ∷ u.rest.calls;
      shared = record linked {
        nodes_head = host.rb.rb_insert linked.nodes_head (linked.fvdat p).nodeid p;
        fuse_vnodes_current = (linked.fuse_vnodes_current + 1) % 2 ^ 32;
      };
    };
  }

  abbrev destroyed : Thread (Cache K Tree)
  destroyed = record u {
    biglock = true;
    rest = record u.rest { shared = with_data p zero_data later };
  }

  pub create_vnode_ok :
      u.biglock ≡ true
      → u.rest.node_mtx ≡ false
      → kernel_answer.0 ≡ 0
      → create_vnode host is_root feo dvp vtyp p u ≡ some ((0, kernel_answer.1), attached)
  unfolding create_vnode created attach lock_nodes unlock_nodes fuse_biglock_lock
      fuse_biglock_unlock
  create_vnode_ok b m e = ground (arith, b, m, e)

  create_vnode_fails :
      u.biglock ≡ true
      → (kernel_answer.0 == 0) ≡ false
      → create_vnode host is_root feo dvp vtyp p u ≡ some ((kernel_answer.0, 0), destroyed)
  unfolding create_vnode created fuse_biglock_lock fuse_biglock_unlock
  create_vnode_fails b e = ground (arith, b, e)

  pub linked-node : (q : ℕ) → (linked.fvdat q).nodeid ≡ (later.fvdat q).nodeid
  linked-node q = elim (Bool-cases (p == q)) [
    | inl e ↦ rw (e) (ap (λ x. (later.fvdat x).nodeid) (ground arith))
    | inr e ↦ rw (e) refl
  ]

  module _ {Held : K → ℕ → Type 0} (docs : IsDocumented host Held) (ok : kernel_answer.0 ≡ 0) where
    -- The new vnode was not reused while the big lock was not held.
    same_node : SameNode host kernel_answer.1 (record prepared { kernel = kernel_answer.2 }) later
    same_node =
        docs.held_identity (record prepared { kernel = kernel_answer.2 }) kernel_answer.1
          (docs.create_held prepared.kernel params ok)

    later_fsnode : host.kpi.vnode_fsnode later.kernel kernel_answer.1 ≡ p
    later_fsnode = same_node.fsnode ∙ docs.create_fsnode prepared.kernel params ok

    prepared_nodeid : (prepared.fvdat p).nodeid ≡ feo.nodeid
    unfolding new_data
    prepared_nodeid = ground arith

    pub later_nodeid : (later.fvdat p).nodeid ≡ feo.nodeid
    later_nodeid =
        ap (λ q. (later.fvdat q).nodeid) (sym later_fsnode)
        ∙ same_node.nodeid
        ∙ ap (λ q. (prepared.fvdat q).nodeid) (docs.create_fsnode prepared.kernel params ok)
        ∙ prepared_nodeid

  pub create_vnode-Made :
      {Held : K → ℕ → Type 0} (t : Thread (Cache K Tree))
      → IsDocumented host Held
      → Kept host feo.nodeid t u
      → Same host feo.nodeid t u
      → Goes (Made host feo.nodeid t) (create_vnode host is_root feo dvp vtyp p u)
  unfolding Made
  create_vnode-Made t docs kept same = elim (Bool-cases (kernel_answer.0 == 0)) [
    | inl e ↦ rw (create_vnode_ok kept.biglock kept.node_mtx (ground arith)) (
      record { locks = kept.locks; biglock = refl; node_mtx = refl },
      inl (
        refl,
        record {
          references = λ v. ground (arith, same v);
          node =
              linked-node (host.kpi.vnode_fsnode later.kernel kernel_answer.1)
              ∙ ap (λ q. (later.fvdat q).nodeid) (later_fsnode docs (ground arith))
              ∙ later_nodeid docs (ground arith);
        },
      ),
    )
    | inr e ↦ rw (create_vnode_fails kept.biglock e) (
      record { locks = kept.locks; biglock = refl; node_mtx = kept.node_mtx },
      inr (ground arith, same),
    )
  ]
