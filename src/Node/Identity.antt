-- ===== src/Node/Identity.antt =====
-- fuse_node.c: which vnode FSNodeGetOrCreateFileVNodeByID returns, and which references it keeps.
use kext.Prelude.{
  ℕ, Bool, true, false, Option, none, some, ◌≡◌, ◌≢◌, refl, inl, inr, ◌+◌, ◌-◌, ◌==◌, if◌then◌else◌,
  arith, Bool-cases, ◌∷◌,
}
use kext.Errno.{eio, estale}
use kext.BigLock.{Thread, fuse_biglock_lock, fuse_biglock_unlock}
use kext.Node.State.{EntryOut, Host, Cache, while_purging, at, fuse_vncache_purge}
use kext.Node.Create.{bad_vtype, find_node}
use kext.Node.Get.{
  reject, check_vnode, checked, create_missing, get_found, fs_node_get_or_create_file_vnode_by_id,
}
use kext.Node.Laws.{data_of, IsDocumented, IsFiled}
use kext.Node.Found.{
  Goes, Goes-bind, Kept, Has, Found, Made, Opened, find_node-Opened, get_found-Found,
}
use kext.Node.Made.{create_vnode-Made}

module _ {K Tree : Type 0} (host : Host K Tree) (feo : EntryOut) (t : Thread (Cache K Tree)) where
  -- The function returns the node's vnode, of the type and the generation that the daemon says, and
  -- exactly one reference more.
  pub record Gained (vn : ℕ) (u : Thread (Cache K Tree)) : Type 0 where
    pub references :
        (v : ℕ) → u.rest.references v ≡ (if vn == v then 1 else 0) + t.rest.references v
    pub nodeid : (data_of host u.rest.shared vn).nodeid ≡ feo.nodeid
    pub generation : (data_of host u.rest.shared vn).generation ≡ feo.generation
    pub vtype : host.kpi.vnode_vtype u.rest.shared.kernel vn ≡ host.kpi.iftovt feo.attr.mode

  -- The function returns an errno and keeps no reference.
  pub record Lost (errno : ℕ) (u : Thread (Cache K Tree)) : Type 0 where
    pub error : errno ≢ 0
    pub references : (v : ℕ) → u.rest.references v ≡ t.rest.references v

  unfoldable pub Ends : ℕ × Option ℕ → Thread (Cache K Tree) → Type 0
  Ends (errno, none) u = Kept host feo.nodeid t u × Lost errno u
  Ends (errno, some vn) u = Kept host feo.nodeid t u × (errno ≡ 0) × Gained vn u

  -- The thread after a vnode was purged and given back.
  abbrev given_back : ℕ → Thread (Cache K Tree) → Thread (Cache K Tree)
  given_back vn u = record u {
    biglock = true;
    rest = record u.rest {
      shared = record (host.others while_purging u.rest.shared) {
        kernel = host.kpi.vnode_put (host.others while_purging u.rest.shared).kernel vn;
      };
      references = at u.rest.references vn (u.rest.references vn - 1);
      calls = fuse_vncache_purge vn ∷ u.rest.calls;
    };
  }

  reject_lem :
      (vn errno : ℕ) (u : Thread (Cache K Tree))
      → u.biglock ≡ true
      → reject host vn errno u ≡ some ((errno, none), given_back vn u)
  unfolding reject fuse_biglock_lock fuse_biglock_unlock
  reject_lem vn errno u b = ground (arith, b)

  reject-Ends :
      (vn errno : ℕ) (u : Thread (Cache K Tree))
      → errno ≢ 0
      → Kept host feo.nodeid t u
      → Has host feo.nodeid t vn u
      → Goes Ends (reject host vn errno u)
  unfolding Ends
  reject-Ends vn errno u n kept has = rw (reject_lem vn errno u kept.biglock) (
    record { locks = kept.locks; biglock = refl; node_mtx = kept.node_mtx },
    record { error = n; references = λ v. ground (arith, has.references v, has.references vn) },
  )

  check_vnode-Ends :
      (vn : ℕ) (u : Thread (Cache K Tree))
      → Kept host feo.nodeid t u
      → Has host feo.nodeid t vn u
      → Goes Ends (check_vnode host (host.kpi.iftovt feo.attr.mode) feo.generation vn u)
  unfolding check_vnode Ends
  check_vnode-Ends vn u kept has =
      elim (Bool-cases
        (host.kpi.vnode_vtype u.rest.shared.kernel vn == host.kpi.iftovt feo.attr.mode)) [
          | inr e ↦ rw (e) (reject-Ends vn eio u (ground arith) kept has)
          | inl e ↦
              elim (Bool-cases ((data_of host u.rest.shared vn).generation == feo.generation)) [
                | inr f ↦ rw (e, f) (reject-Ends vn estale u (ground arith) kept has)
                | inl f ↦
                    rw (e, f)
                      (
                        record {
                          locks = kept.locks;
                          biglock = kept.biglock;
                          node_mtx = kept.node_mtx;
                        },
                        refl,
                        record {
                          references = has.references;
                          nodeid = has.node;
                          generation = ground (arith, f);
                          vtype = ground (arith, e);
                        },
                      )
              ]
        ]

  checked-Ends :
      (r : ℕ × ℕ) (u : Thread (Cache K Tree))
      → Made host feo.nodeid t r u
      → Goes Ends (checked host (host.kpi.iftovt feo.attr.mode) feo.generation r u)
  unfolding checked Made Ends
  checked-Ends (err, vn) u (kept, inl (e, has)) = rw (e) (check_vnode-Ends vn u kept has)
  checked-Ends (err, vn) u (kept, inr (n, same)) = elim (Bool-cases (err == 0)) [
    | inl e ↦ absurd (n (ground arith))
    | inr e ↦ rw (e) (kept, record { error = n; references = same })
  ]

  create_missing-Made :
      {Held : K → ℕ → Type 0}
      → IsDocumented host Held
      → (is_root : Bool) (dvp vn : ℕ) (u : Thread (Cache K Tree)) → Found host feo.nodeid t vn u
      → Goes (Made host feo.nodeid t) (create_missing host is_root feo dvp vn u)
  unfolding create_missing Found Made
  create_missing-Made docs is_root dvp vn u (kept, inl (e, same)) = rw (e) (
      create_vnode-Made host is_root feo dvp (host.kpi.iftovt feo.attr.mode)
        (host.fuse_os_malloc u.rest.shared) u t docs kept same)
  create_missing-Made docs is_root dvp vn u (kept, inr (n, has)) = elim (Bool-cases (vn == 0)) [
    | inl e ↦ absurd (n (ground arith))
    | inr e ↦ rw (e) (kept, inl (refl, has))
  ]

  -- The race that the comment in FSNodeGetOrCreateFileVNodeByID describes. Let vnode_getwithvid
  -- fail with ENOENT only and succeed only for a vnode that was not reused since its id was read,
  -- let vnode_create and references work as documented, and let the tree link the data of each
  -- node under its nodeid, with the vnode of that data. Then, whatever other threads do in
  -- between, the function, called under the big lock, returns with the locks as before. Either it
  -- returns 0 and a vnode: its data is that of the node asked for, its type and generation are
  -- those that the daemon sent, and the thread has exactly one reference to it more than before
  -- and no other; or it returns an errno, no vnode, and the thread has exactly the references of
  -- before.
  pub fs_node_get_or_create_file_vnode_by_id-Ends :
      {Held : K → ℕ → Type 0}
      → IsDocumented host Held
      → (is_root : Bool) (dvp : ℕ) → IsFiled host t.rest.shared
      → t.biglock ≡ true
      → t.rest.node_mtx ≡ false
      → Goes Ends (fs_node_get_or_create_file_vnode_by_id host is_root feo dvp t)
  unfolding fs_node_get_or_create_file_vnode_by_id Ends Opened
  fs_node_get_or_create_file_vnode_by_id-Ends docs is_root dvp filed b m =
      elim (Bool-cases (bad_vtype (host.kpi.iftovt feo.attr.mode))) [
        | inl e ↦ rw (e) (
          record { locks = refl; biglock = b; node_mtx = m },
          record { error = ground arith; references = λ v. refl },
        )
        | inr e ↦ rw (e) (
            Goes-bind (Opened host feo.nodeid t) Ends (find_node host feo.nodeid t) _
              (find_node-Opened host feo.nodeid t filed b m)
              (λ found u o.
                Goes-bind (Found host feo.nodeid t) Ends (get_found host found u) _
                  (get_found-Found host feo.nodeid t docs u o.0 o.2 found o.3)
                  (λ vn v f.
                    Goes-bind (Made host feo.nodeid t) Ends
                      (create_missing host is_root feo dvp vn v) _
                      (create_missing-Made docs is_root dvp vn v f) (λ r w. checked-Ends r w))))
      ]
