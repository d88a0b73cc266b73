-- ===== src/Node/Found.antt =====
-- fuse_node.c: the vnode that is found in the tree.
use kext.Prelude.{
  ℕ, true, false, Option, none, some, ◌≡◌, ◌≢◌, refl, sym, ap, ◌∙◌, ◌⊎◌, inl, inr, ◌+◌, ◌==◌,
  if◌then◌else◌, arith, Bool-cases, Option-cases,
}
use kext.Errno.{enoent}
use kext.BigLock.{Thread, M, bind_option}
use kext.Node.State.{Shared, Host, Cache, after_find, at}
use kext.Node.Create.{lock_nodes, unlock_nodes, find_node, got_reference, get_vnode}
use kext.Node.Get.{get_found}
use kext.Node.Laws.{data_of, IsDocumented, IsFiled}

-- The operation goes on, and its result and the thread's state satisfy a postcondition.
abbrev pub Goes : {S A : Type 0} → (A → Thread S → Type 0) → Option (A × Thread S) → Type 0
Goes P none = ⊥
Goes P (some (a, t)) = P a t

pub Goes-bind :
    {S A B : Type 0} (P : A → Thread S → Type 0) (Q : B → Thread S → Type 0)
    (o : Option (A × Thread S)) (f : A → M S B)
    → Goes P o
    → ((a : A) (t : Thread S) → P a t → Goes Q (f a t))
    → Goes Q (bind_option o f)
Goes-bind P Q none f h g = absurd h
Goes-bind P Q (some (a, t)) f h g = g a t h

module _ {K Tree : Type 0} (host : Host K Tree) (nodeid : ℕ) (t : Thread (Cache K Tree)) where
  -- The locks are those of before: the big lock is held, and `node_mtx` is not.
  pub record Kept (u : Thread (Cache K Tree)) : Type 0 where
    pub locks : u.locks ≡ t.locks
    pub biglock : u.biglock ≡ true
    pub node_mtx : u.rest.node_mtx ≡ false

  -- One more reference to a vnode, which is that of the node.
  pub record Has (vn : ℕ) (u : Thread (Cache K Tree)) : Type 0 where
    pub references :
        (v : ℕ) → u.rest.references v ≡ (if vn == v then 1 else 0) + t.rest.references v
    pub node : (data_of host u.rest.shared vn).nodeid ≡ nodeid

  abbrev pub Same : Thread (Cache K Tree) → Type 0
  Same u = (v : ℕ) → u.rest.references v ≡ t.rest.references v

  unfoldable pub Found : ℕ → Thread (Cache K Tree) → Type 0
  Found vn u = Kept u × (((vn ≡ 0) × Same u) ⊎ ((vn ≢ 0) × Has vn u))

  unfoldable pub Made : ℕ × ℕ → Thread (Cache K Tree) → Type 0
  Made (err, vn) u = Kept u × (((err ≡ 0) × Has vn u) ⊎ ((err ≢ 0) × Same u))

  unfoldable pub Opened : ℕ × ℕ → Thread (Cache K Tree) → Type 0
  Opened found u =
      Kept u
      × (u.rest.shared ≡ t.rest.shared)
      × Same u
      × ((found.0 ≢ 0)
          → ((data_of host u.rest.shared found.0).nodeid ≡ nodeid)
            × (found.1 ≡ host.kpi.vnode_vid u.rest.shared.kernel found.0))

  -- What the tree has for the node.
  abbrev pub found_of : Option ℕ → ℕ × ℕ
  found_of none = (0, 0)
  found_of (some p) = (
    (t.rest.shared.fvdat p).vp,
    host.kpi.vnode_vid t.rest.shared.kernel (t.rest.shared.fvdat p).vp,
  )

  -- `node_mtx` is dropped again.
  abbrev pub unlocked : Thread (Cache K Tree)
  unlocked = record t { rest = record t.rest { node_mtx = false } }

  pub find_node_lem :
      t.rest.node_mtx ≡ false
      → find_node host nodeid t
        ≡ some (found_of (host.rb.rb_find t.rest.shared.nodes_head nodeid), unlocked)
  unfolding find_node lock_nodes unlock_nodes
  find_node_lem m = elim (Option-cases (host.rb.rb_find t.rest.shared.nodes_head nodeid)) [
    | inl e ↦ ground (arith, m, e)
    | inr (p, e) ↦ ground (arith, m, e)
  ]

  found_of-node :
      IsFiled host t.rest.shared
      → (o : Option ℕ) → host.rb.rb_find t.rest.shared.nodes_head nodeid ≡ o
      → (found_of o).0 ≢ 0
      → ((data_of host t.rest.shared (found_of o).0).nodeid ≡ nodeid)
        × ((found_of o).1 ≡ host.kpi.vnode_vid t.rest.shared.kernel (found_of o).0)
  found_of-node filed none e n = absurd (n refl)
  found_of-node filed (some p) e n =
      let (id, vp) = filed.filed nodeid p e in
      (ap (λ q. (t.rest.shared.fvdat q).nodeid) vp ∙ id, refl)

  pub find_node-Opened :
      IsFiled host t.rest.shared
      → t.biglock ≡ true
      → t.rest.node_mtx ≡ false
      → Goes Opened (find_node host nodeid t)
  unfolding Opened
  find_node-Opened filed b m = rw (find_node_lem m) (
    record { locks = refl; biglock = b; node_mtx = refl },
    refl,
    λ v. refl,
    found_of-node filed _ refl,
  )

  module _ {Held : K → ℕ → Type 0} (docs : IsDocumented host Held) (u : Thread (Cache K Tree))
      (kept : Kept u) (same : Same u) where
    -- The state after the other threads ran.
    abbrev met : Shared K Tree
    met = host.others after_find u.rest.shared

    -- After the kernel's answer, without and with a reference.
    abbrev answered : ℕ × K → Thread (Cache K Tree)
    answered r = record u { rest = record u.rest { shared = record met { kernel = r.1 } } }

    abbrev referenced : ℕ → Thread (Cache K Tree) → Thread (Cache K Tree)
    referenced vn w = record w {
      rest = record w.rest { references = at w.rest.references vn (w.rest.references vn + 1) };
    }

    get_vnode_ok :
        (vn vid : ℕ)
        → (host.kpi.vnode_getwithvid met.kernel vn vid).0 ≡ 0
        → get_vnode host vn vid u
          ≡ some (vn, referenced vn (answered (host.kpi.vnode_getwithvid met.kernel vn vid)))
    unfolding get_vnode got_reference
    get_vnode_ok vn vid e = ground (arith, e)

    get_vnode-enoent :
        (vn vid : ℕ)
        → (host.kpi.vnode_getwithvid met.kernel vn vid).0 ≡ enoent
        → get_vnode host vn vid u ≡ some (0, answered (host.kpi.vnode_getwithvid met.kernel vn vid))
    unfolding get_vnode got_reference
    get_vnode-enoent vn vid e = ground (arith, e)

    got_reference-Found :
        (vn vid : ℕ)
        → vn ≢ 0
        → (data_of host u.rest.shared vn).nodeid ≡ nodeid
        → vid ≡ host.kpi.vnode_vid u.rest.shared.kernel vn
        → Goes Found (get_vnode host vn vid u)
    unfolding Found
    got_reference-Found vn vid n i e = elim (docs.getwithvid_errno met.kernel vn vid) [
      | inl z ↦ rw (get_vnode_ok vn vid z) (
        record { locks = kept.locks; biglock = kept.biglock; node_mtx = kept.node_mtx },
        inr (
          n,
          record {
            references = λ v. ground (arith, same v);
            node =
                ap (λ p. (met.fvdat p).nodeid) (docs.getwithvid_fsnode met.kernel vn vid vn)
                ∙ (docs.vid_identity u.rest.shared vn
                    (ap (λ j. (host.kpi.vnode_getwithvid met.kernel vn j).0) (sym e) ∙ z)).nodeid
                ∙ i;
          },
        ),
      )
      | inr z ↦ rw (get_vnode-enoent vn vid z) (
        record { locks = kept.locks; biglock = kept.biglock; node_mtx = kept.node_mtx },
        inl (refl, same),
      )
    ]

    pub get_found-Found :
        (found : ℕ × ℕ)
        → ((found.0 ≢ 0)
            → ((data_of host u.rest.shared found.0).nodeid ≡ nodeid)
              × (found.1 ≡ host.kpi.vnode_vid u.rest.shared.kernel found.0))
        → Goes Found (get_found host found u)
    unfolding get_found Found
    get_found-Found (vn, vid) h = elim (Bool-cases (vn == 0)) [
      | inl e ↦ rw (e) (kept, inl (refl, same))
      | inr e ↦
          rw (e)
            (got_reference-Found vn vid (ground arith) (h (ground arith)).0 (h (ground arith)).1)
    ]
