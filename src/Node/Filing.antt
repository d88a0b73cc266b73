-- ===== src/Node/Filing.antt =====
-- fuse_node.c: what the tree has for a node once its vnode was created.
use kext.Prelude.{
  ℕ, Bool, true, false, Option, none, some, ◌≡◌, ◌≢◌, refl, sym, ap, ◌∙◌, if◌then◌else◌, arith,
  is_zero,
}
use kext.BigLock.{Thread}
use kext.Node.State.{EntryOut, Host, Cache, at}
use kext.Node.Create.{fuse_vnode_compare, find_node, create_vnode}
use kext.Node.Laws.{IsDocumented, IsSearchTree, or_else}
use kext.Node.Found.{Goes, find_node_lem, found_of}
use kext.Node.Made.{
  kernel_answer, later, linked, attached, linked-node, create_vnode_ok, later_nodeid,
}

compare_self : (nodeid : ℕ) → is_zero (fuse_vnode_compare nodeid nodeid) ≡ true
unfolding fuse_vnode_compare
compare_self nodeid = ground arith

at_other : {A : Type 0} (f : ℕ → A) (p q : ℕ) (a : A) → q ≢ p → at f p a q ≡ f q
at_other f p q a n = ground arith

module _ {K Tree : Type 0} (host : Host K Tree) (is_root : Bool) (feo : EntryOut) (dvp vtyp p : ℕ)
    (u : Thread (Cache K Tree)) where
  -- What the tree has for the node when the big lock is taken again.
  abbrev pub meanwhile : Option ℕ
  meanwhile = host.rb.rb_find (later host is_root feo dvp vtyp p u).nodes_head feo.nodeid

  -- The vnode that the tree has for the node.
  pub record IsFound (vn : ℕ) (found : ℕ × ℕ) : Type 0 where
    pub the_new : meanwhile ≡ none → found.0 ≡ vn
    pub the_other :
        (q : ℕ)
        → meanwhile ≡ some q
        → q ≢ p
        → found.0 ≡ ((later host is_root feo dvp vtyp p u).fvdat q).vp

  linked_nodeid :
      {Held : K → ℕ → Type 0}
      → IsDocumented host Held
      → (kernel_answer host is_root feo dvp vtyp p u).0 ≡ 0
      → ((linked host is_root feo dvp vtyp p u).fvdat p).nodeid ≡ feo.nodeid
  linked_nodeid docs e =
      linked-node host is_root feo dvp vtyp p u p
      ∙ later_nodeid host is_root feo dvp vtyp p u docs e

  -- The tree after the new data was put into it.
  find_linked :
      {Held : K → ℕ → Type 0}
      → IsDocumented host Held
      → IsSearchTree host.rb
      → (kernel_answer host is_root feo dvp vtyp p u).0 ≡ 0
      → host.rb.rb_find (attached host is_root feo dvp vtyp p u).rest.shared.nodes_head feo.nodeid
        ≡ or_else meanwhile p
  find_linked docs tree e =
      tree.find_inserted (later host is_root feo dvp vtyp p u).nodes_head feo.nodeid _ p
      ∙ ap
          (λ n.
            if is_zero (fuse_vnode_compare feo.nodeid n) then or_else meanwhile p else meanwhile)
          (linked_nodeid docs e)
      ∙ ap (λ b. if b then or_else meanwhile p else meanwhile) (compare_self feo.nodeid)

  found_of-IsFound :
      (o : Option ℕ)
      → meanwhile ≡ o
      → IsFound
          (kernel_answer host is_root feo dvp vtyp p u).1
          (found_of host feo.nodeid (attached host is_root feo dvp vtyp p u) (or_else o p))
  found_of-IsFound none e = record {
    the_new = λ n. ground arith;
    the_other = λ q f n. absurd (ground (arith, e, f));
  }
  found_of-IsFound (some q) e = record {
    the_new = λ n. absurd (ground (arith, e, n));
    the_other = λ r f n.
        let same : q ≡ r = ground (arith, e, f) in
        ap (λ d. d.vp)
          (at_other (later host is_root feo dvp vtyp p u).fvdat p q _ (λ x. n (sym same ∙ x)))
        ∙ ap (λ x. ((later host is_root feo dvp vtyp p u).fvdat x).vp) same;
  }

  -- Let RB_FIND and RB_INSERT work as documented on a tree in the order of fuse_vnode_compare, and
  -- the kernel as documented. Where the kernel makes a vnode for a node, the code that creates one
  -- under the big lock returns 0 with it, and then the search of the tree for the node returns. If
  -- no other thread filed the node while the big lock was dropped, it finds the new vnode; if
  -- another thread filed other data for the node, it finds the vnode of that.
  pub find_node-create_vnode :
      {Held : K → ℕ → Type 0}
      → IsDocumented host Held
      → IsSearchTree host.rb
      → u.biglock ≡ true
      → u.rest.node_mtx ≡ false
      → (kernel_answer host is_root feo dvp vtyp p u).0 ≡ 0
      → (w : Thread (Cache K Tree)) × (create_vnode host is_root feo dvp vtyp p u
          ≡ some ((0, (kernel_answer host is_root feo dvp vtyp p u).1), w))
        × Goes
            (λ found _. IsFound (kernel_answer host is_root feo dvp vtyp p u).1 found)
            (find_node host feo.nodeid w)
  find_node-create_vnode docs tree b m e = (
    attached host is_root feo dvp vtyp p u,
    create_vnode_ok host is_root feo dvp vtyp p u b m e,
    rw
        (
          find_node_lem host feo.nodeid (attached host is_root feo dvp vtyp p u) refl,
          find_linked docs tree e,
        )
        (found_of-IsFound meanwhile refl),
  )
