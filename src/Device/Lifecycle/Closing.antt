-- ===== src/Device/Lifecycle/Closing.antt =====
-- What closing a device returns and leaves of its data.
use kext.Prelude.{◌≡◌, refl, Bool, true, false, some, none, [], arith, ◌⊎◌, inl, inr, if◌then◌else◌}
use kext.Ipc.State.{FuseData, Kernel}
use kext.Ipc.Monad.{Run, done, panic, fault}
use kext.Ipc.Ensures.{Ensures, Ensures-bind, Ensures-if, Ensures-mono, HasMemory}
use kext.Ipc.WellFormed.{WellFormed, kill-WellFormed, closed-WellFormed}
use kext.Ipc.Tickets.{fuse_data_kill}
use kext.Device.Lifecycle.{
  FuseDevice, Outcome, returns, panics, faults, hangs, after_run, map_outcome, fuse_data_destroy,
  fuse_reject_answers, fuse_device_close_final, shut_data, close_data,
}
use kext.Device.Lifecycle.Tickets.{
  Tidy, Rejected, fuse_reject_answers-Rejected, fuse_data_destroy-frees,
}

-- The call returns, and its result satisfies a postcondition.
abbrev pub Returns : {A : Type 0} → (A → Type 0) → Outcome A → Type 0
Returns P (returns a) = P a
Returns P panics = ⊥
Returns P faults = ⊥
Returns P hangs = ⊥

pub Returns-mono :
    {A : Type 0} (P Q : A → Type 0) (r : Outcome A)
    → Returns P r
    → ((a : A) → P a → Q a)
    → Returns Q r
Returns-mono P Q (returns a) h g = g a h
Returns-mono P Q panics h g = h
Returns-mono P Q faults h g = h
Returns-mono P Q hangs h g = h

pub Returns-map :
    {A B : Type 0} (Q : B → Type 0) (f : A → B) (r : Outcome A)
    → Returns (λ a. Q (f a)) r
    → Returns Q (map_outcome f r)
Returns-map Q f (returns a) h = h
Returns-map Q f panics h = h
Returns-map Q f faults h = h
Returns-map Q f hangs h = h

module _ (k : Kernel) (m : HasMemory k) where
  pub Returns-after_run :
      {A B : Type 0} (P : A → FuseData → Type 0) (Q : B → Type 0) (r : Run A)
      (f : A → FuseData → Outcome B)
      → Ensures k P r
      → ((a : A) (d : FuseData) → P a d → Returns Q (f a d))
      → Returns Q (after_run r f)
  Returns-after_run P Q (done a d) f h g = g a d h
  Returns-after_run P Q panic f h g = absurd (h m)
  Returns-after_run P Q fault f h g = h

  -- What `fuse_device_close` has done before it decides to free the data.
  record Shut (d e : FuseData) : Type 0 where
    well : WellFormed e
    closed : e.opened ≡ false
    mounted : e.mounted ≡ d.mounted

  abbrev killed : FuseData → FuseData
  killed d = record d { dead = true; opened = false }

  killed-Tidy : (d : FuseData) → Tidy d → Tidy (killed d)
  killed-Tidy d t = record {
    well = closed-WellFormed (record d { dead = true }) (kill-WellFormed d t.well);
    queued = λ a c. record { here = (t.queued a c).here; apart = (t.queued a c).apart };
  }

  pub kill-state :
      (d : FuseData) → Ensures k (λ _ e. e ≡ record d { dead = true }) (fuse_data_kill d)
  unfolding fuse_data_kill
  kill-state d =
      Ensures-if k (λ _ e. e ≡ record d { dead = true }) d d.dead _ _ (λ e. ground arith)
        (λ _. refl)

  shut_data-Shut : (d : FuseData) → Tidy d → Ensures k (λ _ e. Shut d e) (shut_data d)
  unfolding shut_data
  shut_data-Shut d t =
      Ensures-bind k (λ _ e. e ≡ record d { dead = true }) _ (fuse_data_kill d) _ (kill-state d)
        λ _ e same. rw same (
          Ensures-mono k (λ _ f. Rejected (killed d) d.aw_head f × (f.aw_head ≡ []))
            (λ _ f. Shut d f) (fuse_reject_answers (killed d))
            (fuse_reject_answers-Rejected k (killed d) (killed-Tidy d t))
            (λ _ f r. record { well = r.0.well; closed = r.0.opened; mounted = r.0.mounted }))

  pub close_final-Returns :
      (f : FuseDevice) (d : FuseData)
      → WellFormed d
      → Returns (λ g. (g.content ≡ none) × (g.usecount ≡ f.usecount)) (fuse_device_close_final f d)
  unfolding fuse_device_close_final
  close_final-Returns f d w =
      Returns-after_run _ _ (fuse_data_destroy d) _ (fuse_data_destroy-frees k d w)
        λ ended e h. rw (h.0) (refl, refl)

  abbrev pub Closed : FuseDevice → FuseDevice → Type 0
  Closed f g =
      (g.usecount ≡ f.usecount)
      × ((g.content ≡ none)
          ⊎ ((e : FuseData) × (g.content ≡ some e) × (e.opened ≡ false) × (e.mounted ≡ true)))

  pub close_data-Returns :
      (f : FuseDevice) (d : FuseData) → Tidy d → Returns (Closed f) (close_data f (some d))
  unfolding close_data
  close_data-Returns f d t =
      Returns-after_run (λ _ e. Shut d e) (Closed f) (shut_data d) _ (shut_data-Shut d t)
        λ _ e s. decide e s e.mounted refl
    where
      decide :
          (e : FuseData)
          → Shut d e
          → (b : Bool) → e.mounted ≡ b
          → Returns
              (Closed f)
              (if b then returns (record f { content = some e }) else fuse_device_close_final f e)
      decide e s true q = (refl, inr (e, refl, s.closed, q))
      decide e s false q =
          Returns-mono _ (Closed f) (fuse_device_close_final f e) (close_final-Returns f e s.well)
            λ g r. (r.1, inl r.0)

-- A kernel with memory, for calls that allocate none.
abbrev pub plentiful : Kernel
plentiful = record {
  malloc = λ n. true;
  ticket_memory = true;
  uiomove = λ n. 0;
  msleep = λ c d. (0, d);
  self = record { pid = 0; uid = 0; gid = 0 };
  page_size = 4096;
}

pub memory : HasMemory plentiful
memory = record { buffers = λ n. refl; tickets = refl }
