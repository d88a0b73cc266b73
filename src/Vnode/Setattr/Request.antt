-- ===== src/Vnode/Setattr/Request.antt =====
-- fuse_internal.c: what `fuse_internal_attr_vat2fsai` asks for.
use kext.Prelude.{ℕ, Bool, true, false, Option, none, some, ◌≡◌, refl, ◌∙◌, ◌==◌, ◌&&◌, ◌||◌, arith}
use kext.Ipc.State.{Flags}
use kext.Vnode.State.{VnodeState, FuseSetattrIn}
use kext.Vnode.Setattr.{
  Types, ActiveAttr, put, is_some, wanted_id, extended, handle_with_size,
  fuse_internal_attr_vat2fsai, any_below,
}

-- One attribute: its bit, and the others.
put-valid :
    {A : Type 0} (i j : ℕ) (f : FuseSetattrIn → A → FuseSetattrIn) (o : Option A)
    (fsai : FuseSetattrIn)
    → (put i f o fsai).valid j ≡ i == j && is_some o || fsai.valid j
unfolding put
put-valid i j f none fsai = ground arith
put-valid i j f (some a) fsai = ground arith

-- A bit is set before all that is put on top of it with another bit.
put_other :
    {A : Type 0} (i j : ℕ) (f : FuseSetattrIn → A → FuseSetattrIn) (o : Option A)
    (fsai : FuseSetattrIn) (b : Bool)
    → (i == j) ≡ false
    → fsai.valid j ≡ b
    → (put i f o fsai).valid j ≡ b
put_other i j f o fsai b n e = put-valid i j f o fsai ∙ ground (arith, n, e)

or_false : (a b : Bool) → b ≡ false → (a || b) ≡ a
or_false a b e = ground arith

-- Nothing is asked for without a bit.
pub any_below-size : (valid : Flags) → valid 3 ≡ true → any_below 32 valid ≡ true
unfolding any_below
any_below-size valid e = ground (arith, e)

module _ (types : Types) (s : VnodeState) (vap : ActiveAttr) (buffer : FuseSetattrIn) where
  -- FATTR_SIZE is set where a size is given.
  pub vat2fsai-size :
      (fuse_internal_attr_vat2fsai types s vap buffer).valid 3 ≡ is_some vap.va_data_size
  unfolding fuse_internal_attr_vat2fsai
  vat2fsai-size = put_other 31 3 _ vap.va_flags _ _ refl (
      put_other 0 3 _ vap.va_mode _ _ refl (
        put_other 28 3 _ (extended s.mpdata vap.va_create_time) _ _ refl (
          put_other 29 3 _ (extended s.mpdata vap.va_change_time) _ _ refl (
            put_other 30 3 _ (extended s.mpdata vap.va_backup_time) _ _ refl (
              put_other 5 3 _ vap.va_modify_time _ _ refl (
                put_other 4 3 _ vap.va_access_time _ _ refl (
                  put_other 6 3 _ (handle_with_size s vap.va_data_size) _ _ refl (
                    put-valid 3 3 _ vap.va_data_size _
                    ∙ or_false _ _ (
                        put_other 2 3 _ (wanted_id vap.va_gid) _ _ refl
                          (put_other 1 3 _ (wanted_id vap.va_uid) _ _ refl refl))))))))))
