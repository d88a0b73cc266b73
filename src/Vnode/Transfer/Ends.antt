-- ===== src/Vnode/Transfer/Ends.antt =====
-- fuse_internal.c: when the loops of fuse_internal_strategy end, and with what.
use kext.Prelude.{
  ℕ, zero, suc, Bool, List, ◌++◌, Option, none, some, false, ◌≡◌, ◌≤◌, ◌<◌, refl, ◌+◌, ◌-◌, ◌==◌,
  ◌%◌, ◌^◌, ◌&&◌, ◌∷◌, [], true, sym, ◌≢◌, ltb, arith, if◌then◌else◌, length, length-append,
}
use Prim.Native.Nat.{min}
use mathlib.Core.List.{append-nil}
use kext.Errno.{einval}
use kext.Ipc.Answer.{u32_at}
use kext.Vnode.State.{VnodeState, Env, Reply, Request, Exchange, ask_read, ask_write}
use kext.Vnode.Monad.{pure, ask}
use kext.Vnode.Returns.{Returns, Returns-bind, Returns-mono, Returns-if, Returns-ask}
use kext.Vnode.Transfer.Filled.{
  IsFull, answers, length-zeros, length-zero, step-IsFilled, end-IsFilled,
}
use kext.Vnode.Transfer.{zeros, after_write, write_chunks, after_read, read_chunks}

-- The daemon takes some bytes of each chunk, where it reports success.
abbrev pub TakesSome : Env → Type 0
TakesSome env =
    (before : List Exchange) (fh offset size : ℕ)
    → (env.reply before (ask_write fh offset size)).errno ≡ 0
    → 0 < u32_at 0 (env.reply before (ask_write fh offset size)).body

-- A result; without an error nothing is left.
abbrev pub Written : Option (ℕ × ℕ) → Type 0
Written o = (r : ℕ × ℕ) × (o ≡ some r) × (r.0 ≡ 0 → r.1 ≡ 0)

module _ (env : Env) (fh : ℕ) (takes : TakesSome env) where
  abbrev Took : Reply → Type 0
  Took reply = reply.errno ≡ 0 → 0 < u32_at 0 reply.body

  -- Let the daemon take at least one byte of each chunk for which it reports success. Then the
  -- write loop of fuse_internal_strategy, on a 64-bit kernel and with fewer than 2^63 bytes to write,
  -- ends within as many rounds as there are bytes and one, without a panic, whatever number of bytes
  -- the daemon says that it took; and where the errno is 0 nothing is left to write.
  pub write_chunks-Written :
      (fuel left offset : ℕ) (s : VnodeState)
      → left < fuel
      → left < 2 ^ 63
      → Returns (λ o _. Written o) (write_chunks env fh true fuel left offset s)
  unfolding write_chunks after_write
  write_chunks-Written zero left offset s h few = absurd (omega arith)
  write_chunks-Written (suc fuel) left offset s h few =
      Returns-if (λ o _. Written o) s (left == 0) (pure (some (0, left))) _
        (λ e. ((0, left), refl, λ _. ground (arith, e)))
        (λ some_left.
          Returns-bind (λ reply _. Took reply) (λ o _. Written o) (ask env request s)
            (after_write env fh true (write_chunks env fh true fuel) left offset chunk)
            (Returns-ask env request s (λ reply _. Took reply) (λ _ e. absurd (omega (arith, e)))
              (λ _. takes s.exchanges fh offset chunk))
            (λ reply u took.
              Returns-if (λ o _. Written o) u (reply.errno == 0)
                (if true && ltb chunk (u32_at 0 reply.body)
                  then pure (some (einval, left))
                  else write_chunks env fh true fuel
                      ((left + 2 ^ 64 - u32_at 0 reply.body) % 2 ^ 64)
                      ((offset + u32_at 0 reply.body) % 2 ^ 64))
                (pure (some (reply.errno, left)))
                (λ ok.
                  Returns-if (λ o _. Written o) u (true && ltb chunk (u32_at 0 reply.body))
                    (pure (some (einval, left))) _
                    (λ _. ((einval, left), refl, λ e. absurd (omega (arith, e))))
                    (λ fits.
                      let below : u32_at 0 reply.body ≤ left = ground (arith, fits) in
                      let some_taken : 0 < u32_at 0 reply.body = took (ground (arith, ok)) in
                      write_chunks-Written fuel ((left + 2 ^ 64 - u32_at 0 reply.body) % 2 ^ 64)
                        ((offset + u32_at 0 reply.body) % 2 ^ 64) u
                        (omega (arith, h, few, below, some_taken)) (omega (arith, few, below))))
                (λ bad. ((reply.errno, left), refl, λ e. absurd (ground (arith, bad, e))))))
    where
      chunk : ℕ
      chunk = min (left % 2 ^ 32) s.mpdata.iosize

      request : Request
      request = ask_write fh offset chunk

-- The daemon reports success, but takes nothing.
abbrev pub TakesNothing : Env → Type 0
TakesNothing env =
    (before : List Exchange) (fh offset size : ℕ)
    → ((env.reply before (ask_write fh offset size)).errno ≡ 0)
      × (u32_at 0 (env.reply before (ask_write fh offset size)).body ≡ 0)
      × ((env.reply before (ask_write fh offset size)).dies ≡ false)

module _ (env : Env) (fh : ℕ) (nothing : TakesNothing env) where
  -- Let the daemon report success for each write but take none of its bytes, and live. Then the
  -- write loop of fuse_internal_strategy, with anything to write on a live device, in fewer than
  -- 2^64 bytes, does not end within any number of rounds.
  pub write_chunks_stuck :
      (lp64 : Bool) (fuel left offset : ℕ) (s : VnodeState)
      → s.mpdata.dead ≡ false
      → 0 < left
      → left < 2 ^ 64
      → Returns (λ o _. o ≡ none) (write_chunks env fh lp64 fuel left offset s)
  unfolding write_chunks after_write
  write_chunks_stuck lp64 zero left offset s live h few = refl
  write_chunks_stuck lp64 (suc fuel) left offset s live h few =
      Returns-if (λ o _. o ≡ none) s (left == 0) (pure (some (0, left))) _
        (λ e. absurd (ground (arith, e, h)))
        (λ _.
          Returns-bind Nothing (λ o _. o ≡ none) (ask env request s)
            (after_write env fh lp64 (write_chunks env fh lp64 fuel) left offset chunk)
            (Returns-ask env request s Nothing (λ dead. absurd (ground (arith, dead, live)))
              (λ _.
                let (a, b, c) = nothing s.exchanges fh offset chunk in (a, b, rw (live, c) refl)))
            (λ reply u is.
              Returns-if (λ o _. o ≡ none) u (reply.errno == 0)
                (if lp64 && ltb chunk (u32_at 0 reply.body)
                  then pure (some (einval, left))
                  else write_chunks env fh lp64 fuel
                      ((left + 2 ^ 64 - u32_at 0 reply.body) % 2 ^ 64)
                      ((offset + u32_at 0 reply.body) % 2 ^ 64))
                (pure (some (reply.errno, left)))
                (λ ok.
                  Returns-if (λ o _. o ≡ none) u (lp64 && ltb chunk (u32_at 0 reply.body))
                    (pure (some (einval, left))) _ (λ e. absurd (ground (arith, e, is.1)))
                    (λ _.
                      write_chunks_stuck lp64 fuel ((left + 2 ^ 64 - u32_at 0 reply.body) % 2 ^ 64)
                        ((offset + u32_at 0 reply.body) % 2 ^ 64) u is.2
                        (omega (arith, h, is.1, few)) (omega (arith, h, is.1, few))))
                (λ bad. absurd (ground (arith, bad, is.0)))))
    where
      chunk : ℕ
      chunk = min (left % 2 ^ 32) s.mpdata.iosize

      request : Request
      request = ask_write fh offset chunk

      Nothing : Reply → VnodeState → Type 0
      Nothing reply u = (reply.errno ≡ 0) × (u32_at 0 reply.body ≡ 0) × (u.mpdata.dead ≡ false)

-- The daemon answers a read with at most as many bytes as were asked for, as the audit of the answer
-- (Ipc/Audit) makes sure.
abbrev pub FitsReads : Env → Type 0
FitsReads env =
    (before : List Exchange) (isdir : Bool) (fh offset size : ℕ)
    → length (env.reply before (ask_read isdir fh offset size)).body ≤ size

module _ (env : Env) (fh : ℕ) (isdir : Bool) (fits : FitsReads env) where
  -- Let the daemon answer each read with at most as many bytes as were asked for. Then the read
  -- loop of fuse_internal_strategy ends within as many rounds as the rest of the buffer has bytes
  -- and one, without a panic, and never puts more bytes into the buffer than that has. Where the
  -- errno is 0 the buffer is full: behind the bytes that were there it has the bodies of the
  -- answers to all its reads, in their order, and behind those nothing but zeros, and such only if
  -- the last answer was empty.
  pub read_chunks-IsFull :
      (fuel : ℕ) (got : List ℕ) (resid offset : ℕ) (s : VnodeState)
      → resid < fuel
      → Returns (IsFull s got resid) (read_chunks env fh isdir fuel got resid offset s)
  unfolding read_chunks after_read answers
  read_chunks-IsFull zero got resid offset s h = absurd (omega arith)
  read_chunks-IsFull (suc fuel) got resid offset s h =
      Returns-if (IsFull s got resid) s (resid == 0) (pure (some (0, got))) _ (λ e. nothing e)
        (λ some_left.
          Returns-bind Answered (IsFull s got resid) (ask env request s)
            (after_read env fh (read_chunks env fh isdir fuel) got resid offset)
            (Returns-ask env request s Answered (λ _. (omega arith, λ e. absurd (omega (arith, e))))
              (λ _. (
                omega (arith, fits s.exchanges isdir fh offset (min resid s.mpdata.iosize)),
                λ _. refl,
              )))
            (λ reply u is.
              Returns-if (IsFull s got resid) u (reply.errno == 0)
                (if length reply.body == 0
                  then pure (some (0, got ++ zeros resid))
                  else read_chunks env fh isdir fuel (got ++ reply.body) (resid - length reply.body)
                      (offset + length reply.body))
                (pure (some (reply.errno, got)))
                (λ ok.
                  Returns-if (IsFull s got resid) u (length reply.body == 0)
                    (pure (some (0, got ++ zeros resid))) _
                    (λ e. ended reply u (is.1 (ground (arith, ok))) (ground (arith, e)))
                    (λ e.
                      Returns-mono (IsFull u (got ++ reply.body) (resid - length reply.body))
                        (IsFull s got resid)
                        (read_chunks env fh isdir fuel (got ++ reply.body)
                          (resid - length reply.body) (offset + length reply.body) u)
                        (read_chunks-IsFull fuel (got ++ reply.body) (resid - length reply.body)
                          (offset + length reply.body) u (ground (arith, h, e, is.0, some_left)))
                        (λ o w f. more reply u (is.1 (ground (arith, ok))) is.0 o w f)))
                (λ bad. failed reply.errno u (λ e. ground (arith, bad, e)))))
    where
      request : Request
      request = ask_read isdir fh offset (min resid s.mpdata.iosize)

      exchange : Reply → Exchange
      exchange reply = record { request = request; errno = reply.errno; answer = reply.body }

      Answered : Reply → VnodeState → Type 0
      Answered reply u =
          (length reply.body ≤ resid)
          × (reply.errno ≡ 0 → u.exchanges ≡ exchange reply ∷ s.exchanges)

      nothing : (resid == 0) ≡ true → IsFull s got resid (some (0, got)) s
      nothing e = record {
        errno = 0;
        bytes = got;
        returned = refl;
        fits = omega arith;
        full = λ _. ground (arith, e);
        filled = λ _. record {
          asked = [];
          sent = refl;
          padding = [];
          content = sym (append-nil got);
          zero_padding = tt;
          at_end = λ c. absurd (omega (arith, c));
        };
      }

      failed : (err : ℕ) (u : VnodeState) → err ≢ 0 → IsFull s got resid (some (err, got)) u
      failed err u n = record {
        errno = err;
        bytes = got;
        returned = refl;
        fits = omega arith;
        full = λ e. absurd (n e);
        filled = λ e. absurd (n e);
      }

      padded : length (got ++ zeros resid) ≡ length got + resid
      padded = omega (arith, length-append got (zeros resid), length-zeros resid)

      ended :
          (reply : Reply) (u : VnodeState)
          → u.exchanges ≡ exchange reply ∷ s.exchanges
          → length reply.body ≡ 0
          → IsFull s got resid (some (0, got ++ zeros resid)) u
      ended reply u once e = record {
        errno = 0;
        bytes = got ++ zeros resid;
        returned = refl;
        fits = omega (arith, padded);
        full = λ _. padded;
        filled = λ _. end-IsFilled s u got (exchange reply) once resid (length-zero reply.body e);
      }

      more :
          (reply : Reply) (u : VnodeState)
          → u.exchanges ≡ exchange reply ∷ s.exchanges
          → length reply.body ≤ resid
          → (o : Option (ℕ × List ℕ)) (w : VnodeState)
          → IsFull u (got ++ reply.body) (resid - length reply.body) o w
          → IsFull s got resid o w
      more reply u once short o w f = record {
        errno = f.errno;
        bytes = f.bytes;
        returned = f.returned;
        fits = omega (arith, f.fits, length-append got reply.body, short);
        full = λ e. omega (arith, f.full e, length-append got reply.body, short);
        filled = λ e. step-IsFilled s u got (exchange reply) once f.bytes w (f.filled e);
      }
