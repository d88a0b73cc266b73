-- ===== src/Vnode/Transfer/Filled.antt =====
-- fuse_internal.c: what the read loop of fuse_internal_strategy has put into the buffer.
use kext.Prelude.{
  ℕ, zero, suc, List, [], ◌∷◌, ◌++◌, Option, some, ◌≡◌, ◌≤◌, ◌<◌, refl, sym, ap, ◌∙◌, ◌+◌, arith,
  length,
}
use mathlib.Core.List.{append-nil, append_assoc}
use kext.Vnode.State.{VnodeState, Exchange}
use kext.Vnode.Transfer.{zeros}

pub length-zeros : (n : ℕ) → length (zeros n) ≡ n
unfolding zeros
length-zeros zero = refl
length-zeros (suc n) = omega (arith, length-zeros n)

-- Nothing but zeros.
abbrev pub AllZero : List ℕ → Type 0
AllZero [] = Unit {0}
AllZero (b ∷ bs) = (b ≡ 0) × AllZero bs

-- What the daemon answered to some requests, the last of which stands first.
unfoldable pub answers : List Exchange → List ℕ
answers [] = []
answers (x ∷ xs) = answers xs ++ x.answer

-- The last answer was empty: the end of the file.
abbrev pub IsAtEnd : List Exchange → Type 0
IsAtEnd [] = ⊥
IsAtEnd (x ∷ xs) = x.answer ≡ []

-- From one state to another the buffer was filled behind the bytes that were there: by the answers to
-- the requests in between, in their order, and by zeros, which there are only if the last answer was
-- empty.
pub record IsFilled (s : VnodeState) (got bytes : List ℕ) (u : VnodeState) : Type 0 where
  pub asked : List Exchange
  pub sent : u.exchanges ≡ asked ++ s.exchanges
  pub padding : List ℕ
  pub content : bytes ≡ got ++ (answers asked ++ padding)
  pub zero_padding : AllZero padding
  pub at_end : 0 < length padding → IsAtEnd asked

-- A result; without an error the buffer is full.
pub record IsFull (s : VnodeState) (got : List ℕ) (resid : ℕ) (o : Option (ℕ × List ℕ))
    (u : VnodeState) : Type 0 where
  pub errno : ℕ
  pub bytes : List ℕ
  pub returned : o ≡ some (errno, bytes)
  pub fits : length bytes ≤ length got + resid
  pub full : errno ≡ 0 → length bytes ≡ length got + resid
  pub filled : errno ≡ 0 → IsFilled s got bytes u

zeros-AllZero : (n : ℕ) → AllZero (zeros n)
unfolding zeros
zeros-AllZero zero = tt
zeros-AllZero (suc n) = (refl, zeros-AllZero n)

answers-append :
    (xs : List Exchange) (x : Exchange) → answers (xs ++ x ∷ []) ≡ x.answer ++ answers xs
unfolding answers
answers-append [] x = sym (append-nil x.answer)
answers-append (y ∷ ys) x =
    ap (λ l. l ++ y.answer) (answers-append ys x) ∙ append_assoc x.answer (answers ys) y.answer

IsAtEnd-append : (xs : List Exchange) (x : Exchange) → IsAtEnd xs → IsAtEnd (xs ++ x ∷ [])
IsAtEnd-append [] x h = absurd h
IsAtEnd-append (y ∷ ys) x h = h

module _ (s u : VnodeState) (got : List ℕ) (x : Exchange)
    (once : u.exchanges ≡ x ∷ s.exchanges) where
  -- After one more answer.
  pub step-IsFilled :
      (bytes : List ℕ) (w : VnodeState)
      → IsFilled u (got ++ x.answer) bytes w
      → IsFilled s got bytes w
  step-IsFilled bytes w f = record {
    asked = f.asked ++ x ∷ [];
    sent = f.sent ∙ ap (λ l. f.asked ++ l) once ∙ sym (append_assoc f.asked (x ∷ []) s.exchanges);
    padding = f.padding;
    content =
        f.content
        ∙ append_assoc got x.answer (answers f.asked ++ f.padding)
        ∙ ap (λ l. got ++ l)
            (sym (append_assoc x.answer (answers f.asked) f.padding)
              ∙ ap (λ l. l ++ f.padding) (sym (answers-append f.asked x)));
    zero_padding = f.zero_padding;
    at_end = λ h. IsAtEnd-append f.asked x (f.at_end h);
  }

  -- The last answer was empty.
  pub end-IsFilled : (resid : ℕ) → x.answer ≡ [] → IsFilled s got (got ++ zeros resid) u
  unfolding answers
  end-IsFilled resid e = record {
    asked = x ∷ [];
    sent = once;
    padding = zeros resid;
    content = ap (λ l. got ++ (l ++ zeros resid)) (sym e);
    zero_padding = zeros-AllZero resid;
    at_end = λ _. e;
  }

pub length-zero : (xs : List ℕ) → length xs ≡ 0 → xs ≡ []
length-zero [] e = refl
length-zero (x ∷ xs) e = absurd (omega (arith, e))
