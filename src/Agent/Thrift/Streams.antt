-- ===== src/Agent/Thrift/Streams.antt =====
-- Readers that do not look ahead: what they give on some bytes, they give on more bytes.
use aigis_zero.Agent.Thrift.{Bytes, Reader, ◌>>=◌, with_rest, pure, fail, times}
use aigis_zero.Prelude.{
  ℕ, zero, suc, ◌≤◌, String, Bool, true, false, ◌++◌, Result, ok, err, ◌≡◌, refl, ◌⊎◌, inl, inr,
  arith, length, if◌then◌else◌,
}

-- A read leaves no more than it was given.
abbrev pub Shrinks : {A : Type 0} → Reader A → Type 0
Shrinks {A} r =
    (bytes : Bytes) (a : A) (rest : Bytes) → r bytes ≡ ok (a, rest) → length rest ≤ length bytes

with_rest-ok :
    {A B : Type 0} (f : A → Reader B) (x : Result String (A × Bytes)) (b : B) (rest : Bytes)
    → with_rest x f ≡ ok (b, rest)
    → (a : A) × (mid : Bytes) × (x ≡ ok (a, mid)) × (f a mid ≡ ok (b, rest))
with_rest-ok f (ok (a, mid)) b rest h = (a, mid, refl, h)
with_rest-ok f (err e) b rest h = cc

pub >>=-Shrinks :
    {A B : Type 0} {m : Reader A} {f : A → Reader B}
    → Shrinks m
    → ((a : A) → Shrinks (f a))
    → Shrinks (m >>= f)
>>=-Shrinks {m} {f} ms fs bytes b rest h =
    let (a, mid, e, e') = with_rest-ok f (m bytes) b rest h in
    omega (arith, ms bytes a mid e, fs a mid b rest e')

pub if-Shrinks :
    {A : Type 0} (b : Bool) {r s : Reader A} → Shrinks r → Shrinks s → Shrinks (if b then r else s)
if-Shrinks true rs ss = rs
if-Shrinks false rs ss = ss

pub pure-Shrinks : {A : Type 0} (a : A) → Shrinks (pure a)
pure-Shrinks a bytes b rest h = ground arith

-- A section's parameter: the errors by which a reader asks for more bytes.
module _ (wants_more : String → Bool) where
  -- The second result is that of the first with more bytes behind it, unless the first wants them.
  abbrev pub Follows :
      {A : Type 0} → Bytes → Result String (A × Bytes) → Result String (A × Bytes) → Type 0
  Follows more (ok (a, rest)) y = y ≡ ok (a, rest ++ more)
  Follows more (err e) y = (wants_more e ≡ true) ⊎ (y ≡ err e)

  pub record IsStream {A : Type 0} (r : Reader A) : Type 0 where
    pub follows : (bytes more : Bytes) → Follows more (r bytes) (r (bytes ++ more))
    pub shrinks : Shrinks r

  pub with_rest-Follows :
      {A B : Type 0} (more : Bytes) (f g : A → Reader B) (x y : Result String (A × Bytes))
      → Follows more x y
      → ((a : A) (rest : Bytes) → x ≡ ok (a, rest) → Follows more (f a rest) (g a (rest ++ more)))
      → Follows more (with_rest x f) (with_rest y g)
  with_rest-Follows more f g (ok (a, rest)) y h k = rw h (k a rest refl)
  with_rest-Follows more f g (err e) y (inl m) k = inl m
  with_rest-Follows more f g (err e) y (inr h) k = inr (rw h refl)

  pub pure-IsStream : {A : Type 0} (a : A) → IsStream (pure a)
  pure-IsStream a = record { follows = λ bytes more. refl; shrinks = pure-Shrinks a }

  pub fail-IsStream : {A : Type 0} (e : String) → IsStream {A = A} (fail e)
  fail-IsStream e = record { follows = λ bytes more. inr refl; shrinks = λ bytes b rest h. cc }

  pub >>=-IsStream :
      {A B : Type 0} {m : Reader A} {f : A → Reader B}
      → IsStream m
      → ((a : A) → IsStream (f a))
      → IsStream (m >>= f)
  >>=-IsStream {m} {f} ms fs = record {
    follows = λ bytes more.
        with_rest-Follows more f f (m bytes) (m (bytes ++ more)) (ms.follows bytes more)
          (λ a rest e. (fs a).follows rest more);
    shrinks = >>=-Shrinks ms.shrinks (λ a. (fs a).shrinks);
  }

  pub if-IsStream :
      {A : Type 0} (b : Bool) {r s : Reader A}
      → IsStream r
      → IsStream s
      → IsStream (if b then r else s)
  if-IsStream true rs ss = rs
  if-IsStream false rs ss = ss

  pub times-IsStream :
      {S : Type 0} {step : S → Reader S}
      → ((s : S) → IsStream (step s))
      → (n : ℕ) (s : S) → IsStream (times step n s)
  unfolding times
  times-IsStream steps zero s = pure-IsStream s
  times-IsStream steps (suc n) s = >>=-IsStream (steps s) (times-IsStream steps n)
