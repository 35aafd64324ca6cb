-- ===== src/Kernel/Rules.antt =====
-- Rules for what holds behind an action, by whether it returns or throws.
use db_cluster.Prelude.{◌≡◌}
use db_cluster.Errors.{Error, Result, ok, err}
use db_cluster.Stores.{Call}
use db_cluster.Kernel.Stored.{CommandStore}
use db_cluster.Kernel.Action.{
  State, Action, in_world, call, draw, check, pure, throw_error, continue, handled, catch, ◌>>=◌,
}

module _ {W : Type 0} where
  -- what holds of a value that is returned, or of an error that is thrown, and the state then
  abbrev pub Holds :
      {A : Type 0}
      → (A → State W → Type 0)
      → (Error → State W → Type 0)
      → Result A × State W
      → Type 0
  Holds P E (ok a, s) = P a s
  Holds P E (err e, s) = E e s

  continue-Holds :
      {A B : Type 0} (Q : A → State W → Type 0) (P : B → State W → Type 0)
      (E : Error → State W → Type 0) (f : A → Action W B) (r : Result A × State W)
      → Holds Q E r
      → ((a : A) (t : State W) → Q a t → Holds P E (f a t))
      → Holds P E (continue f r)
  continue-Holds Q P E f (ok a, t) h k = k a t h
  continue-Holds Q P E f (err e, t) h k = h

  -- what holds behind the first action is what the second one may use
  pub bind-Holds :
      {A B : Type 0} (Q : A → State W → Type 0) (P : B → State W → Type 0)
      (E : Error → State W → Type 0) (m : Action W A) (f : A → Action W B) (s : State W)
      → Holds Q E (m s)
      → ((a : A) (t : State W) → Q a t → Holds P E (f a t))
      → Holds P E ((m >>= f) s)
  unfolding ◌>>=◌
  bind-Holds Q P E m f s h k = continue-Holds Q P E f (m s) h k

  handled-Holds :
      {A : Type 0} (P : A → State W → Type 0) (Q E : Error → State W → Type 0)
      (f : Error → Action W A) (r : Result A × State W)
      → Holds P Q r
      → ((e : Error) (t : State W) → Q e t → Holds P E (f e t))
      → Holds P E (handled f r)
  handled-Holds P Q E f (ok a, t) h k = h
  handled-Holds P Q E f (err e, t) h k = k e t h

  -- what holds behind a throw is what the handler may use
  pub catch-Holds :
      {A : Type 0} (P : A → State W → Type 0) (Q E : Error → State W → Type 0) (m : Action W A)
      (f : Error → Action W A) (s : State W)
      → Holds P Q (m s)
      → ((e : Error) (t : State W) → Q e t → Holds P E (f e t))
      → Holds P E (catch m f s)
  unfolding catch
  catch-Holds P Q E m f s h k = handled-Holds P Q E f (m s) h k

  pub weaken-Holds :
      {A : Type 0} (P Q : A → State W → Type 0) (E F : Error → State W → Type 0)
      (r : Result A × State W)
      → Holds P E r
      → ((a : A) (t : State W) → P a t → Q a t)
      → ((e : Error) (t : State W) → E e t → F e t)
      → Holds Q F r
  weaken-Holds P Q E F (ok a, t) h p e = p a t h
  weaken-Holds P Q E F (err x, t) h p e = e x t h

  -- the commands are these
  abbrev pub OnlyError : CommandStore → Error → State W → Type 0
  OnlyError cs e t = t.commands ≡ cs

  abbrev pub OnlyValue : {A : Type 0} → CommandStore → A → State W → Type 0
  OnlyValue cs a t = t.commands ≡ cs

  -- An action that leaves the commands as they are, whether it returns or throws.
  pub record IsQuiet {A : Type 0} (m : Action W A) : Type 0 where
    pub quiet :
        (cs : CommandStore) (s : State W)
        → s.commands ≡ cs
        → Holds (OnlyValue cs) (OnlyError cs) (m s)

  in_world-Holds :
      {A : Type 0} (cs ds : CommandStore) (r : Result A × W)
      → ds ≡ cs
      → Holds (OnlyValue cs) (OnlyError cs) (in_world ds r)
  in_world-Holds cs ds (ok a, w) h = h
  in_world-Holds cs ds (err e, w) h = h

  pub call-IsQuiet : {A : Type 0} (c : Call W A) → IsQuiet (call c)
  unfolding call
  call-IsQuiet c = record { quiet = λ cs s h. in_world-Holds cs s.commands (c s.world) h }

  pub draw-IsQuiet : {A : Type 0} (d : W → A × W) → IsQuiet (draw d)
  unfolding draw
  draw-IsQuiet d = record { quiet = λ cs s h. h }

  pub pure-IsQuiet : {A : Type 0} (a : A) → IsQuiet (pure a)
  unfolding pure
  pure-IsQuiet a = record { quiet = λ cs s h. h }

  pub throw_error-IsQuiet : {A : Type 0} (e : Error) → IsQuiet (throw_error {A = A} e)
  unfolding throw_error
  throw_error-IsQuiet e = record { quiet = λ cs s h. h }

  check-Holds :
      {A : Type 0} (cs : CommandStore) (r : Result A) (s : State W)
      → s.commands ≡ cs
      → Holds (OnlyValue cs) (OnlyError cs) (r, s)
  check-Holds cs (ok a) s h = h
  check-Holds cs (err e) s h = h

  pub check-IsQuiet : {A : Type 0} (r : Result A) → IsQuiet (check r)
  unfolding check
  check-IsQuiet r = record { quiet = λ cs s h. check-Holds cs r s h }

  pub bind-IsQuiet :
      {A B : Type 0} {m : Action W A} {f : A → Action W B}
      → IsQuiet m
      → ((a : A) → IsQuiet (f a))
      → IsQuiet (m >>= f)
  bind-IsQuiet {A} {B} {m} {f} h k = record {
    quiet = λ cs s e.
        bind-Holds (OnlyValue cs) (OnlyValue cs) (OnlyError cs) m f s (h.quiet cs s e)
          (λ a t q. (k a).quiet cs t q);
  }

  pub catch-IsQuiet :
      {A : Type 0} {m : Action W A} {f : Error → Action W A}
      → IsQuiet m
      → ((e : Error) → IsQuiet (f e))
      → IsQuiet (catch m f)
  catch-IsQuiet {A} {m} {f} h k = record {
    quiet = λ cs s e.
        catch-Holds (OnlyValue cs) (OnlyError cs) (OnlyError cs) m f s (h.quiet cs s e)
          (λ x t q. (k x).quiet cs t q);
  }
