-- ===== src/Kernel/Action.antt =====
-- A method of the kernel: it may throw, and changes the state of the stores and the commands.
use db_cluster.Errors.{Error, Result, ok, err}
use db_cluster.Stores.{Call}
use db_cluster.Kernel.Stored.{CommandStore}

pub record State (W : Type 0) : Type 0 where
  pub world : W
  pub commands : CommandStore

abbrev pub Action : Type 0 → Type 0 → Type 0
Action W A = State W → Result A × State W

module _ {W : Type 0} where
  abbrev pub in_world : {A : Type 0} → CommandStore → Result A × W → Result A × State W
  in_world cs (r, w) = (r, record { world = w; commands = cs })

  abbrev pub in_commands : {A : Type 0} → W → Result A × CommandStore → Result A × State W
  in_commands w (r, cs) = (r, record { world = w; commands = cs })

  abbrev pub drawn : {A : Type 0} → CommandStore → A × W → Result A × State W
  drawn cs (a, w) = (ok a, record { world = w; commands = cs })

  -- a call of a store
  unfoldable pub call : {A : Type 0} → Call W A → Action W A
  call c s = in_world s.commands (c s.world)

  -- a time or an id
  unfoldable pub draw : {A : Type 0} → (W → A × W) → Action W A
  draw d s = drawn s.commands (d s.world)

  unfoldable pub on_commands : {A : Type 0} → (CommandStore → Result A × CommandStore) → Action W A
  on_commands c s = in_commands s.world (c s.commands)

  -- a computation that may throw
  unfoldable pub check : {A : Type 0} → Result A → Action W A
  check r s = (r, s)

  unfoldable pub pure : {A : Type 0} → A → Action W A
  pure a s = (ok a, s)

  unfoldable pub throw_error : {A : Type 0} → Error → Action W A
  throw_error e s = (err e, s)

  abbrev pub continue : {A B : Type 0} → (A → Action W B) → Result A × State W → Result B × State W
  continue f (err e, s) = (err e, s)
  continue f (ok a, s) = f a s

  infixl 5 ◌>>=◌ ◌>>◌
  unfoldable pub ◌>>=◌ : {A B : Type 0} → Action W A → (A → Action W B) → Action W B
  ◌>>=◌ m f s = continue f (m s)

  unfoldable pub ◌>>◌ : {A B : Type 0} → Action W A → Action W B → Action W B
  ◌>>◌ m n s = continue (λ a. n) (m s)

  abbrev pub handled : {A : Type 0} → (Error → Action W A) → Result A × State W → Result A × State W
  handled h (ok a, s) = (ok a, s)
  handled h (err e, s) = h e s

  -- `try` and `catch`
  unfoldable pub catch : {A : Type 0} → Action W A → (Error → Action W A) → Action W A
  catch m h s = handled h (m s)
