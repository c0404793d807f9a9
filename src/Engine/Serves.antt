-- ===== src/Engine/Serves.antt =====
-- core/engine.cpp: what serving one command does to an engine.
use multithreaded_exchange_s.Engine.{
  Ends, mutated, after_append, caught, Logged, logged_first, Engine, apply, CommandLog, mutate,
  serve,
}
use multithreaded_exchange_s.Command.{apply_command, Applied, Command}
use multithreaded_exchange_s.Prelude.{ℕ, ◌≡◌, refl, ap, subst, ◌∙◌, Option, none, some, ◌>>=◌}

-- The result that a chain has, taken apart.
pub some_of {ℓ κ} :
    {A : Type ℓ} {B : Type κ} (m : Option A) (f : A → B) (b : B)
    → (m >>= λ a. some (f a)) ≡ some b
    → (a : A) × (m ≡ some a) × (f a ≡ b)
some_of none f b h = absurd (cc)
some_of (some a) f b h = (a, refl, some-injective h)
  where
    some-injective : some (f a) ≡ some b → f a ≡ b
    some-injective h = cc

module _ {L : Type 0} where
  -- The ways to serve a command.
  pub data Serves (wal : CommandLog L) (c : Command) (e : Engine L) : Engine L → Type 0 where
    unlogged :
        (a : Applied)
        → e.log ≡ none
        → apply_command e.book c ≡ some a
        → Serves wal c e (caught (mutated a e))
    logged :
        (l k : L) (n : ℕ) (a : Applied)
        → e.log ≡ some l
        → wal.append c l ≡ Logged.returned n k
        → apply_command e.book c ≡ some a
        → Serves wal c e (caught (mutated a (record e { log = some k })))
    unstored :
        (l k : L)
        → e.log ≡ some l
        → wal.append c l ≡ Logged.failed k
        → Serves wal c e (caught (Ends.storage_error, record e { log = some k }))

  append-Serves :
      (wal : CommandLog L) (c : Command) (e s : Engine L) (l : L) (r : Logged L)
      → e.log ≡ some l
      → wal.append c l ≡ r
      → (after_append c e r >>= λ out. some (caught out)) ≡ some s
      → Serves wal c e s
  unfolding mutate
  append-Serves wal c e s l (Logged.returned n k) h r m =
      let out =
        some_of (apply_command e.book c >>= λ a. some (mutated a (record e { log = some k })))
          caught s m in
      let a =
        some_of (apply_command e.book c) (λ a. mutated a (record e { log = some k })) out.0 out.1 in
      subst (Serves wal c e) (ap caught a.2 ∙ out.2) (logged l k n a.0 h r a.1)
  append-Serves wal c e s l (Logged.failed k) h r m =
      let out = some_of (some (Ends.storage_error, record e { log = some k })) caught s m in
      let same : (Ends.storage_error, record e { log = some k }) ≡ out.0 = cc (out.1) in
      subst (Serves wal c e) (ap caught same ∙ out.2) (unstored l k h r)

  log-Serves :
      (wal : CommandLog L) (c : Command) (e s : Engine L) (l : Option L)
      → e.log ≡ l
      → (logged_first wal c e l >>= λ out. some (caught out)) ≡ some s
      → Serves wal c e s
  unfolding mutate
  log-Serves wal c e s none h m =
      let out = some_of (apply_command e.book c >>= λ a. some (mutated a e)) caught s m in
      let a = some_of (apply_command e.book c) (λ a. mutated a e) out.0 out.1 in
      subst (Serves wal c e) (ap caught a.2 ∙ out.2) (unlogged a.0 h a.1)
  log-Serves wal c e s (some l) h m = append-Serves wal c e s l (wal.append c l) h refl m

  pub serve-Serves :
      (wal : CommandLog L) (c : Command) (e s : Engine L)
      → serve wal c e ≡ some s
      → Serves wal c e s
  unfolding serve apply
  serve-Serves wal c e s m = log-Serves wal c e s e.log refl m
