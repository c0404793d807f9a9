-- ===== src/Engine/Replay.antt =====
-- core/engine.cpp: the engine's book and counters against the commands that its log took.
use multithreaded_exchange_s.Command.{apply_command, Command, applied_book, Applied, history}
use multithreaded_exchange_s.Engine.Serves.{serve-Serves, Serves}
use multithreaded_exchange_s.Engine.{Logged, mutated, serve, caught, CommandLog, Engine, publish}
use multithreaded_exchange_s.Book.Types.{Book, Fill}
use multithreaded_exchange_s.Prelude.Word.{u64_mod, add64}
use multithreaded_exchange_s.Engine.Loop.{serve_all}
use multithreaded_exchange_s.Prelude.{
  ℕ, ◌+◌, ◌%◌, ◌≡◌, refl, sym, ap, ap₂, ◌∙◌, inl, inr, Option, none, some, List, [], ◌∷◌, ◌++◌,
  arith, if◌then◌else◌, Bool-cases, length, ◌>>=◌,
}

some-injective {ℓ} : {A : Type ℓ} {x y : A} → some x ≡ some y → x ≡ y
some-injective h = cc

history_step :
    (c : Command) (cs : List Command) (b : Book) (a : Applied)
    → apply_command b c ≡ some a
    → history (c ∷ cs) b ≡ history cs (applied_book b a)
unfolding history
history_step c cs b a h = ap (λ o. o >>= λ x. history cs (applied_book b x)) h

module _ {L : Type 0} where
  record Published (e s : Engine L) : Type 0 where
    book : s.book ≡ e.book
    log : s.log ≡ e.log
    processed : s.processed ≡ e.processed
    rejected : s.rejected ≡ e.rejected
    failures : s.storage_failures ≡ e.storage_failures

  publish-Published : (fs : List Fill) (e : Engine L) → Published e (publish fs e)
  unfolding publish
  publish-Published [] e = record {
    book = refl;
    log = refl;
    processed = refl;
    rejected = refl;
    failures = refl;
  }
  publish-Published (f ∷ fs) e =
      let p = publish-Published fs (record e {
        fills = add64 e.fills 1;
        published = if e.has_handler then e.published ++ f ∷ [] else e.published;
      }) in
      record {
        book = p.book;
        log = p.log;
        processed = p.processed;
        rejected = p.rejected;
        failures = p.failures;
      }

  -- The commands that were counted, whatever became of them.
  unfoldable pub tally : Engine L → ℕ
  tally e = (e.processed + e.rejected + e.storage_failures) % u64_mod

  -- What a served command leaves.
  record Mutated (a : Applied) (e s : Engine L) : Type 0 where
    book : s.book ≡ applied_book e.book a
    log : s.log ≡ e.log
    counted : tally s ≡ (tally e + 1) % u64_mod

  mutated-Mutated : (a : Applied) (e : Engine L) → Mutated a e (caught (mutated a e))
  unfolding tally add64
  mutated-Mutated (Applied.refused x) e = record { book = refl; log = refl; counted = omega arith }
  mutated-Mutated (Applied.applied o b) e =
      let p = publish-Published o.fills (record e { book = b }) in
      elim (Bool-cases (o.accepted)) [
        | inl k ↦ simp k (record {
          book = p.book;
          log = p.log;
          counted = omega (arith, p.processed, p.rejected, p.failures);
        })
        | inr k ↦ simp k (record {
          book = p.book;
          log = p.log;
          counted = omega (arith, p.processed, p.rejected, p.failures);
        })
      ]

  -- The commands that reach the book: with no log all of them, else those that the log took.
  unfoldable pub taken : CommandLog L → List Command → Option L → List Command
  taken wal [] l = []
  taken wal (c ∷ cs) none = c ∷ taken wal cs none
  taken wal (c ∷ cs) (some l) = elim (wal.append c l) [
    | Logged.returned n k ↦ c ∷ taken wal cs (some k)
    | Logged.failed k ↦ taken wal cs (some k)
  ]

  pub taken_returned :
      (wal : CommandLog L) (c : Command) (cs : List Command) (l k : L) (n : ℕ)
      → wal.append c l ≡ Logged.returned n k
      → taken wal (c ∷ cs) (some l) ≡ c ∷ taken wal cs (some k)
  unfolding taken
  taken_returned wal c cs l k n h = rw (h, taken) refl

  taken_failed :
      (wal : CommandLog L) (c : Command) (cs : List Command) (l k : L)
      → wal.append c l ≡ Logged.failed k
      → taken wal (c ∷ cs) (some l) ≡ taken wal cs (some k)
  unfolding taken
  taken_failed wal c cs l k h = rw (h, taken) refl

  record Steps (wal : CommandLog L) (c : Command) (cs : List Command) (e s : Engine L)
      : Type 0 where
    book : history (taken wal (c ∷ cs) e.log) e.book ≡ history (taken wal cs s.log) s.book
    counted : tally s ≡ (tally e + 1) % u64_mod

  Serves-Steps :
      (wal : CommandLog L) (c : Command) (cs : List Command) (e : Engine L) {s : Engine L}
      → Serves wal c e s
      → Steps wal c cs e s
  unfolding taken tally add64
  Serves-Steps wal c cs e (Serves.unlogged a h r) =
      let m = mutated-Mutated a e in
      record {
        book =
            ap (λ l. history (taken wal (c ∷ cs) l) e.book) h
            ∙ (history_step c (taken wal cs none) e.book a r
                ∙ ap₂ (λ l b. history (taken wal cs l) b) (sym (m.log ∙ h)) (sym m.book));
        counted = m.counted;
      }
  Serves-Steps wal c cs e (Serves.logged l k n a h w r) =
      let m = mutated-Mutated a (record e { log = some k }) in
      record {
        book =
            ap (λ x. history (taken wal (c ∷ cs) x) e.book) h
            ∙ (ap (λ x. history x e.book) (taken_returned wal c cs l k n w)
                ∙ (history_step c (taken wal cs (some k)) e.book a r
                    ∙ ap₂ (λ x b. history (taken wal cs x) b) (sym m.log) (sym m.book)));
        counted = m.counted;
      }
  Serves-Steps wal c cs e (Serves.unstored l k h w) = record {
    book =
        ap (λ x. history (taken wal (c ∷ cs) x) e.book) h
        ∙ ap (λ x. history x e.book) (taken_failed wal c cs l k w);
    counted = omega arith;
  }

  chained :
      (m : Option (Engine L)) (f : Engine L → Option (Engine L)) (s : Engine L)
      → (m >>= f) ≡ some s
      → (e : Engine L) × (m ≡ some e) × (f e ≡ some s)
  chained none f s h = absurd (cc)
  chained (some e) f s h = (e, refl, h)

  abbrev pub log_after : Logged L → L
  log_after (Logged.returned n k) = k
  log_after (Logged.failed k) = k

  -- The log that is left when commands were served.
  unfoldable pub left : CommandLog L → List Command → L → L
  left wal [] l = l
  left wal (c ∷ cs) l = left wal cs (log_after (wal.append c l))

  Serves-log :
      (wal : CommandLog L) (c : Command) (e : Engine L) {s : Engine L} (l : L)
      → e.log ≡ some l
      → Serves wal c e s
      → s.log ≡ some (log_after (wal.append c l))
  Serves-log wal c e l g (Serves.unlogged a h r) = absurd (cc (g, h))
  Serves-log wal c e l g (Serves.logged x k n a h w r) =
      let same : x ≡ l = some-injective (sym h ∙ g) in
      (mutated-Mutated a (record e { log = some k })).log
      ∙ ap (λ r. some (log_after r)) (sym w ∙ ap (λ y. wal.append c y) same)
  Serves-log wal c e l g (Serves.unstored x k h w) =
      let same : x ≡ l = some-injective (sym h ∙ g) in
      ap (λ r. some (log_after r)) (sym w ∙ ap (λ y. wal.append c y) same)

  pub serve_all-log :
      (wal : CommandLog L) (cs : List Command) (e s : Engine L) (l : L)
      → e.log ≡ some l
      → serve_all wal cs e ≡ some s
      → s.log ≡ some (left wal cs l)
  unfolding serve_all left
  serve_all-log wal [] e s l g h =
      let same : e ≡ s = some-injective h in ap (λ x. x.log) (sym same) ∙ g
  serve_all-log wal (c ∷ cs) e s l g h =
      let (m, first, then_all) = chained (serve wal c e) (serve_all wal cs) s h in
      serve_all-log wal cs m s (log_after (wal.append c l))
        (Serves-log wal c e l g (serve-Serves wal c e m first)) then_all

  -- Where serving commands one after the other returns, whatever the log does: the book is the one that
  -- the commands that the log took leave when they are applied in that order to the book at the start,
  -- refused ones included; and each command is counted exactly once, as processed, rejected or not
  -- stored, modulo 2 ^ 64.
  pub serve_all-history :
      (wal : CommandLog L) (cs : List Command) (e s : Engine L)
      → serve_all wal cs e ≡ some s
      → (history (taken wal cs e.log) e.book ≡ some s.book)
        × (tally s ≡ (tally e + length cs) % u64_mod)
  unfolding serve_all taken history tally
  serve_all-history wal [] e s h =
      let same : e ≡ s = cc (h) in (ap (λ x. some x.book) same, omega (arith, ap tally same))
  serve_all-history wal (c ∷ cs) e s h =
      let (m, first, then_all) = chained (serve wal c e) (serve_all wal cs) s h in
      let step = Serves-Steps wal c cs e (serve-Serves wal c e m first) in
      let all = serve_all-history wal cs m s then_all in
      (step.book ∙ all.0, omega (arith, step.counted, all.1))
