-- ===== src/WriteAheadLog/Write.antt =====
-- writeFully of store/write_ahead_log.cpp: short writes and interruptions.
use multithreaded_exchange_s.Prelude.{
  take-drop, ℕ, zero, suc, ◌<◌, ◌≡◌, refl, sym, ap, subst, ◌∙◌, List, [], ◌∷◌, ◌++◌, append-nil,
  append_assoc, arith, length, take, drop,
}
use multithreaded_exchange_s.WriteAheadLog.{Wrote, Written, write_fully}

-- What is written: all the bytes, or a proper beginning of them.
pub data Writes (bytes file : List ℕ) : Written → Type 0 where
  all : Writes bytes file (Written.done (file ++ bytes))
  part :
      (some_bytes rest : List ℕ)
      → some_bytes ++ rest ≡ bytes
      → 0 < length rest
      → Writes bytes file (Written.threw (file ++ some_bytes))

longer :
    (first rest file : List ℕ) {w : Written}
    → Writes rest (file ++ first) w
    → Writes (first ++ rest) file w
longer first rest file Writes.all =
    subst (λ f. Writes (first ++ rest) file (Written.done f)) (sym (append_assoc file first rest))
      Writes.all
longer first rest file (Writes.part xs ys e h) =
    subst (λ f. Writes (first ++ rest) file (Written.threw f)) (sym (append_assoc file first xs))
      (Writes.part (first ++ xs) ys (append_assoc first xs ys ∙ ap (λ l. first ++ l) e) h)

-- Whatever `write` answers, with short writes and interruptions, writeFully ends: it appends exactly
-- the bytes to the file, or throws and has appended a proper beginning of them.
pub write_fully-Writes :
    (answers : List Wrote) (bytes file : List ℕ)
    → Writes bytes file (write_fully answers bytes file)
unfolding write_fully
write_fully-Writes answers [] file =
    subst (λ f. Writes [] file (Written.done f)) (append-nil file) Writes.all
write_fully-Writes [] (b ∷ bs) file = Writes.all
write_fully-Writes (Wrote.wrote zero ∷ answers) (b ∷ bs) file =
    subst (λ f. Writes (b ∷ bs) file (Written.threw f)) (append-nil file)
      (Writes.part [] (b ∷ bs) refl (omega arith))
write_fully-Writes (Wrote.wrote (suc n) ∷ answers) (b ∷ bs) file =
    subst (λ l. Writes (b ∷ l) file (write_fully answers (drop n bs) (file ++ b ∷ take n bs)))
      (take-drop n bs)
      (longer (b ∷ take n bs) (drop n bs) file
        (write_fully-Writes answers (drop n bs) (file ++ b ∷ take n bs)))
write_fully-Writes (Wrote.interrupted ∷ answers) (b ∷ bs) file =
    write_fully-Writes answers (b ∷ bs) file
write_fully-Writes (Wrote.refused ∷ answers) (b ∷ bs) file =
    subst (λ f. Writes (b ∷ bs) file (Written.threw f)) (append-nil file)
      (Writes.part [] (b ∷ bs) refl (omega arith))
