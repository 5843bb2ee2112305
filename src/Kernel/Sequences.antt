-- ===== src/Kernel/Sequences.antt =====
-- Sequences of operations on a kernel object against a reference: a state and a function on it.
use ksync.Base.{◌≡◌, refl, List, [], ◌∷◌, ◌++◌}
use ksync.Kernel.{Kernel, Log, M, pure, Returns, Returns-run, ◌>>=◌}

module _ {A O : Type 0} (op : O → M (List A)) where
  -- Each operation adds what it returns, if anything, to the answers.
  unfoldable pub sequence : List O → M (List A)
  sequence [] = pure []
  sequence (o ∷ os) = do answer ← op o; rest ← sequence os; pure (answer ++ rest)

module _ {A O S : Type 0} (reference : O → S → S × List A) where
  abbrev pub references : List O → S → S × List A
  references [] s = (s, [])
  references (o ∷ os) s =
      let (s', answer) = reference o s in
      let (s'', rest) = references os s' in (s'', answer ++ rest)

  -- Each operation is in its domain when its turn comes.
  abbrev pub Fines : (O → S → Type 0) → List O → S → Type 0
  Fines Fine [] s = Unit
  Fines Fine (o ∷ os) s = Fine o s × Fines Fine os (reference o s).0

module _ {A O S : Type 0} (op : O → M (List A)) (reference : O → S → S × List A) (view : Log → S)
    (Fine : O → S → Type 0) (k : Kernel) where
  -- An operation from the log `l` answers, and leaves the object, as the reference says.
  abbrev pub Agrees : S × List A → List A → Log → Type 0
  Agrees expected answer l' = (answer ≡ expected.1) × (view l' ≡ expected.0)

  -- If each operation agrees with the reference, so does every sequence.
  pub sequence-references :
      ((o : O) (l : Log) → Fine o (view l) → Returns (op o k l) (Agrees (reference o (view l))))
      → (os : List O) (l : Log) → Fines reference Fine os (view l)
      → Returns (sequence op os k l) (Agrees (references reference os (view l)))
  unfolding sequence
  sequence-references each [] l fine = (refl, refl)
  sequence-references each (o ∷ os) l (fine, rest_fine) =
      let (answer, l', e, (same, state)) =
        Returns-run {P = Agrees (reference o (view l))} (op o k l) (each o l fine) in
      let rest_fine' : Fines reference Fine os (view l') = rw state rest_fine in
      let (rest, l'', e', (same', state')) =
        Returns-run {P = Agrees (references reference os (view l'))} (sequence op os k l')
          (sequence-references each os l' rest_fine') in
      rw (e, e') (rw (same, same', state) refl, rw (state', state) refl)
