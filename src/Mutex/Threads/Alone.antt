-- ===== src/Mutex/Threads/Alone.antt =====
-- A thread of Mutex/Threads that the others leave alone: where its steps lead.
pub mod Agreement
use mathlib.Core.Path.{subst, sym}
use ksync.Base.{
  ℕ, ◌==◌, ◌≡◌, refl, ◌∙◌, Bool, true, false, Bool-cases, inl, inr, Option, none, some,
  if◌then◌else◌, arith, ok, err,
}
use ksync.Kernel.{Kernel, Log, M, pure, Returns, ◌>>=◌}
use ksync.Mutex.{Mutex}
use ksync.Mutex.Locked
use ksync.Mutex.Locked.{Locked}
use ksync.Mutex.Holds.{LockLaws, irql_ok_run, lock_run, unlock_run}
use ksync.Mutex.Threads.{
  Job, change, cloned, shared, peek, Place, testing, locking, reading, writing, releasing, returned,
  refused, peeking, passed, first, step, is_free, System, Step, begin, pass, refuse, acquire, move,
  release,
}
use ksync.Once.Lock.{update}

module _ {T L : Type 0} (Acquire Release : ℕ → L → L → Type 0) where
  pub data Steps (s : System T L) : System T L → Type 0 where
    stay : Steps s s
    go_on : {t u : System T L} → Steps s t → Step Acquire Release t u → Steps s u

  -- Some steps of thread `i` alone lead from `s` to where it is at `p`, with the content `c` and the
  -- lock object in `l`.
  abbrev pub Leads : ℕ → System T L → Place T → T → L → Type 0
  Leads i s p c l =
      (t : System T L) × Steps s t
      × ((j : ℕ) → t.place j ≡ update s.place i p j)
      × (t.content ≡ c)
      × (t.lock ≡ l)

  module _ (i : ℕ) (s : System T L) where
    pub Leads-begin :
        (job : Job T) → is_free (s.place i) ≡ true → Leads i s (first job) s.content s.lock
    Leads-begin job free = (_, go_on stay (begin i job free), λ j. refl, refl, refl)

    module _ {c : T} {l : L} where
      Leads-pass : (job : Job T) → Leads i s (testing job) c l → Leads i s (passed job) c l
      Leads-pass job (t, steps, place, content, lock) = (
        _,
        go_on steps (pass i job (ground (arith, place i))),
        λ j. ground (arith, place j),
        content,
        lock,
      )

      Leads-refuse : (job : Job T) → Leads i s (testing job) c l → Leads i s refused c l
      Leads-refuse job (t, steps, place, content, lock) = (
        _,
        go_on steps (refuse i job (ground (arith, place i))),
        λ j. ground (arith, place j),
        content,
        lock,
      )

      Leads-Acquire :
          (job : Job T) (l' : L)
          → Acquire i l l'
          → Leads i s (locking job) c l
          → Leads i s (reading job) c l'
      Leads-Acquire job l' got (t, steps, place, content, lock) = (
        _,
        go_on steps (
            acquire i job l' (ground (arith, place i))
              (subst (λ x. Acquire i x l') (sym lock) got)),
        λ j. ground (arith, place j),
        content,
        refl,
      )

      pub Leads-move : (p : Place T) → Leads i s p c l → Leads i s (step c p).1 (step c p).0 l
      Leads-move p (t, steps, place, content, lock) =
          let at : t.place i ≡ p = ground (arith, place i) in
          (
            _,
            go_on steps (move i),
            λ j. rw (at, content) (ground (arith, place j)),
            rw (at, content) refl,
            lock,
          )

      Leads-Release :
          (a : Option T) (w : Bool) (l' : L)
          → Release i l l'
          → Leads i s (releasing a w) c l
          → Leads i s (returned a) c l'
      Leads-Release a w l' gone (t, steps, place, content, lock) = (
        _,
        go_on steps (
            release i a w l' (ground (arith, place i))
              (subst (λ x. Release i x l') (sym lock) gone)),
        λ j. ground (arith, place j),
        content,
        refl,
      )

module _ {T L : Type 0} (Acquire Release : ℕ → L → L → Type 0) (i : ℕ) (s : System T L) {l1 l2 : L}
    (free : is_free (s.place i) ≡ true) (got : Acquire i s.lock l1) (gone : Release i l1 l2) where
  pub Leads-refused :
      (job : Job T) → first job ≡ testing job → Leads Acquire Release i s refused s.content s.lock
  Leads-refused job tests = Leads-refuse Acquire Release i s job (
      subst (λ p. Leads Acquire Release i s p s.content s.lock) tests
        (Leads-begin Acquire Release i s job free))

  pub Leads-change : (f : T → T) → Leads Acquire Release i s (returned none) (f s.content) l2
  unfolding first passed step
  Leads-change f = Leads-Release Acquire Release i s none true l2 gone (
      Leads-move Acquire Release i s _ (
        Leads-move Acquire Release i s _ (
          Leads-Acquire Acquire Release i s (change f) l1 got (
            Leads-pass Acquire Release i s (change f)
              (Leads-begin Acquire Release i s (change f) free)))))

  pub Leads-cloned : Leads Acquire Release i s (returned (some s.content)) s.content l2
  unfolding first passed step
  Leads-cloned = Leads-Release Acquire Release i s (some s.content) false l2 gone (
      Leads-move Acquire Release i s _ (
        Leads-Acquire Acquire Release i s cloned l1 got
          (Leads-pass Acquire Release i s cloned (Leads-begin Acquire Release i s cloned free))))
