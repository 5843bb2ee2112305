-- ===== src/Once/Cells/Threads/Careful.antt =====
-- Threads that share a `LazyCell` of lazy.rs as its documentation asks, and threads that do not.
use ksync.Base.{ℕ, ◌≤◌, ◌≡◌, refl, inl, inr, Bool, true, false, some, arith}
use ksync.Once.Lock.{update}
use ksync.Once.Cells.{State, uninit, init, poisoned}
use ksync.Once.Cells.Threads.{
  Place, idle, checking, taking, poisoning, calling, writing, reading, looking, forced, got,
  panicked, broken, LazyCell, new, first, step, is_free, is_init, System, Allowed, Step, begin,
  move, Reach, here, next,
}

abbrev pub is_poisoned : {T : Type 0} → State T (Unit {0}) → Bool
is_poisoned poisoned = true
is_poisoned _ = false

abbrev pub is_uninit : {T : Type 0} → State T (Unit {0}) → Bool
is_uninit (uninit f) = true
is_uninit _ = false

-- An initialised cell has the closure's result.
abbrev pub Good : {T : Type 0} → T → State T (Unit {0}) → Type 0
Good result (init v) = v ≡ result
Good result _ = Unit

abbrev pub Fits : {T : Type 0} → T → LazyCell T → Place T → Type 0
Fits result m checking = is_poisoned m.state ≡ false
Fits result m looking = is_poisoned m.state ≡ false
Fits result m taking = is_uninit m.state ≡ true
Fits result m (poisoning b) = (is_uninit m.state ≡ true) × (b ≡ true)
Fits result m calling = (m.runs ≡ 0) × (is_poisoned m.state ≡ true)
Fits result m (writing v) = (m.runs ≡ 1) × (is_poisoned m.state ≡ true) × (v ≡ result)
Fits result m reading = is_init m.state ≡ true
Fits result m (forced v) = (is_init m.state ≡ true) × (v ≡ result)
Fits result m (got (some v)) = (is_init m.state ≡ true) × (v ≡ result)
Fits result m panicked = ⊥
Fits result m broken = ⊥
Fits result m _ = Unit

pub record Inv {T : Type 0} (result : T) (m : LazyCell T) (place : ℕ → Place T) : Type 0 where
  pub few : m.runs ≤ 1
  pub fresh : is_uninit m.state ≡ true → m.runs ≡ 0
  pub good : Good result m.state
  pub alone :
      (i j : ℕ)
      → is_init m.state ≡ false
      → is_free (place i) ≡ false
      → is_free (place j) ≡ false
      → i ≡ j
  pub calm : ((j : ℕ) → is_free (place j) ≡ true) → is_poisoned m.state ≡ false
  pub fits : (i : ℕ) → Fits result m (place i)

module _ {T : Type 0} (result : T) (m : LazyCell T) (place : ℕ → Place T) (i : ℕ)
    (inv : Inv result m place) where
  abbrev pub cell' : LazyCell T
  cell' = (step result m (place i)).0

  abbrev pub place' : ℕ → Place T
  place' = update place i (step result m (place i)).1

  move-calm :
      (p : Place T)
      → place i ≡ p
      → ((j : ℕ) → is_free (update place i (step result m p).1 j) ≡ true)
      → is_poisoned (step result m p).0.state ≡ false
  unfolding step
  move-calm idle at free = inv.calm (λ j. ground (arith, free j))
  move-calm (forced v) at free = inv.calm (λ j. ground (arith, free j))
  move-calm (got a) at free = inv.calm (λ j. ground (arith, free j))
  move-calm p at free = ground (arith, free i, inv.fits i)

  pub move-Inv : Inv result cell' place'
  unfolding step
  move-Inv = record {
    few = ground (arith, inv.fits i, inv.few, inv.fresh);
    fresh = ground (arith, inv.fits i, inv.fresh);
    good = ground (arith, inv.fits i, inv.good);
    alone = λ j n h f g. ground (arith, inv.fits i, inv.alone j n, inv.alone i j, inv.alone i n);
    calm = move-calm (place i) refl;
    fits = λ j. ground (arith, inv.fits i, inv.fits j, inv.good, inv.fresh, inv.alone i j);
  }

Step-Inv :
    {T : Type 0} {result : T} {s t : System T}
    → Step Allowed result s t
    → Inv result s.cell s.place
    → Inv result t.cell t.place
unfolding first
Step-Inv {result} {s} (move i) inv = move-Inv result s.cell s.place i inv
Step-Inv {result} {s} (begin i o free (inl ready)) inv = record {
  few = inv.few;
  fresh = inv.fresh;
  good = inv.good;
  alone = λ j n h f g. ground (arith, ready, h);
  calm = λ all. ground (arith, ready);
  fits = λ j. ground (arith, inv.fits j, ready);
}
Step-Inv {result} {s} (begin i o free (inr all)) inv = record {
  few = inv.few;
  fresh = inv.fresh;
  good = inv.good;
  alone = λ j n h f g. ground (arith, all j, all n);
  calm = λ h. inv.calm all;
  fits = λ j. ground (arith, inv.fits j, inv.calm all);
}

pub Reach-Inv :
    {T : Type 0} {result : T} {s : System T} → Reach Allowed result s → Inv result s.cell s.place
unfolding new
Reach-Inv here = record {
  few = omega arith;
  fresh = λ h. refl;
  good = tt;
  alone = λ i j h f g. cc;
  calm = λ h. refl;
  fits = λ i. tt;
}
Reach-Inv (next r st) = Step-Inv st (Reach-Inv r)
