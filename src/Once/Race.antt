-- ===== src/Once/Race.antt =====
-- `OnceLock` of lazy.rs under any interleaving of any number of threads.
use ksync.Base.{
  Option, ◌∙◌, inr, inl, ◌==◌, Option-cases, Bool-cases, length, ◌++◌, ℕ, ◌≤◌, ◌≡◌, ◌≢◌, refl, true,
  some, arith, List, [], ◌∷◌,
}
use ksync.Once.Lock.{
  set_ok, answer, waiting, set, entering, Op, Pc, running, holding, stored, dropping, finished,
  broken, got, System, update, Step, begin, move, Reach, next, step, is_initialized,
}
use ksync.Once.Invariant.{Inv, Reach-Inv, is_owner}

-- What a thread may see of a cell that holds `value`: a reference is to that value, and uninitialised
-- memory is never read.
abbrev pub Sees : {T : Type 0} → Option T → Pc T → Type 0
Sees value (finished (got (some v))) = value ≡ some v
Sees value broken = ⊥
Sees value _ = Unit

-- In every reachable state the initialiser has run at most once, no thread has read uninitialised
-- memory, and a value that a thread was given is the value that the cell holds.
pub once_only :
    {T : Type 0} {s : System T} (i : ℕ) → Reach s → (s.mem.runs ≤ 1) × Sees s.mem.value (s.pc i)
once_only {s} i r = (inv.cell.few, ground (arith, inv.fits i))
  where
    inv : Inv s.mem s.pc
    inv = Reach-Inv r

-- Any two threads that were given a value were given the same.
pub agreement :
    {T : Type 0} {s : System T}
    → Reach s
    → (i j : ℕ) (v w : T) → s.pc i ≡ finished (got (some v))
    → s.pc j ≡ finished (got (some w))
    → v ≡ w
agreement r i j v w p q = ground (arith, (once_only i r).1, (once_only j r).1)

-- In a reachable state whose cell is completed, any step of any thread leaves it completed with
-- the same value.
pub completed_stable :
    {T : Type 0} {s t : System T}
    → Reach s
    → Step s t
    → is_initialized s.mem ≡ true
    → (is_initialized t.mem ≡ true) × (t.mem.value ≡ s.mem.value)
unfolding step is_initialized
completed_stable r (begin i o free) h = (h, refl)
completed_stable {s} r (move i) h = ground (arith, inv.owner_word i)
  where
    inv : Inv s.mem s.pc
    inv = Reach-Inv r

-- Several moves, in the order given.
unfoldable pub turns : {T : Type 0} → List ℕ → System T → System T
turns [] s = s
turns (i ∷ is) s =
    turns is (record { mem = (step s.mem (s.pc i)).0; pc = update s.pc i (step s.mem (s.pc i)).1 })

pub turns-Reach : {T : Type 0} (is : List ℕ) (s : System T) → Reach s → Reach (turns is s)
unfolding turns
turns-Reach [] s r = r
turns-Reach (i ∷ is) s r = turns-Reach is _ (next r (move i))

-- Thread `j` is given the processor until it has nothing left to do in `init_once`.
abbrev pub rest : {T : Type 0} → Pc T → ℕ → List ℕ
rest (running o v) j = j ∷ j ∷ j ∷ j ∷ []
rest (holding o v) j = j ∷ j ∷ j ∷ []
rest (stored o) j = j ∷ j ∷ []
rest (dropping o v) j = j ∷ []
rest _ j = []

owner-completes :
    {T : Type 0} (s : System T) (j : ℕ)
    → Inv s.mem s.pc
    → is_owner (s.pc j) ≡ true
    → ((turns (rest (s.pc j) j) s).mem.word ≡ 2)
      × ((i : ℕ) → i ≢ j → (turns (rest (s.pc j) j) s).pc i ≡ s.pc i)
unfolding turns step
owner-completes s j inv owner =
    (ground (arith, inv.fits j, inv.owner_word j), λ i ne. ground (arith, inv.fits j))

pub turns-append :
    {T : Type 0} (is js : List ℕ) (s : System T) → turns (is ++ js) s ≡ turns js (turns is s)
unfolding turns
turns-append [] js s = refl
turns-append (i ∷ is) js s = turns-append is js _

returns_if_completed :
    {T : Type 0} (s : System T) (i : ℕ) (o : Op T)
    → Inv s.mem s.pc
    → s.mem.word ≡ 2
    → s.pc i ≡ waiting o
    → (v : T) × ((turns (i ∷ i ∷ []) s).pc i ≡ finished (answer o v))
unfolding turns step
returns_if_completed s i o inv done' w = elim (Option-cases s.mem.value) [
  | inl e ↦ absurd (ground arith)
  | inr (v, e) ↦ (v, ground arith)
]

-- From every reachable state in which a thread waits there is a schedule, of six moves at most, after
-- which it has returned.
pub waiting_returns :
    {T : Type 0} {s : System T} (i : ℕ) (o : Op T)
    → Reach s
    → s.pc i ≡ waiting o
    → (is : List ℕ) × (length is ≤ 6) × ((v : T) × ((turns is s).pc i ≡ finished (answer o v)))
waiting_returns {s} i o r w = elim (Bool-cases (s.mem.word == 2)) [
  | inl e ↦ (i ∷ i ∷ [], omega arith, returns_if_completed s i o inv (ground arith) w)
  | inr e ↦
      let (j, owner) = inv.owned (ground (arith, inv.fits i, inv.cell.small)) in
      let (full, same) = owner-completes s j inv owner in
      let ne : i ≢ j = ground arith in
      (
        rest (s.pc j) j ++ i ∷ i ∷ [],
        ground arith,
        rw (turns-append (rest (s.pc j) j) (i ∷ i ∷ []) s) (
            returns_if_completed (turns (rest (s.pc j) j) s) i o
              (Reach-Inv (turns-Reach (rest (s.pc j) j) s r)) full (same i ne ∙ w)),
      )
]
  where
    inv : Inv s.mem s.pc
    inv = Reach-Inv r

-- From a reachable state of a fresh cell with two threads past the test of `set`, a state is
-- reachable in which both were told that they succeeded and the cell holds the value of the first.
pub set_race :
    {T : Type 0} {s : System T} (i j : ℕ) (v w : T)
    → Reach s
    → i ≢ j
    → s.pc i ≡ entering (set v) v
    → s.pc j ≡ entering (set w) w
    → s.mem.word ≡ 0
    → (t : System T) × Reach t
      × (t.mem.value ≡ some v)
      × (t.pc i ≡ finished set_ok)
      × (t.pc j ≡ finished set_ok)
unfolding turns step
set_race {s} i j v w r ne pi pj z = (
  turns (i ∷ i ∷ i ∷ i ∷ i ∷ j ∷ j ∷ j ∷ []) s,
  turns-Reach (i ∷ i ∷ i ∷ i ∷ i ∷ j ∷ j ∷ j ∷ []) s r,
  ground arith,
  ground arith,
  ground arith,
)
