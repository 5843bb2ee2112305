-- ===== src/Samples/Objects.antt =====
-- test.rs: `test_kobject`, which looks up a process and a thread and drops the references.
use ksync.Base.{ℕ, ◌+◌, ◌≡◌, Result, ok, err, arith}
use ksync.Kernel.{
  Kernel, Log, M, pure, Run, done, panicked, fault, Returns, and_then-Returns, ◌>>=◌, ◌>>◌,
}
use ksync.Kernel.Ledger.{total, takes, gives}
use ksync.NtStatus.{NtError}
use ksync.Object.{KernelObject, drop_object, from_process_id, from_thread_id}
use ksync.Object.Balance.{NtSuccess, Owns, conversions-Owns}
use ksync.Utils.ControlCode.{ulong_to_handle}

-- `if let Ok(object) = …`: the object is printed by its address and dropped.
unfoldable pub shown : Result KernelObject NtError → M (Unit {0})
unfolding drop_object
shown (err e) = pure tt
shown (ok object) = drop_object object

unfoldable pub looked_up : M (Result KernelObject NtError) → M (Unit {0})
unfolding shown
looked_up lookup = do r ← lookup; shown r

unfoldable pub test_kobject : M (Unit {0})
unfolding looked_up ulong_to_handle
test_kobject = do
  looked_up (from_process_id (ulong_to_handle 4368))
  looked_up (from_thread_id (ulong_to_handle 4372))

-- As many references to the object `o` are given back as are taken.
abbrev Balanced : ℕ → Log → Unit {0} → Log → Type 0
Balanced o l u l' = total (takes o) l' + total (gives o) l ≡ total (takes o) l + total (gives o) l'

shown-Balanced :
    (o : ℕ) (k : Kernel) (l l1 : Log) (r : Result KernelObject NtError)
    → Owns l r l1
    → Returns (shown r k l1) (Balanced o l)
unfolding shown
shown-Balanced o k l l1 (ok object) owns = ground (arith, owns o)
shown-Balanced o k l l1 (err e) owns = ground (arith, owns.1 o)

looked_up-Balanced :
    (lookup : M (Result KernelObject NtError)) (o : ℕ) (k : Kernel) (l : Log)
    → Returns (lookup k l) (Owns l)
    → Returns (looked_up lookup k l) (Balanced o l)
unfolding looked_up
looked_up-Balanced lookup o k l owns =
    and_then-Returns {P = Owns l} (Balanced o l) (lookup k l) shown k owns
      (λ r l1 owned. shown-Balanced o k l l1 r owned)

Balanced-trans :
    (o : ℕ) (l l1 : Log) (r : Run (Unit {0}))
    → Balanced o l tt l1
    → Returns r (Balanced o l1)
    → Returns r (Balanced o l)
Balanced-trans o l l1 (done u l2) p q = omega (arith, p, q)
Balanced-trans o l l1 (panicked l2) p q = q
Balanced-trans o l l1 (fault l2) p q = q

-- Where `nt_success` tells by the sign bit, `test_kobject` returns, whether the process and the thread
-- are found or not, and gives back as many references to every object as it takes.
pub test_kobject-Balanced :
    (o : ℕ) (k : Kernel) (l : Log) → NtSuccess k → Returns (test_kobject k l) (Balanced o l)
unfolding test_kobject
test_kobject-Balanced o k l signs =
    and_then-Returns {P = Balanced o l} (Balanced o l)
      (looked_up (from_process_id (ulong_to_handle 4368)) k l)
      (λ u. looked_up (from_thread_id (ulong_to_handle 4372))) k
      (looked_up-Balanced (from_process_id (ulong_to_handle 4368)) o k l
        (conversions-Owns 0 0 0 (ulong_to_handle 4368) k l signs).2)
      (λ u l1 once.
        Balanced-trans o l l1 (looked_up (from_thread_id (ulong_to_handle 4372)) k l1) once (
          looked_up-Balanced (from_thread_id (ulong_to_handle 4372)) o k l1
            (conversions-Owns 0 0 0 (ulong_to_handle 4372) k l1 signs).3))
