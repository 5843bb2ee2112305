-- ===== src/Mutex/Lifecycle.antt =====
-- Memory across the life of a `Locked` of mutex.rs.
use ksync.Base.{◌&&◌, ℕ, ◌+◌, ◌≡◌, ◌≢◌, ◌⊎◌, Bool, true, false, null, arith, Result, ok, err}
use ksync.Kernel.{Kernel, Log, M, pure, Returns, ◌>>=◌, ◌>>◌}
use ksync.Kernel.Ledger.{total, allocates, frees, filled, sound}
use ksync.NtStatus.{NtError, new, cvt}
use ksync.Utils.{non_paged_pool_nx}
use ksync.Kernel.Abi.{ex_allocate_pool, ex_initialize_resource}
use ksync.Mutex.Kinds.{ResourceMutex, resource_mutex}
use ksync.Mutex.Spin.{spin_mutex, spin_init}
use ksync.Mutex.Locked
use ksync.Mutex.Locked.{Locked, status_insufficient_resources}

-- From `l` to `l'` so many pool blocks are obtained and returned, and no destructor or box is
-- misused.
abbrev pub Balance : ℕ → ℕ → Log → Log → Type 0
Balance a f l l' =
    (total allocates l' ≡ total allocates l + a)
    × (total frees l' ≡ total frees l + f)
    × (sound l' ≡ sound l)

-- A block comes and goes, or there was none.
abbrev pub Lived : Bool → Log → Log → Type 0
Lived true l l' = Balance 1 1 l l'
Lived false l l' = Balance 0 0 l l'

module _ {T : Type 0} where
  -- What `Locked::new` over a resource leaves: a block with a value in it, or an error. The block
  -- stays allocated when the initialisation of the resource fails.
  abbrev pub Made : T → Log → Result (Locked T ResourceMutex) NtError → Log → Type 0
  Made value l (ok self) l' =
      (self.content ≡ value)
      × (self.inner ≢ null)
      × (filled self.inner l' ≡ true)
      × Balance 1 0 l l'
  Made value l (err e) l' =
      ((e.code ≡ status_insufficient_resources) × Balance 0 0 l l') ⊎ Balance 1 0 l l'

  -- `Locked::new` over a resource returns the value in one new block, or an error with nothing
  -- allocated, or an error with a block left allocated.
  pub new-Made :
      (size : ℕ) (value : T) (k : Kernel) (l : Log)
      → Returns (Locked.new resource_mutex size value k l) (Made value l)
  unfolding Locked.new new cvt
  new-Made size value k l = ground arith

  -- When the pool has memory and the resource cannot be initialised, `new` returns the error and never
  -- returns the block that it obtained.
  pub new-leak :
      (size : ℕ) (value : T) (k : Kernel) (l : Log) (status : ℕ)
      → ((h : Log) (n t : ℕ) → (k h (ex_allocate_pool non_paged_pool_nx n t)).ret ≢ null)
      → ((h : Log) (p : ℕ) → (k h (ex_initialize_resource p)).ret ≡ status)
      → status ≢ 0
      → Returns
          (Locked.new resource_mutex size value k l)
          λ r l'. (r ≡ err (record { code = status })) × Balance 1 0 l l'
  unfolding Locked.new new cvt
  new-leak size value k l status room fails ne = grind (arith, room, fails)

  -- A locked value is made, set and dropped.
  unfoldable pub life : ℕ → T → T → M (Bool)
  unfolding Locked.new Locked.set Locked.drop
  life size value other = do
    r ← Locked.new spin_mutex size value
    elim r [
      | err e ↦ pure false
      | ok self ↦ (do
        self' ← Locked.set spin_mutex self other
        Locked.drop spin_mutex self'
        pure true)
    ]

  -- A locked value over a spin lock that is made, set and dropped returns its one block, and every
  -- destructor that runs has a value to destroy; when there is no memory nothing is obtained.
  pub life-Balance :
      (size : ℕ) (value other : T) (k : Kernel) (l : Log)
      → Returns (life size value other k l) λ made l'. Lived made l l'
  unfolding life new spin_init
  life-Balance size value other k l = ground arith

  -- Where the pool has memory, `default` returns the value, and runs a destructor on the new block
  -- before a value was moved there: that is sound only if the block already held a value.
  pub default-unsound :
      (size : ℕ) (value : T) (k : Kernel) (l : Log)
      → ((h : Log) (n t : ℕ) → (k h (ex_allocate_pool non_paged_pool_nx n t)).ret ≢ null)
      → Returns
          (Locked.default spin_mutex size value k l)
          λ self l'. (self.content ≡ value) × (sound l' ≡ (filled self.inner l && sound l))
  unfolding Locked.default spin_init
  default-unsound size value k l room = grind (arith, room)
