-- ===== src/Spdk/Library.antt =====
-- The calls of SPDK that the driver makes, which are not part of the repository. Controllers,
-- namespaces and queue pairs are opaque handles, numbers here.
use tx_driver.Base.{ℕ, suc, ◌≡◌, Bool, Option, none, some, List}

pub record Library : Type 1 where
  pub Dev : Type 0
  -- `spdk_nvme_probe`: its return code, and the controllers that it found, in order. It calls
  -- `attach_cb` for those that `probe_cb` accepts.
  pub probe : Dev → ℕ × List ℕ × Dev
  pub num_ns : (ctrlr : ℕ) → ℕ
  pub get_ns : (ctrlr nsid : ℕ) → Option ℕ
  pub is_active : (ns : ℕ) → Bool
  pub alloc_io_qpair : Dev → (ctrlr : ℕ) → Option ℕ × Dev
  pub free_io_qpair : Dev → (qpair : ℕ) → ℕ × Dev
  pub detach : Dev → (ctrlr : ℕ) → Dev
  -- Submit a command: the return code, 0 if it is accepted.
  pub cmd_write : Dev → (ns qpair : ℕ) → List ℕ → (lba lba_count : ℕ) → ℕ × Dev
  pub cmd_read : Dev → (ns qpair lba lba_count : ℕ) → ℕ × Dev
  -- `spdk_nvme_qpair_process_completions`: whether the command in flight has completed, with the
  -- bytes that a read has put into its buffer.
  pub process_completions : Dev → (qpair : ℕ) → Option (List ℕ) × Dev

-- The command in flight completes at the `k`-th poll from here, with `bytes`, and leaves `e`.
pub data Completes (lib : Library) (qpair : ℕ) (bytes : List ℕ) (e : lib.Dev)
    : ℕ → lib.Dev → Type 0 where
  now :
      {d : lib.Dev}
      → lib.process_completions d qpair ≡ (some bytes, e)
      → Completes lib qpair bytes e 0 d
  later :
      {k : ℕ} {d d' : lib.Dev}
      → lib.process_completions d qpair ≡ (none, d')
      → Completes lib qpair bytes e k d'
      → Completes lib qpair bytes e (suc k) d
