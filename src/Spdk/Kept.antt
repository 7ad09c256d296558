-- ===== src/Spdk/Kept.antt =====
-- What the driver's calls keep of the lists and of the blocks: predicates that survive a new block and a
-- later serial number, too.
use tx_driver.Base.{ℕ, suc, ◌≤◌, ◌<◌, ◌≡◌, subst, false, ◌∷◌, arith, dec_lt, List}
use tx_driver.Malloc.{Grants, Source, Block}
use tx_driver.Spdk.Doomed.{Dangles, Dangles-Stable}
use tx_driver.Spdk.Held.{Below, Below-weaken, Below-cons, Holding-cons}
use tx_driver.Spdk.Library.{Library}
use tx_driver.Spdk.Sound.{IsSound, IsSound-Stable}
use tx_driver.Spdk.Stable.{Stable}
use tx_driver.Spdk.State.{Driver, is_live}

-- From `d` to `d'` the lists and the blocks are as they were; serial numbers may be used up.
pub record Idle {Dev : Type 0} (d d' : Driver Dev) : Type 0 where
  pub live : d'.memory.live ≡ d.memory.live
  pub serial : d.memory.serial ≤ d'.memory.serial
  pub namespaces : d'.g_namespaces ≡ d.g_namespaces
  pub controllers : d'.g_controllers ≡ d.g_controllers

-- The driver with one more block, and some counter.
abbrev pub pushed : {Dev : Type 0} → Source → (bytes counter : ℕ) → Driver Dev → Driver Dev
pushed src bytes counter d = record d {
  memory = record {
    allocated_mem_size = counter;
    live = record { addr = d.memory.serial; bytes = bytes; source = src } ∷ d.memory.live;
    serial = suc d.memory.serial;
  };
}

-- A later bound.
Below-later : {a b : ℕ} {bs : List Block} → a ≤ b → Below a bs → Below b bs
Below-later {a} {b} {bs} later below = elim (dec_lt a b) [
  | yes more ↦ Below-weaken more below
  | no same ↦ subst (λ c. Below c bs) (omega arith) below
]

module _ (lib : Library) (grants : Grants) where
  open lib use {Dev}

  pub record Kept (P : Driver Dev → Type 0) : Type 0 where
    pub stable : Stable lib grants P
    pub push :
        (src : Source) (bytes counter : ℕ) (d : Driver Dev) → P d → P (pushed src bytes counter d)
    pub idle : {d d' : Driver Dev} → Idle d d' → P d → P d'

  block_dead :
      (p bytes counter : ℕ) (src : Source) (d : Driver Dev)
      → p < d.memory.serial
      → is_live p d.memory.live ≡ false
      → is_live p (pushed src bytes counter d).memory.live ≡ false
  unfolding is_live
  block_dead p bytes counter src d old dead = ground arith

  pub Dangles-Kept : (p : ℕ) → Kept (Dangles lib grants p)
  Dangles-Kept p = record {
    stable = Dangles-Stable lib grants p;
    push = λ src bytes counter d s. record {
      listed = s.listed;
      dead = block_dead p bytes counter src d s.old s.dead;
      old = omega (arith, s.old);
    };
    idle = λ {d} {d'} i s. record {
      listed = rw i.namespaces s.listed;
      dead = rw i.live s.dead;
      old = omega (arith, i.serial, s.old);
    };
  }

  idle-IsSound : {d d' : Driver Dev} → Idle d d' → IsSound lib grants d → IsSound lib grants d'
  idle-IsSound {d} {d'} i s = record {
    below = rw i.live (Below-later i.serial s.below);
    held = rw (i.live, i.namespaces, i.controllers) s.held;
  }

  push-IsSound :
      (src : Source) (bytes counter : ℕ) (d : Driver Dev)
      → IsSound lib grants d
      → IsSound lib grants (pushed src bytes counter d)
  push-IsSound src bytes counter d s = record {
    below =
        Below-cons d.memory.serial (record { addr = d.memory.serial; bytes = bytes; source = src })
          d.memory.live s.below (omega arith);
    held =
        Holding-cons d.memory.serial
          (record { addr = d.memory.serial; bytes = bytes; source = src }) d.memory.live s.below
          (omega arith) s.held;
  }

  pub IsSound-Kept : Kept (IsSound lib grants)
  IsSound-Kept = record {
    stable = IsSound-Stable lib grants;
    push = push-IsSound;
    idle = λ i s. idle-IsSound i s;
  }
