-- ===== src/Examples/Earlier.antt =====
-- The earlier variant: its journal where a request is refused and where none is.
use tx_driver.Base.{Bool, true, false, ◌≡◌, refl, ◌==◌, if◌then◌else◌, Returns, ok, some}
use tx_driver.Early.Agree.{NoConditions, get_journal-agrees}
use tx_driver.Early.Create
use tx_driver.Early.Create.{txd_journal_init_common}
use tx_driver.Early.Creation.{early_init_common-CreateResult}
use tx_driver.Early.Ready.{IsBlank, CreateResult}
use tx_driver.Examples.{generous, bit_heads, blank, formatted, fresh_memory}
use tx_driver.Journal.Create.{txd_get_journal}
use tx_driver.Journal.Defs.{Journal}
use tx_driver.Malloc.{Grants, Memory}

-- Every request is granted but the third.
abbrev third_refused : Grants
third_refused src serial bytes = if serial == 3 then false else true

pub blank-IsBlank : (grants : Grants) → IsBlank bit_heads blank grants
blank-IsBlank grants = record { wbuf = refl; slots = (refl, refl) }

blank-NoConditions : NoConditions bit_heads blank generous (λ src serial bytes. refl)
blank-NoConditions = record {
  transaction_locked = refl;
  done_commit = refl;
  commit = refl;
  updates = refl;
  reserved = refl;
}

early_init_common-CreateResult_example :
    Returns
      (CreateResult bit_heads blank third_refused formatted fresh_memory)
      (txd_journal_init_common bit_heads blank third_refused formatted fresh_memory)
early_init_common-CreateResult_example =
    early_init_common-CreateResult bit_heads blank third_refused (blank-IsBlank third_refused)
      formatted fresh_memory

get_journal-agrees_example :
    (j : Journal Bool) × (m₁ : Memory) × (m₂ : Memory) × (txd_get_journal bit_heads blank generous
        formatted fresh_memory
      ≡ ok (some j) m₁)
    × (Create.txd_get_journal bit_heads blank generous formatted fresh_memory ≡ ok (some j) m₂)
    × (m₁.serial ≡ m₂.serial)
    × (m₂.allocated_mem_size ≡ fresh_memory.allocated_mem_size)
get_journal-agrees_example =
    get_journal-agrees bit_heads blank generous (λ src serial bytes. refl) (blank-IsBlank generous)
      blank-NoConditions formatted fresh_memory
