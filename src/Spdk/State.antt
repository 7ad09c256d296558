-- ===== src/Spdk/State.antt =====
-- The globals of src/txd_spdk.c. `g_controllers` and `g_namespaces` are chains of blocks from
-- `malloc`: each is the list of its entries with their addresses, and following a pointer to an
-- entry whose block is no longer live is a fault.
use tx_driver.Abi.{Member, scalar, byte_array, sizeof, sizeof_pointer}
use tx_driver.Base.{
  ℕ, Bool, true, false, List, [], ◌∷◌, ◌==◌, ◌&&◌, ◌||◌, if◌then◌else◌, Outcome, ok, exited,
  aborted, fault, blocked, Cmd, ◌≡◌, ap, ◌∙◌,
}
use tx_driver.Malloc.{Memory, Block, libc, same_source}

-- `struct ctrlr_entry`, less its name
pub record CtrlrEntry : Type 0 where
  pub addr : ℕ
  pub ctrlr : ℕ

abbrev pub ctrlr_entry_members : List Member
ctrlr_entry_members = scalar sizeof_pointer ∷ scalar sizeof_pointer ∷ byte_array 1024 ∷ []

abbrev pub sizeof_ctrlr_entry : ℕ
sizeof_ctrlr_entry = sizeof ctrlr_entry_members

-- `ns_entry->qpair`: `register_ns` leaves it as `malloc` handed it over.
pub data Qpair : Type 0 where
  unset null : Qpair
  at : ℕ → Qpair

-- `struct ns_entry`
pub record NsEntry : Type 0 where
  pub addr : ℕ
  pub ctrlr : ℕ
  pub ns : ℕ
  pub qpair : Qpair

abbrev pub ns_entry_members : List Member
ns_entry_members =
    scalar sizeof_pointer
    ∷ scalar sizeof_pointer
    ∷ scalar sizeof_pointer
    ∷ scalar sizeof_pointer
    ∷ []

abbrev pub sizeof_ns_entry : ℕ
sizeof_ns_entry = sizeof ns_entry_members

-- `struct spdk_sequence`, which the transfers hand to their callbacks.
abbrev pub sequence_members : List Member
sequence_members =
    scalar sizeof_pointer ∷ scalar sizeof_pointer ∷ scalar sizeof_pointer ∷ scalar 4 ∷ scalar 4 ∷ []

pub record Driver (Dev : Type 0) : Type 0 where
  pub memory : Memory
  pub device : Dev
  pub g_controllers : List CtrlrEntry
  pub g_namespaces : List NsEntry

-- Whether `malloc`'s block at `p` is live.
unfoldable pub is_live : ℕ → List Block → Bool
is_live p [] = false
is_live p (b ∷ bs) = ((b.addr == p) && same_source b.source libc) || is_live p bs

abbrev pub lift : {Dev A : Type 0} → Driver Dev → Outcome Memory A → Outcome (Driver Dev) A
lift d (ok a m) = ok a (record d { memory = m })
lift d (exited n) = exited n
lift d aborted = aborted
lift d fault = fault
lift d blocked = blocked

-- A command on the memory, in the driver.
unfoldable pub on_memory : {Dev A : Type 0} → Cmd Memory A → Cmd (Driver Dev) A
on_memory c d = lift d (c d.memory)

-- The pointer to an entry is followed.
unfoldable pub follow : {Dev : Type 0} → ℕ → Cmd (Driver Dev) (Unit {0})
follow p d = if is_live p d.memory.live then ok tt d else fault

abbrev pub first_of_list : {Dev : Type 0} → List NsEntry → Cmd (Driver Dev) NsEntry
first_of_list [] d = fault
first_of_list (n ∷ _) d = if is_live n.addr d.memory.live then ok n d else fault

-- `*g_namespaces`
unfoldable pub first_namespace : {Dev : Type 0} → Cmd (Driver Dev) NsEntry
first_namespace d = first_of_list d.g_namespaces d

pub on_memory_ok :
    {Dev A : Type 0} (c : Cmd Memory A) (d : Driver Dev) {a : A} {m : Memory}
    → c d.memory ≡ ok a m
    → on_memory c d ≡ ok a (record d { memory = m })
unfolding on_memory
on_memory_ok c d e = ap (lift d) e

pub first_namespace_live :
    {Dev : Type 0} (d : Driver Dev) (n : NsEntry) (others : List NsEntry)
    → d.g_namespaces ≡ n ∷ others
    → is_live n.addr d.memory.live ≡ true
    → first_namespace d ≡ ok n d
unfolding first_namespace
first_namespace_live d n others e live =
    ap (λ ns. first_of_list ns d) e ∙ ap (λ b. if b then ok n d else fault) live

pub first_namespace_freed :
    {Dev : Type 0} (d : Driver Dev) (n : NsEntry) (others : List NsEntry)
    → d.g_namespaces ≡ n ∷ others
    → is_live n.addr d.memory.live ≡ false
    → first_namespace d ≡ fault
unfolding first_namespace
first_namespace_freed d n others e dead =
    ap (λ ns. first_of_list ns d) e ∙ ap (λ b. if b then ok n d else fault) dead
