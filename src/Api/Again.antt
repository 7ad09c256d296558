-- ===== src/Api/Again.antt =====
-- `tx_begin` of src/txd_api.c, called any number of times on one device.
use tx_driver.Api.{new_superblock, tx_begin}
use tx_driver.Api.Begin.{IsGenerous, Opened, Grown, tx_begin-Grown, after_begin_read, buffer-Usable}
use tx_driver.Base.{
  ℕ, zero, suc, ◌+◌, ◌*◌, ◌^◌, ◌≤◌, ◌<◌, ◌≡◌, refl, ◌∙◌, sym, ap, true, Option, some, List, [], ◌∷◌,
  ◌++◌, length, arith, Returns, returns, Returns-bind, Cmd, pure, ◌>>=◌, subst, length-append,
}
use tx_driver.Journal.Defs.{Journal}
use tx_driver.Malloc.{Grants, Block}
use tx_driver.Ondisk.{Superblock, sizeof_superblock}
use tx_driver.Ondisk.Layout.{from_bytes}
use tx_driver.Revoke.{ListHeads}
use tx_driver.Spdk.Library.{Library}
use tx_driver.Spdk.Polling.{Disk, Usable}
use tx_driver.Spdk.State.{Driver, NsEntry, is_live}

-- Reading changes nothing that is stored.
pub record ReadsKeep (lib : Library) (latency : ℕ) (disk : Disk lib latency) : Type 0 where
  pub kept :
      (d : lib.Dev) (ns q lba n ns' lba' : ℕ)
      → disk.stored (disk.read_served d ns q lba n).1 ns' lba' ≡ disk.stored d ns' lba'

is_live-append :
    (p : ℕ) (added bs : List Block) → is_live p bs ≡ true → is_live p (added ++ bs) ≡ true
unfolding is_live
is_live-append p [] bs h = h
is_live-append p (b ∷ added) bs h = ground (arith, is_live-append p added bs h)

module _ (lib : Library) (grants : Grants) (patience : ℕ) (lists : ListHeads)
    (garbage : Journal lists.Head) where
  open lib use {Dev}
  open lists use {Head}

  -- The calls in order, with what they return.
  unfoldable pub begins :
      (times txd_addr txd_size : ℕ) → Cmd (Driver Dev) (List (Option (Journal Head)))
  begins zero txd_addr txd_size = pure []
  begins (suc times) txd_addr txd_size = do
    o ← tx_begin lib grants patience lists garbage 0 txd_addr txd_size
    rest ← begins times txd_addr txd_size
    pure (o ∷ rest)

  -- Each is a journal that is loaded from the superblock.
  pub data AllOpened (sb : Superblock) : List (Option (Journal Head)) → Type 0 where
    no_more : AllOpened sb []
    one_more :
        {j : Journal Head} {os : List (Option (Journal Head))}
        → Opened lib grants patience lists garbage sb j
        → AllOpened sb os
        → AllOpened sb (some j ∷ os)

  module _ (generous : IsGenerous lib grants patience lists garbage)
      (clean : garbage.j_failed_commit ≡ 0) (sequence : garbage.j_transaction_sequence < 2 ^ 32)
      (disk : Disk lib patience) (keeps : ReadsKeep lib patience disk) (n : NsEntry)
      (q txd_addr txd_size : ℕ) (bytes tail : List ℕ) where
    abbrev read_from : Driver Dev → Driver Dev
    read_from d =
        after_begin_read lib grants patience lists garbage generous clean sequence disk n q txd_addr
          d

    -- What holds before and after each call.
    record Ready (d : Driver Dev) : Type 0 where
      usable : Usable lib grants patience d n q
      stored : disk.stored d.device n.ns txd_addr ≡ bytes ++ tail

    Grown-Ready :
        (d d' : Driver Dev)
        → Ready d
        → Grown lib grants patience lists garbage 7 (read_from d) d'
        → Ready d' × (length d'.memory.live ≡ 8 + length d.memory.live)
    Grown-Ready d d' r g =
        let u = buffer-Usable lib grants patience lists garbage d n q r.usable in
        let read : Driver Dev = read_from d in
        let live : is_live n.addr (g.added ++ read.memory.live) ≡ true =
          is_live-append n.addr g.added read.memory.live u.live in
        let usable : Usable lib grants patience d' n q = record {
          others = u.others;
          chosen = g.namespaces ∙ u.chosen;
          live = ap (is_live n.addr) g.live ∙ live;
          qpair = u.qpair;
        } in
        let stored : disk.stored d'.device n.ns txd_addr ≡ bytes ++ tail =
          ap (λ e. disk.stored e n.ns txd_addr) g.device
          ∙ keeps.kept d.device n.ns q txd_addr 1 n.ns txd_addr
          ∙ r.stored in
        let long : length d'.memory.live ≡ 8 + length d.memory.live =
          omega (arith, ap length g.live, length-append g.added read.memory.live, g.number) in
        (record { usable = usable; stored = stored }, long)

    -- Where the device holds the superblock for a size of 1024 or more in 32 bits, serves every command
    -- within the polls and does not change what is stored by reading, with a usable namespace and every
    -- request granted, any number of calls of `tx_begin` return; each returns a journal that is loaded
    -- from that superblock, and eight blocks that are not given back; what the device holds is as
    -- before. The thread starts, and the memory behind the 8 bytes of the journal holds no failed commit
    -- and a 32-bit sequence number.
    pub begins-AllOpened :
        (times : ℕ) (d : Driver Dev)
        → Usable lib grants patience d n q
        → disk.stored d.device n.ns txd_addr ≡ bytes ++ tail
        → length bytes ≡ sizeof_superblock
        → from_bytes bytes ≡ new_superblock txd_size
        → 1024 ≤ txd_size
        → txd_size < 2 ^ 32
        → Returns
            (λ os d'.
              (length os ≡ times)
              × AllOpened (new_superblock txd_size) os
              × (length d'.memory.live ≡ 8 * times + length d.memory.live)
              × (disk.stored d'.device n.ns txd_addr ≡ bytes ++ tail))
            (begins times txd_addr txd_size d)
    unfolding begins
    begins-AllOpened zero d u kept len back long fits = returns (refl, no_more, omega arith, kept)
    begins-AllOpened (suc times) d u kept len back long fits =
        Returns-bind
          (tx_begin-Grown lib grants patience lists garbage generous clean sequence disk d n q
            txd_addr txd_size bytes tail u kept len back long fits)
          (λ o d' (j, handed, opened, g).
            let (r, more) = Grown-Ready d d' (record { usable = u; stored = kept }) g in
            Returns-bind (begins-AllOpened times d' r.usable r.stored len back long fits)
              (λ os d'' (count, all, blocks, still). returns (
                ap suc count,
                subst (λ o'. AllOpened (new_superblock txd_size) (o' ∷ os)) (sym handed)
                    (one_more opened all),
                omega (arith, blocks, more),
                still,
              )))
