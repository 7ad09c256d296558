-- ===== src/Spdk/Refine.antt =====
-- On a device that is a store of blocks, `spdk_write` and `spdk_read` of src/txd_spdk.c behave as
-- writes and reads of the bytes that it stores.
use mathlib.Core.Path.{ap₂}
use tx_driver.Base.{
  ℕ, ◌+◌, ◌*◌, ◌≤◌, ◌<◌, ◌≡◌, refl, ◌∙◌, sym, ap, true, List, [], ◌∷◌, ◌++◌, arith, length, take,
  take_all, take-append, replicate, ok, Returns, returns, Returns-bind, Cmd, pure, ◌>>=◌, ◌>>◌, ◌⊎◌,
  Returns-weaken, inl, inr,
}
use tx_driver.Malloc.{Grants, spdk}
use tx_driver.Ondisk.{txd_success}
use tx_driver.Spdk.Blocks.{
  Disc, block_size, patch, slice, Op, write, read, IsSized, AllSized, no_more, one_more, written,
  fetched, observe, after, length-slice, slice-patch_apart, slice-patch_same,
}
use tx_driver.Spdk.Library.{Library, Completes}
use tx_driver.Spdk.Polling.{Usable, served, write-served, read-served, served-Usable}
use tx_driver.Spdk.State.{Driver, NsEntry}
use tx_driver.Spdk.Transfer.{Params, spdk_write, spdk_read}

-- What the code relies on: a command for blocks of the namespace is accepted, and completes before
-- `latency` polls; a write puts its bytes in, and a read delivers what is there and changes nothing.
pub record BlockStore (lib : Library) (latency : ℕ) : Type 0 where
  pub capacity : (ns : ℕ) → ℕ
  pub view : lib.Dev → (ns : ℕ) → Disc
  pub write_accepted :
      (d : lib.Dev) (ns q : ℕ) (bytes : List ℕ) (lba n : ℕ)
      → lba + n ≤ capacity ns
      → (lib.cmd_write d ns q bytes lba n).0 ≡ txd_success
  pub write_served :
      (d : lib.Dev) (ns q : ℕ) (bytes : List ℕ) (lba n : ℕ)
      → lba + n ≤ capacity ns
      → length bytes ≡ block_size * n
      → (k : ℕ) × (e : lib.Dev) × (k < latency)
        × Completes lib q [] e k (lib.cmd_write d ns q bytes lba n).1
        × (view e ns ≡ patch (view d ns) (block_size * lba) bytes)
  pub read_accepted :
      (d : lib.Dev) (ns q lba n : ℕ)
      → lba + n ≤ capacity ns
      → (lib.cmd_read d ns q lba n).0 ≡ txd_success
  pub read_served :
      (d : lib.Dev) (ns q lba n : ℕ)
      → lba + n ≤ capacity ns
      → (k : ℕ) × (e : lib.Dev) × (k < latency)
        × Completes lib q
            (slice (view d ns) (block_size * lba) (block_size * n))
            e
            k
            (lib.cmd_read d ns q lba n).1
        × (view e ns ≡ view d ns)

module _ (lib : Library) (grants : Grants) (patience : ℕ) where
  open lib use {Dev}

  -- The calls in order, with what the reads put into their buffers.
  unfoldable pub transfers : List Op → Cmd (Driver Dev) (List (List ℕ))
  transfers [] = pure []
  transfers (write params ∷ ops) = spdk_write lib grants patience params >> transfers ops
  transfers (read params ∷ ops) = do
    (rc, out) ← spdk_read lib grants patience params
    rest ← transfers ops
    pure (out.buf ∷ rest)

  module _ (store : BlockStore lib patience)
      (granted : (serial bytes : ℕ) → grants spdk serial bytes ≡ true) (n : NsEntry) (q : ℕ) where
    write_lem :
        (params : Params) (d : Driver Dev)
        → Usable lib grants patience d n q
        → IsSized (store.capacity n.ns) params
        → (e : Dev) × (spdk_write lib grants patience params d
            ≡ ok txd_success (served lib grants patience e d))
          × (store.view e n.ns ≡ written (store.view d.device n.ns) params)
    write_lem params d u sized =
        let sent = take params.buf_size params.buf in
        let same : sent ≡ params.buf = take_all params.buf_size params.buf sized.filled in
        let long : length sent ≡ block_size * params.lba_count =
          ap length same ∙ sized.filled ∙ sized.blocks in
        let (k, e, soon, c, kept) =
          store.write_served d.device n.ns q sent params.lba params.lba_count sized.on_disc long in
        let accepted =
          store.write_accepted d.device n.ns q sent params.lba params.lba_count sized.on_disc in
        (
          e,
          write-served lib grants patience d n q k e _ _ params u (granted _ _) refl accepted c
              soon,
          kept ∙ ap (patch (store.view d.device n.ns) (block_size * params.lba)) same,
        )

    read_lem :
        (params : Params) (d : Driver Dev)
        → Usable lib grants patience d n q
        → IsSized (store.capacity n.ns) params
        → (e : Dev) × (spdk_read lib grants patience params d
            ≡ ok
                (txd_success, record params { buf = fetched (store.view d.device n.ns) params })
                (served lib grants patience e d))
          × (store.view e n.ns ≡ store.view d.device n.ns)
    read_lem params d u sized =
        let start = block_size * params.lba in
        let (k, e, soon, c, kept) =
          store.read_served d.device n.ns q params.lba params.lba_count sized.on_disc in
        let accepted =
          store.read_accepted d.device n.ns q params.lba params.lba_count sized.on_disc in
        let whole = slice (store.view d.device n.ns) start (block_size * params.lba_count) in
        let long : length whole ≡ params.buf_size =
          length-slice (store.view d.device n.ns) start (block_size * params.lba_count)
          ∙ sym sized.blocks in
        let back : take params.buf_size (whole ++ replicate params.buf_size 0)
            ≡ fetched (store.view d.device n.ns) params =
          take-append params.buf_size whole (replicate params.buf_size 0) long
          ∙ ap (slice (store.view d.device n.ns) start) (sym sized.blocks) in
        (
          e,
          read-served lib grants patience d n q k e _ _ params _ u (granted _ _) refl accepted c
                soon
              ∙ ap
                  (λ bs.
                    ok (txd_success, record params { buf = bs }) (served lib grants patience e d))
                  back,
          kept,
        )

    -- On a store of blocks that serves every command within the polls, with the DMA requests granted
    -- and a usable namespace, any sequence of transfers that are as long as their blocks returns; the
    -- reads return what the abstract view says, the device ends as it says, and the live blocks, the
    -- counter and the list of namespaces are as before.
    pub transfers_refines :
        (ops : List Op) (d : Driver Dev)
        → Usable lib grants patience d n q
        → AllSized (store.capacity n.ns) ops
        → Returns
            (λ out d'.
              (out ≡ observe (store.view d.device n.ns) ops)
              × (store.view d'.device n.ns ≡ after (store.view d.device n.ns) ops)
              × (d'.memory.live ≡ d.memory.live)
              × (d'.memory.allocated_mem_size ≡ d.memory.allocated_mem_size)
              × (d'.g_namespaces ≡ d.g_namespaces))
            (transfers ops d)
    unfolding transfers
    transfers_refines [] d u sized = returns (refl, refl, refl, refl, refl)
    transfers_refines (write params ∷ ops) d u (one_more first rest) =
        let (e, run, kept) = write_lem params d u first in
        rw run (
          Returns-weaken
            (transfers_refines ops (served lib grants patience e d)
              (served-Usable lib grants patience d n q e u) rest)
            (λ out d' (seen, left, live, counter, namespaces). (
              seen ∙ ap (λ c. observe c ops) kept,
              left ∙ ap (λ c. after c ops) kept,
              live,
              counter,
              namespaces,
            )))
    transfers_refines (read params ∷ ops) d u (one_more first rest) =
        let (e, run, kept) = read_lem params d u first in
        rw run (
          Returns-bind
            (transfers_refines ops (served lib grants patience e d)
              (served-Usable lib grants patience d n q e u) rest)
            (λ out d' (seen, left, live, counter, namespaces). returns (
              ap (λ bs. fetched (store.view d.device n.ns) params ∷ bs)
                  (seen ∙ ap (λ c. observe c ops) kept),
              left ∙ ap (λ c. after c ops) kept,
              live,
              counter,
              namespaces,
            )))

    kept_apart :
        (c : Disc) (params other again : Params) (capacity : ℕ)
        → IsSized capacity params
        → IsSized capacity other
        → IsSized capacity again
        → again.lba ≡ params.lba
        → again.lba_count ≡ params.lba_count
        → (params.lba + params.lba_count ≤ other.lba) ⊎ (other.lba + other.lba_count ≤ params.lba)
        → fetched (written (written c params) other) again ≡ params.buf
    kept_apart c params other again capacity s s' s'' from count apart =
        let start : block_size * again.lba ≡ block_size * params.lba =
          ap (λ b. block_size * b) from in
        let size : again.buf_size ≡ length params.buf =
          s''.blocks ∙ ap (λ b. block_size * b) count ∙ sym s.blocks ∙ sym s.filled in
        let distant : (block_size * again.lba + again.buf_size ≤ block_size * other.lba)
            ⊎ (block_size * other.lba + length other.buf ≤ block_size * again.lba) =
          elim apart [
            | inl below ↦ inl (omega (arith, below, s''.blocks, from, count))
            | inr above ↦ inr (omega (arith, above, s'.filled, s'.blocks, from))
          ] in
        slice-patch_apart (written c params) (block_size * other.lba) other.buf
          (block_size * again.lba) again.buf_size distant
        ∙ ap₂ (slice (written c params)) start size
        ∙ slice-patch_same c (block_size * params.lba) params.buf

    -- In the same setting, what was written to some blocks is read back after another write to blocks
    -- that are apart from them.
    pub transfers-keep :
        (params other again : Params) (d : Driver Dev)
        → Usable lib grants patience d n q
        → IsSized (store.capacity n.ns) params
        → IsSized (store.capacity n.ns) other
        → IsSized (store.capacity n.ns) again
        → again.lba ≡ params.lba
        → again.lba_count ≡ params.lba_count
        → (params.lba + params.lba_count ≤ other.lba) ⊎ (other.lba + other.lba_count ≤ params.lba)
        → Returns
            (λ out d'. out ≡ params.buf ∷ [])
            (transfers (write params ∷ write other ∷ read again ∷ []) d)
    transfers-keep params other again d u s s' s'' from count apart =
        Returns-weaken
          (transfers_refines (write params ∷ write other ∷ read again ∷ []) d u
            (one_more s (one_more s' (one_more s'' no_more))))
          (λ out d' (seen, _, _, _, _).
            seen
            ∙ ap (λ bs. bs ∷ [])
                (kept_apart (store.view d.device n.ns) params other again (store.capacity n.ns) s s'
                  s'' from count apart))
