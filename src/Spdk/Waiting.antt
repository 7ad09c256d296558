-- ===== src/Spdk/Waiting.antt =====
-- The loops of `spdk_write` and `spdk_read` have no timeout: a transfer returns exactly if its
-- command completes.
use tx_driver.Base.{
  ℕ, zero, suc, ◌<◌, ◌≡◌, refl, sym, ap, subst, none, some, List, ◌++◌, ◌⊎◌, inl, inr, arith, ok,
  blocked, take, replicate, Option-cases, true,
}
use tx_driver.Malloc.{Grants, spdk}
use tx_driver.Ondisk.{txd_success}
use tx_driver.Spdk.Library.{Library, Completes, now, later}
use tx_driver.Spdk.Polling.{
  Usable, served, with_dma, dma_granted, first_namespace_lem, submit_accepted, write-served,
  read-served,
}
use tx_driver.Spdk.State.{Driver, NsEntry}
use tx_driver.Spdk.Transfer.{Params, poll, write_from, read_into, spdk_write, spdk_read}

module _ (lib : Library) where
  open lib use {Dev}

  -- The command in flight completes within `fuel` polls.
  pub record Completing (fuel q : ℕ) (dev : Dev) : Type 0 where
    pub k : ℕ
    pub bytes : List ℕ
    pub end : Dev
    pub soon : k < fuel
    pub completes : Completes lib q bytes end k dev

  Completing-now :
      {fuel q : ℕ} {dev : Dev} {bytes : List ℕ}
      → (lib.process_completions dev q).0 ≡ some bytes
      → Completing (suc fuel) q dev
  Completing-now {q} {dev} {bytes} e = record {
    k = 0;
    bytes = bytes;
    end = (lib.process_completions dev q).1;
    soon = omega arith;
    completes = now (λ i. (e i, (lib.process_completions dev q).1));
  }

  Completing-later :
      {fuel q : ℕ} {dev : Dev}
      → (lib.process_completions dev q).0 ≡ none
      → Completing fuel q (lib.process_completions dev q).1
      → Completing (suc fuel) q dev
  Completing-later {q} {dev} e c = record {
    k = suc c.k;
    bytes = c.bytes;
    end = c.end;
    soon = omega (arith, c.soon);
    completes = later (λ i. (e i, (lib.process_completions dev q).1)) c.completes;
  }

  -- A command that has not completed at the first poll completes later, if at all.
  not_yet :
      {fuel q : ℕ} {dev : Dev}
      → (lib.process_completions dev q).0 ≡ none
      → Completing (suc fuel) q dev
      → Completing fuel q (lib.process_completions dev q).1
  not_yet {fuel} {q} {dev} e c = go c.k c.soon c.completes
    where
      go :
          (k : ℕ) {bytes : List ℕ} {end : Dev}
          → k < suc fuel
          → Completes lib q bytes end k dev
          → Completing fuel q (lib.process_completions dev q).1
      go zero soon (now done) = absurd (cc (e, ap (λ r. r.0) done))
      go (suc k) {bytes} {end} soon (later waiting c') = record {
        k = k;
        bytes = bytes;
        end = end;
        soon = omega arith;
        completes = subst (Completes lib q bytes end k) (sym (ap (λ r. r.1) waiting)) c';
      }

module _ (lib : Library) (grants : Grants) (patience : ℕ) where
  open lib use {Dev}

  -- The loop either sees the completion, or never ends.
  poll-cases :
      (fuel q : ℕ) (d : Driver Dev)
      → Completing lib fuel q d.device
        ⊎ ((poll lib grants patience fuel q d ≡ blocked) × ¬ Completing lib fuel q d.device)
  unfolding poll
  poll-cases zero q d = inr (refl, λ c. omega (arith, c.soon))
  poll-cases (suc fuel) q d = elim (Option-cases (lib.process_completions d.device q).0) [
    | inr (bytes, done) ↦ inl (Completing-now lib done)
    | inl waiting ↦
        elim (poll-cases fuel q (record d { device = (lib.process_completions d.device q).1 })) [
          | inl c ↦ inl (Completing-later lib waiting c)
          | inr (endless, never) ↦ inr (rw waiting endless, λ c. never (not_yet lib waiting c))
        ]
  ]

  module _ (d : Driver Dev) (n : NsEntry) (q : ℕ) (params : Params) (dev : Dev)
      (u : Usable lib grants patience d n q)
      (granted : grants spdk d.memory.serial params.buf_size ≡ true) where
    -- The driver once the command is in flight.
    abbrev in_flight : Driver Dev
    in_flight = record (with_dma lib grants patience params.buf_size d) { device = dev }

    write_endless :
        lib.cmd_write d.device n.ns q (take params.buf_size params.buf) params.lba params.lba_count
          ≡ (txd_success, dev)
        → poll lib grants patience patience q in_flight ≡ blocked
        → spdk_write lib grants patience params d ≡ blocked
    unfolding spdk_write write_from
    write_endless sent endless = rw (dma_granted lib grants patience params.buf_size d granted) (
        rw (first_namespace_lem lib grants patience params.buf_size d n q u) (
          rw (u.qpair, sent)
            (rw
              (submit_accepted lib grants patience txd_success dev
                (with_dma lib grants patience params.buf_size d) refl)
              (rw endless refl))))

    read_endless :
        lib.cmd_read d.device n.ns q params.lba params.lba_count ≡ (txd_success, dev)
        → poll lib grants patience patience q in_flight ≡ blocked
        → spdk_read lib grants patience params d ≡ blocked
    unfolding spdk_read read_into
    read_endless sent endless = rw (dma_granted lib grants patience params.buf_size d granted) (
        rw (first_namespace_lem lib grants patience params.buf_size d n q u) (
          rw (u.qpair, sent)
            (rw
              (submit_accepted lib grants patience txd_success dev
                (with_dma lib grants patience params.buf_size d) refl)
              (rw endless refl))))

    -- With a usable namespace, its DMA buffer granted and its command accepted, `spdk_write` returns
    -- success and gives back the buffer if the command completes within the polls, and otherwise
    -- never returns.
    pub spdk_write-waits :
        lib.cmd_write d.device n.ns q (take params.buf_size params.buf) params.lba params.lba_count
          ≡ (txd_success, dev)
        → ((c : Completing lib patience q dev) × (spdk_write lib grants patience params d
              ≡ ok txd_success (served lib grants patience c.end d)))
          ⊎ ((spdk_write lib grants patience params d ≡ blocked) × ¬ Completing lib patience q dev)
    spdk_write-waits sent = elim (poll-cases patience q in_flight) [
      | inl c ↦ inl (
        c,
        write-served lib grants patience d n q c.k c.end dev txd_success params u granted sent refl
            c.completes c.soon,
      )
      | inr (endless, never) ↦ inr (write_endless sent endless, never)
    ]

    -- With a usable namespace, its DMA buffer granted and its command accepted, `spdk_read` returns
    -- success, with what the command delivered cut to the buffer, and gives back the DMA buffer if the
    -- command completes within the polls, and otherwise never returns.
    pub spdk_read-waits :
        lib.cmd_read d.device n.ns q params.lba params.lba_count ≡ (txd_success, dev)
        → ((c : Completing lib patience q dev) × (spdk_read lib grants patience params d
              ≡ ok
                  (
                    txd_success,
                    record params {
                      buf = take params.buf_size (c.bytes ++ replicate params.buf_size 0);
                    },
                  )
                  (served lib grants patience c.end d)))
          ⊎ ((spdk_read lib grants patience params d ≡ blocked) × ¬ Completing lib patience q dev)
    spdk_read-waits sent = elim (poll-cases patience q in_flight) [
      | inl c ↦ inl (
        c,
        read-served lib grants patience d n q c.k c.end dev txd_success params c.bytes u granted
            sent refl c.completes c.soon,
      )
      | inr (endless, never) ↦ inr (read_endless sent endless, never)
    ]

  -- With a usable namespace, its DMA buffer granted and its command accepted, each of `spdk_write` and
  -- `spdk_read` returns success if the command completes within the polls, and otherwise never returns.
  -- Where it returns, the DMA buffer has been given back, and a read has delivered what the command did,
  -- cut to the buffer.
  pub transfers_wait :
      (d : Driver Dev) (n : NsEntry) (q : ℕ) (params : Params) (dev dev' : Dev)
      → Usable lib grants patience d n q
      → grants spdk d.memory.serial params.buf_size ≡ true
      → lib.cmd_write d.device n.ns q (take params.buf_size params.buf) params.lba params.lba_count
        ≡ (txd_success, dev)
      → lib.cmd_read d.device n.ns q params.lba params.lba_count ≡ (txd_success, dev')
      → (((c : Completing lib patience q dev) × (spdk_write lib grants patience params d
              ≡ ok txd_success (served lib grants patience c.end d)))
          ⊎ ((spdk_write lib grants patience params d ≡ blocked) × ¬ Completing lib patience q dev))
        × (((c : Completing lib patience q dev') × (spdk_read lib grants patience params d
                ≡ ok
                    (
                      txd_success,
                      record params {
                        buf = take params.buf_size (c.bytes ++ replicate params.buf_size 0);
                      },
                    )
                    (served lib grants patience c.end d)))
            ⊎ ((spdk_read lib grants patience params d ≡ blocked)
                × ¬ Completing lib patience q dev'))
  transfers_wait d n q params dev dev' u granted sent asked = (
    spdk_write-waits d n q params dev u granted sent,
    spdk_read-waits d n q params dev' u granted asked,
  )
