-- ===== src/Journal/Flags.antt =====
-- `txd_journal_load`: when it returns 0, and what it does to the flags.
use Prim.Native.Nat.{bit_and}
use tx_driver.Base.{
  ℕ, ◌+◌, ◌-◌, ◌<◌, ◌≤◌, ◌≡◌, ◌≢◌, refl, true, false, Bool, arith, ok, blocked, Returns, returns,
  Returns-bind, ◌==◌, ◌&&◌, if◌then◌else◌, all_below, all_below-at, Bool-cases, ap, inr, sym, inl,
  subst, ◌∙◌, dec_lt, ℕ_discrete, Returns-value,
}
use tx_driver.Journal.Defs.{Journal, txd_abort, txd_flushed, txd_loaded, txd_min_journal_blocks}
use tx_driver.Journal.Geometry.{
  IsAttached, EmptyLog, reset_too_short, reset-EmptyLog, reset_thread_refused, reset_thread_missing,
}
use tx_driver.Journal.Load.{
  set_flag, clear_flag, mark_loaded, load_recovered, txd_journal_load, txd_journal_recover,
  load_clean,
}
use tx_driver.Ondisk.{Superblock, txd_success, txd_fail}

-- The flags of include/txdriver.h are the bits below 0x100.
abbrev pub flag_limit : ℕ
flag_limit = 0x100

-- The bits of `mask` that are set.
abbrev pub has_flag : ℕ → ℕ → Bool
has_flag flags mask = bit_and flags mask == mask

abbrev without : ℕ → ℕ → ℕ
without flags mask = bit_and flags (flag_limit - 1 - mask)

-- The flags after a reset, by whether the superblock has an empty log, and then after a load.
abbrev pub after_reset : Bool → ℕ → ℕ
after_reset recovered flags = if recovered then set_flag flags txd_flushed else flags

abbrev pub after_load : Bool → ℕ → ℕ
after_load recovered flags =
    set_flag (clear_flag (after_reset recovered flags) txd_abort) txd_loaded

abbrev loads_right : Bool → ℕ → Bool
loads_right recovered flags =
    let f = after_load recovered flags in
    (bit_and f txd_abort == 0)
    && (has_flag f txd_loaded
        && ((without f (txd_abort + txd_loaded)
              == without (after_reset recovered flags) (txd_abort + txd_loaded))
            && (if recovered then has_flag f txd_flushed else true)))

loads_table : (recovered : Bool) → all_below flag_limit (loads_right recovered) ≡ true
unfolding all_below
loads_table true = refl
loads_table false = refl

-- A loaded journal: the abort mark is gone, the journal is marked as loaded, a log that was empty on
-- disk is marked as flushed, and no other flag has changed.
pub record Marked (recovered : Bool) (before after : ℕ) : Type 0 where
  pub not_aborted : bit_and after txd_abort ≡ 0
  pub loaded : has_flag after txd_loaded ≡ true
  pub flushed : (if recovered then has_flag after txd_flushed else true) ≡ true
  pub others :
      without after (txd_abort + txd_loaded)
      ≡ without (after_reset recovered before) (txd_abort + txd_loaded)

after_load-Marked :
    (recovered : Bool) (flags : ℕ)
    → flags < flag_limit
    → Marked recovered flags (after_load recovered flags)
after_load-Marked recovered flags h =
    let right : loads_right recovered flags ≡ true =
      all_below-at flag_limit (loads_right recovered) flags (loads_table recovered) h in
    record {
      not_aborted = ground (arith, right);
      loaded = ground (arith, right);
      flushed = ground (arith, right);
      others = ground (arith, right);
    }

module _ (Head : Type 0) (sb : Superblock) (j : Journal Head) (a : IsAttached Head sb j) where
  load_unfold :
      (spawn : ℕ)
      → txd_journal_load Head spawn j
        ≡ (if j.j_failed_commit == 0 then load_clean Head spawn j else ok txd_fail j)
  unfolding txd_journal_load txd_journal_recover load_recovered
  load_unfold spawn = refl

  -- A journal that has been loaded.
  pub record Loaded (j' : Journal Head) : Type 0 where
    pub marked : Marked (sb.s_start == 0) j.j_flags j'.j_flags
    pub head : j'.j_head ≡ sb.s_first
    pub free : j'.j_head + j'.j_free ≡ sb.s_maxlen

  load_clean-Loaded :
      j.j_flags < flag_limit
      → sb.s_first + txd_min_journal_blocks ≤ sb.s_maxlen + 1
      → Returns (λ err j'. (err ≡ txd_success) × Loaded j') (load_clean Head 0 j)
  unfolding load_clean mark_loaded
  load_clean-Loaded small long =
      Returns-bind (reset-EmptyLog Head sb j a long) λ err j' (done, log). rw done (
        returns (
          refl,
          record {
            marked =
                subst
                  (λ f.
                    Marked (sb.s_start == 0) j.j_flags
                      (set_flag (clear_flag f txd_abort) txd_loaded))
                  (sym log.flags) (after_load-Marked (sb.s_start == 0) j.j_flags small);
            head = log.head;
            free = log.free ∙ log.last;
          },
        ))

  load_clean_too_short :
      (spawn : ℕ)
      → sb.s_maxlen + 1 < sb.s_first + txd_min_journal_blocks
      → load_clean Head spawn j ≡ ok txd_fail j
  unfolding load_clean
  load_clean_too_short spawn short = rw (reset_too_short Head sb j spawn a short)

  load_clean_refused :
      sb.s_first + txd_min_journal_blocks ≤ sb.s_maxlen + 1
      → Returns (λ err j'. (err ≡ txd_fail) × EmptyLog Head sb j j') (load_clean Head 1 j)
  unfolding load_clean
  load_clean_refused long =
      Returns-bind (reset_thread_refused Head sb j a long)
        λ err j' (failed, log). rw failed (returns (refl, log))

  load_clean_missing :
      (spawn : ℕ)
      → spawn ≢ 0
      → spawn ≢ 1
      → sb.s_first + txd_min_journal_blocks ≤ sb.s_maxlen + 1
      → load_clean Head spawn j ≡ blocked
  unfolding load_clean
  load_clean_missing spawn h k long = rw (reset_thread_missing Head sb j a long spawn h k)

  -- With no failed commit, a log of at least 1023 blocks and a thread that starts,
  -- `txd_journal_load` returns 0: the log is empty, and the flags say that the journal is loaded.
  pub load-Loaded :
      j.j_flags < flag_limit
      → j.j_failed_commit ≡ 0
      → sb.s_first + txd_min_journal_blocks ≤ sb.s_maxlen + 1
      → Returns (λ err j'. (err ≡ txd_success) × Loaded j') (txd_journal_load Head 0 j)
  load-Loaded small clean long =
      subst (Returns (λ err j'. (err ≡ txd_success) × Loaded j')) (sym (load_unfold 0 ∙ branch))
        (load_clean-Loaded small long)
    where
      branch :
          (if j.j_failed_commit == 0 then load_clean Head 0 j else ok txd_fail j)
          ≡ load_clean Head 0 j
      branch = ap (λ n. if n == 0 then load_clean Head 0 j else ok txd_fail j) clean

  load_clean_only :
      (spawn : ℕ) {j' : Journal Head}
      → load_clean Head spawn j ≡ ok txd_success j'
      → (sb.s_first + txd_min_journal_blocks ≤ sb.s_maxlen + 1) × (spawn ≡ 0)
  load_clean_only spawn {j'} e =
      elim (dec_lt (sb.s_maxlen + 1) (sb.s_first + txd_min_journal_blocks)) [
        | yes short ↦ cc (load_clean_too_short spawn short)
        | no long ↦
            let fits : sb.s_first + txd_min_journal_blocks ≤ sb.s_maxlen + 1 = omega arith in
            elim (ℕ_discrete spawn 0) [
              | yes started ↦ (fits, started)
              | no other ↦ elim (ℕ_discrete spawn 1) [
                | yes refused ↦
                    let (wrong, _) = Returns-value (load_clean_refused fits) (rw refused at e) in
                    absurd (omega (arith, wrong))
                | no missing ↦ cc (load_clean_missing spawn other missing fits)
              ]
            ]
      ]

  -- Nothing else makes it return 0: a load that does had no failed commit, a log of at least 1023
  -- blocks and a thread that started.
  pub load_success_only :
      (spawn : ℕ) {j' : Journal Head}
      → txd_journal_load Head spawn j ≡ ok txd_success j'
      → (j.j_failed_commit ≡ 0)
        × (sb.s_first + txd_min_journal_blocks ≤ sb.s_maxlen + 1)
        × (spawn ≡ 0)
  load_success_only spawn {j'} e = elim (Bool-cases (j.j_failed_commit == 0)) [
    | inr failed ↦ cc (rw failed at (sym (load_unfold spawn)))
    | inl clean ↦
        let run : load_clean Head spawn j ≡ ok txd_success j' =
          sym (rw clean at (load_unfold spawn)) ∙ e in
        let (long, started) = load_clean_only spawn run in (ground arith, long, started)
  ]
