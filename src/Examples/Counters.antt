-- ===== src/Examples/Counters.antt =====
-- src/txd_atomic.c and include/ondisk.h on concrete values.
use mathlib.Core.List.{Permᴰ}
use tx_driver.Base.{u32, ◌+◌, ◌≡◌, refl, List, [], ◌∷◌, ◌++◌, true, false, arith, replicate}
use tx_driver.Atomic.Schedules.{
  all_calls, Schedules, next, finished, in_turn, final, work, schedule-serial,
}
use tx_driver.Atomic.Counting.{total, add, inc, dec, Call, run, release, release-last}
use tx_driver.Examples.{formatted}
use tx_driver.Ondisk.Layout.{Fits}

release-last_example : release 3 3 ≡ (replicate 2 false ++ true ∷ [], 0)
release-last_example = release-last 2 (omega arith)

formatted-Fits : Fits formatted
formatted-Fits = record {
  signature = omega arith;
  blocktype = omega arith;
  t_id = omega arith;
  blocksize = omega arith;
  maxlen = omega arith;
  first = omega arith;
  sequence = omega arith;
  start = omega arith;
  errno = omega arith;
  padding = refl;
}

-- Two threads: one counts up and adds five, the other counts down.
abbrev two_threads : List (List Call)
two_threads = (inc ∷ add 5 ∷ []) ∷ (dec ∷ []) ∷ []

abbrev other_way_round : List (List Call)
other_way_round = (dec ∷ []) ∷ (inc ∷ add 5 ∷ []) ∷ []

-- The second thread gets in between the calls of the first.
in_between : Schedules two_threads (inc ∷ dec ∷ add 5 ∷ [])
in_between =
    next [] ((dec ∷ []) ∷ []) inc (add 5 ∷ []) refl
      (next ((add 5 ∷ []) ∷ []) [] dec [] refl (next [] ([] ∷ []) (add 5) [] refl (finished refl)))

schedule-serial_example :
    (run (inc ∷ dec ∷ add 5 ∷ []) 7 ≡ u32 (7 + total (all_calls two_threads)))
    × (run (inc ∷ dec ∷ add 5 ∷ []) 7 ≡ in_turn other_way_round 7)
    × (run (inc ∷ dec ∷ add 5 ∷ []) 7 ≡ final 7 (omega arith) (work two_threads))
schedule-serial_example =
    schedule-serial two_threads other_way_round (inc ∷ dec ∷ add 5 ∷ []) 7 (omega arith) in_between
      (Permᴰ.swap refl refl)
