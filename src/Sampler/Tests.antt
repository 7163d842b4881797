-- ===== src/Sampler/Tests.antt =====
-- Rounds of the sampling thread, and the theorems applied to them.
use csnd.Prelude.{◌≡◌, refl, inr, true, false, some, [], ◌∷◌, length, get_elem?, ok, err}
use csnd.Sampler.{
  thread_is_busy, thread_is_not_joinable, init, stop, run, join, Round, stopped, terminated,
  sample1,
}
use csnd.Sampler.Rounds.{IsPaced, sample1-IsPaced, sample1_end}

abbrev going : Round
going = record { stop = false; throws = false; took = 17500000; late = 100 }

abbrev last : Round
last = record { stop = true; throws = false; took = 0; late = 0 }

abbrev failing : Round
failing = record { stop = false; throws = true; took = 17000000; late = 0 }

-- A thread is started once, and joined once.
run_twice :
    (run init ≡ ok (record { stop = false; joinable = true }))
    × (run (record { stop = false; joinable = true }) ≡ err thread_is_busy)
    × (join init ≡ err thread_is_not_joinable)
unfolding run init join
run_twice = (refl, refl, refl)

-- A call that takes longer than the interval.
abbrev slow : Round
slow = record { stop = false; throws = false; took = 30000000; late = 70 }

-- The second call overruns, and the thread has caught up after the third.
trace : sample1 true 5 (going ∷ slow ∷ going ∷ going ∷ last ∷ []) ≡ record {
  end = stopped;
  calls = 4;
  starts = 5 ∷ 20000105 ∷ 50000175 ∷ 67500275 ∷ [];
  sleeps = 20000005 ∷ 40000005 ∷ 60000005 ∷ 80000005 ∷ [];
}
unfolding sample1
trace = refl

first_start : get_elem? (sample1 true 5 (going ∷ going ∷ [])).starts 0 ≡ some 5
unfolding sample1
first_start = refl

second_start : get_elem? (sample1 true 5 (going ∷ going ∷ [])).starts 1 ≡ some 20000105
unfolding sample1
second_start = refl

sample1-IsPaced_example : IsPaced 20000005 5 going 20000105
sample1-IsPaced_example =
    sample1-IsPaced 5 (going ∷ going ∷ []) 0 going 5 20000105 refl first_start second_start

end_of_failing :
    let whole = sample1 true 5 (going ∷ failing ∷ going ∷ []) in
    (whole.end ≡ terminated) × (whole.calls ≡ 2) × (length whole.sleeps ≡ 1)
end_of_failing =
    sample1_end 5 (going ∷ []) failing (going ∷ []) ((refl, refl), tt) (inr (refl, refl))

stop_running :
    stop (record { stop = false; joinable = true }) ≡ record { stop = true; joinable = true }
unfolding stop
stop_running = refl
