-- ===== src/Versions/Tests.antt =====
-- Runs of source/session/SessionVersions.cpp, and the theorems at concrete histories.
use idtx_core.Base.{◌≡◌, refl, List, [], ◌∷◌, Str, Str-discrete, ℕ_discrete, codes, arith}
use idtx_core.Versions.{
  current, stale, invalid_base, check_update, record_change, record_sent, record_correction,
}
use idtx_core.Versions.History.{
  Event, changed, sent, corrected, apply, replay, required_status, change_seq,
}
use idtx_core.Versions.Refinement.{check_update-replay}

abbrev box : Str
box = codes "/Box"

-- Connection 1 drags the box, connection 2 moves it in between; both have seen everything.
abbrev drag : List Event
drag = sent 1 3 ∷ sent 2 3 ∷ changed box 3 1 ∷ changed box 2 2 ∷ changed box 1 1 ∷ []

-- Connection 1 moves the box twice more.
abbrev own_moves : List Event
own_moves = changed box 6 1 ∷ changed box 5 1 ∷ []

current_at_two : check_update (replay drag) 1 box 2 ≡ current
unfolding check_update replay apply record_change record_sent Str-discrete ℕ_discrete
current_at_two = refl

stale_for_the_other : check_update (replay drag) 2 box 2 ≡ stale
unfolding check_update replay apply record_change record_sent Str-discrete ℕ_discrete
stale_for_the_other = refl

never_sent : check_update (replay drag) 2 box 4 ≡ invalid_base
unfolding check_update replay apply record_change record_sent Str-discrete ℕ_discrete
never_sent = refl

after_correction : check_update (replay (corrected 1 box 4 ∷ drag)) 1 box 3 ≡ stale
unfolding check_update replay apply record_change record_sent record_correction Str-discrete
    ℕ_discrete
after_correction = refl

check_update-replay_example : check_update (replay drag) 2 box 2 ≡ required_status drag 2 box 2
unfolding change_seq Str-discrete ℕ_discrete
check_update-replay_example = check_update-replay drag 2 box 2 (omega arith) (omega arith)
