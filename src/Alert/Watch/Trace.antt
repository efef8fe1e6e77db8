-- ===== src/Alert/Watch/Trace.antt =====
-- A watch signal over a sequence of polls: each evaluation starts from the state that the one
-- before it left. Lists of polls have the newest first.
use hop_react.Common.{
  ℕ, zero, suc, ◌+◌, ◌≤◌, ◌≡◌, Bool, true, not, ◌&&◌, List, [], ◌∷◌, Option, some, arith,
}
use hop_react.Clock.{Time, Duration}
use hop_react.Models.{WatchState}
use hop_react.Alert.Watch.{
  Signal, Policy, Prefs, Outcome, Notice, alert, recovered, evaluate, is_blind, is_over,
}

-- What Evaluate is given at one poll, the stored state apart.
pub record Poll : Type 0 where
  pub now : Time
  pub signal : Signal
  pub threshold : Duration
  pub prefs : Prefs

unfoldable pub outcome : Policy → WatchState → Poll → Outcome
outcome pol s p = evaluate p.now p.signal s p.threshold p.prefs pol

unfoldable pub advance : Policy → WatchState → List Poll → WatchState
advance pol s [] = s
advance pol s (p ∷ ps) = (outcome pol (advance pol s ps) p).state

abbrev pub over : Poll → Bool
over p = not (is_blind p.signal) && is_over p.now p.signal p.threshold

abbrev pub fresh : Poll → Bool
fresh p = not (is_blind p.signal) && not (is_over p.now p.signal p.threshold)

abbrev pub is_notice : Notice → Option Notice → ℕ
is_notice alert (some alert) = 1
is_notice recovered (some recovered) = 1
is_notice _ _ = 0

-- How many messages of a kind the polls give rise to.
unfoldable pub messages : Notice → Policy → WatchState → List Poll → ℕ
messages k pol s [] = 0
messages k pol s (p ∷ ps) =
    is_notice k (outcome pol (advance pol s ps) p).kind + messages k pol s ps

-- The newest n polls all pass the test.
abbrev pub Newest : (Poll → Bool) → ℕ → List Poll → Type 0
Newest test zero ps = Unit
Newest test (suc n) [] = ⊥
Newest test (suc n) (p ∷ ps) = (test p ≡ true) × Newest test n ps

pub Newest-mono :
    (test : Poll → Bool) (m n : ℕ) (ps : List Poll) → m ≤ n → Newest test n ps → Newest test m ps
Newest-mono test zero n ps h w = tt
Newest-mono test (suc m) zero ps h w = absurd (omega arith)
Newest-mono test (suc m) (suc n) [] h w = absurd w
Newest-mono test (suc m) (suc n) (p ∷ ps) h w = (w.0, Newest-mono test m n ps (omega arith) w.1)
