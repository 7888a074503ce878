-- ===== src/Clock/Elapsed.antt =====
-- What a mock clock reads after a sequence of calls.
use rpp_cpp.Base.{ℕ, ◌≡◌, refl, List, [], ◌∷◌, ◌++◌}
use rpp_cpp.Clock.{Seconds, RppClockMock, mocked, set_time, elapse, now_seconds}

pub data Call : Type 0 where
  sets : ℕ → Call
  elapses : ℕ → Call

abbrev pub total : Seconds → ℕ → List ℕ → ℕ
total s t [] = t
total s t (dt ∷ dts) = total s (s.add t dt) dts

module _ (s : Seconds) where
  abbrev pub after : List Call → RppClockMock → RppClockMock
  after [] c = c
  after (sets t ∷ calls) c = after calls (set_time t c)
  after (elapses dt ∷ calls) c = after calls (elapse s dt c).0

  abbrev elapsing : List ℕ → List Call
  elapsing [] = []
  elapsing (dt ∷ dts) = elapses dt ∷ elapsing dts

  after-elapsing :
      (dts : List ℕ) (c : RppClockMock)
      → now_seconds s 0 (mocked (after (elapsing dts) c)) ≡ total s c.current_time dts
  unfolding elapse now_seconds
  after-elapsing [] c = refl
  after-elapsing (dt ∷ dts) c =
      after-elapsing dts (record { current_time = s.add c.current_time dt })

  -- A mock clock reads the time that it was last set to and the steps since then, added one by one in
  -- their order, whatever was done with it before.
  pub now_seconds-after :
      (before : List Call) (t : ℕ) (dts : List ℕ) (c : RppClockMock)
      → now_seconds s 0 (mocked (after (before ++ sets t ∷ elapsing dts) c)) ≡ total s t dts
  unfolding set_time elapse
  now_seconds-after [] t dts c = after-elapsing dts (record { current_time = t })
  now_seconds-after (sets u ∷ before) t dts c =
      now_seconds-after before t dts (record { current_time = u })
  now_seconds-after (elapses dt ∷ before) t dts c =
      now_seconds-after before t dts (record { current_time = s.add c.current_time dt })
