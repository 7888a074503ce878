-- ===== src/Clock.antt =====
-- include/rpp_cpp/clock.hpp and src/clock.cpp: the clocks and their factory. Seconds are doubles, by
-- their bit patterns, and their arithmetic is a parameter, as is the system's clock.
pub mod Elapsed
use rpp_cpp.Base.{ℕ, List, [], ◌∷◌}
use rpp_cpp.Base.Result.{Result, ok, err, invalid_argument}

pub record Seconds : Type 0 where
  pub add : ℕ → ℕ → ℕ
  -- static_cast<uint64_t>(t * 1e9)
  pub nanoseconds : ℕ → ℕ

-- The enumerators, and a value that is none of them.
pub data ClockType : Type 0 where
  realtime mock : ClockType
  invalid : ℕ → ClockType

pub record ClockOptions : Type 0 where
  pub type : ClockType
  pub initial_time : ℕ

pub record RppClockMock : Type 0 where
  pub current_time : ℕ

pub data RppClock : Type 0 where
  real_time : RppClock
  mocked : RppClockMock → RppClock

-- ClockFactory::create_clock
unfoldable pub create_clock : ClockOptions → Result RppClock
create_clock options = elim options.type [
  | realtime ↦ ok real_time
  | mock ↦ ok (mocked (record { current_time = options.initial_time }))
  | invalid n ↦ err (invalid_argument "Invalid clock type specified.")
]

unfoldable pub set_time : ℕ → RppClockMock → RppClockMock
set_time new_time c = record { current_time = new_time }

module _ (s : Seconds) where
  unfoldable pub elapse : ℕ → RppClockMock → RppClockMock × ℕ
  elapse dt c = (record { current_time = s.add c.current_time dt }, s.add c.current_time dt)

  -- What the system's clock reads is given: the seconds and the nanoseconds.
  unfoldable pub now_seconds : ℕ → RppClock → ℕ
  now_seconds system real_time = system
  now_seconds system (mocked c) = c.current_time

  unfoldable pub now_nanoseconds : ℕ → RppClock → ℕ
  now_nanoseconds system real_time = system
  now_nanoseconds system (mocked c) = s.nanoseconds c.current_time
