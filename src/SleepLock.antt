-- ===== src/SleepLock.antt =====
-- sleeplock.c: long-term locks, for the process with the given pid. `lk` is the spin lock inside.
use kernel_tracing.Prelude.{ℕ, Bool, true, false, if◌then◌else◌, Outcome, ok, ◌>>=◌}
use kernel_tracing.Spin.{acquire, release}

pub record SleepLock : Type 0 where
  pub lk : Bool
  pub locked : Bool
  pub pid : ℕ

unfoldable pub initsleeplock : SleepLock
initsleeplock = record { lk = false; locked = false; pid = 0 }

-- One round of acquiresleep: true with the lock taken, false where the process sleeps on the lock
-- (which lets go of `lk`) and tries again when it is woken.
unfoldable pub acquiresleep : (pid : ℕ) → SleepLock → Outcome (Bool × SleepLock)
acquiresleep pid l = do
  held ← acquire l.lk
  free ← release held
  ok (
      if l.locked
      then (false, record l { lk = free })
      else (true, record l { locked = true; pid = pid; lk = free }))

-- releasesleep also wakes those who sleep on the lock.
unfoldable pub releasesleep : SleepLock → Outcome SleepLock
releasesleep l = do
  held ← acquire l.lk
  free ← release held
  ok (record l { locked = false; pid = 0; lk = free })

unfoldable pub holdingsleep : SleepLock → Outcome (Bool × SleepLock)
holdingsleep l = do
  held ← acquire l.lk
  let r = l.locked
  free ← release held
  ok (r, record l { lk = free })
