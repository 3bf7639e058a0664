-- ===== src/Stats/Times.antt =====
-- The times of utimensat(2), as its manual page has them, and the choice of them in cbfuse/stats.c.
use cbfuse.Prelude.{
  ℤ, pos, negsuc, ◌≡◌, ◌≢◌, refl, ap, true, false, Bool, Option, none, some, is_negsuc, ne→==, ◌||◌,
}
use cbfuse.Platform.{Stat, Timespec, IsReading, Platform}
use cbfuse.Stats.{with_times, chosen_time, is_utime_now, needs_now}

-- The number that asks for the present time, and the one that asks for no change.
abbrev pub utime_now : ℤ
utime_now = negsuc 0

abbrev pub utime_omit : ℤ
utime_omit = negsuc 1

now_test : (n : ℤ) → n ≡ utime_now → is_negsuc 0 n ≡ true
now_test n e = rw e refl

omit_test : (n : ℤ) → n ≡ utime_omit → (is_negsuc 0 n ≡ false) × (is_negsuc 1 n ≡ true)
omit_test n e = rw e (refl, refl)

not_now : (n : ℤ) → n ≢ utime_now → is_negsuc 0 n ≡ false
not_now (pos n) h = refl
not_now (negsuc n) h = ne→== n 0 (λ e. h (ap negsuc e))

not_omit : (n : ℤ) → n ≢ utime_omit → is_negsuc 1 n ≡ false
not_omit (pos n) h = refl
not_omit (negsuc n) h = ne→== n 1 (λ e. h (ap negsuc e))

or_true : (b : Bool) → (b || true) ≡ true
or_true true = refl
or_true false = refl

module _ (P : Platform) where
  -- What utimensat(2) says of one time, by the time that is given and the one that was there.
  abbrev pub IsTime : Timespec → Timespec → Timespec → Type 0
  IsTime given old new =
      (given.nsec ≡ utime_now → IsReading P new)
      × (given.nsec ≡ utime_omit → new ≡ old)
      × (given.nsec ≢ utime_now → given.nsec ≢ utime_omit → new ≡ given)

  -- What it says of both.
  abbrev pub AreTimes : Option (Timespec × Timespec) → Stat → Timespec → Timespec → Type 0
  AreTimes none x access modified = IsReading P access × (modified ≡ access)
  AreTimes (some (a, b)) x access modified = IsTime a x.atime access × IsTime b x.mtime modified

  chosen_time-IsTime :
      (tv ts old : Timespec)
      → (tv.nsec ≡ utime_now → IsReading P ts)
      → IsTime tv old (chosen_time tv ts old)
  chosen_time-IsTime tv ts old clock = (
    λ e. rw (now_test tv.nsec e) (clock e),
    λ e. rw ((omit_test tv.nsec e).0, (omit_test tv.nsec e).1) refl,
    λ a b. rw (not_now tv.nsec a, not_omit tv.nsec b) refl,
  )

  pub with_times-AreTimes :
      (tv : Option (Timespec × Timespec)) (ts : Timespec) (x : Stat)
      → (needs_now tv ≡ true → IsReading P ts)
      → AreTimes tv x (with_times tv ts x).atime (with_times tv ts x).mtime
  with_times-AreTimes none ts x clock = (clock refl, refl)
  with_times-AreTimes (some (a, b)) ts x clock = (
    chosen_time-IsTime a ts x.atime (λ e. clock (rw (now_test a.nsec e) refl)),
    chosen_time-IsTime b ts x.mtime
        (λ e. clock (rw (now_test b.nsec e) (or_true (is_utime_now a)))),
  )

-- Nothing but the two times is chosen.
pub with_times-kept :
    (tv : Option (Timespec × Timespec)) (ts : Timespec) (x : Stat)
    → with_times tv ts x
      ≡ record x { atime = (with_times tv ts x).atime; mtime = (with_times tv ts x).mtime }
with_times-kept none ts x = refl
with_times-kept (some (a, b)) ts x = refl
