-- ===== src/Gc/Schedule/Balanced.antt =====
-- The states of the queue of garbage collections of src/db_impl_gc.cc.
use diffkv.Prelude.{ℕ, ◌+◌, ◌≡◌, ◌⊎◌, ◌≤◌, false, some, length}
use diffkv.Gc.Schedule.{GcOptions, Scheduler, begin_call, Step}

-- There are as many calls that have not begun, scheduled or yet to be scheduled, as column families in
-- the queue; no more are scheduled than may be, and where one is yet to be scheduled, as many are.
pub record IsBalanced (o : GcOptions) (s : Scheduler) : Type 0 where
  pub queued : length s.gc_queue + s.bg_gc_running ≡ s.unscheduled_gc + s.bg_gc_scheduled
  pub begun : s.bg_gc_running ≤ s.bg_gc_scheduled
  pub bounded : s.bg_gc_scheduled ≤ o.max_background_gc
  pub busy : (s.unscheduled_gc ≡ 0) ⊎ (s.bg_gc_scheduled ≡ o.max_background_gc)
  pub alive : s.shuting_down ≡ false

module _ (o : GcOptions) (enabled : o.disable_background_gc ≡ false) where
  -- The first of the queue can go: a call begins with its column family.
  abbrev pub Begins : Scheduler → Type 0
  Begins s =
      (cf : ℕ) × ((begin_call s).0 ≡ some cf)
      × Step o s (begin_call s).1
      × IsBalanced o (begin_call s).1
