-- ===== src/Gc/Schedule.antt =====
-- The queue of garbage collections: AddToGCQueue and PopFirstFromGCQueue of src/db_impl.h, and
-- MaybeScheduleGC and BackgroundCallGC of src/db_impl_gc.cc, and the requests of DropColumnFamilies of
-- src/db_impl.cc. Each holds the mutex, which a call gives up while its job runs: `begin_call` is up to
-- there, `end_call` what follows.
pub mod Balanced
use diffkv.Prelude.{
  ℕ, zero, suc, ◌+◌, ◌-◌, ◌≡◌, ◌<◌, ◌≤◌, ltb, Bool, true, false, ◌||◌, if◌then◌else◌, Status,
  Option, none, some, List, [], ◌∷◌, ◌++◌,
}

pub record GcOptions : Type 0 where
  pub disable_background_gc : Bool
  pub max_background_gc : ℕ

-- The members of TitanDBImpl that the mutex guards.
pub record Scheduler : Type 0 where
  pub gc_queue : List ℕ
  pub bg_gc_scheduled : ℕ
  pub bg_gc_running : ℕ
  pub unscheduled_gc : ℕ
  pub drop_cf_requests : ℕ
  pub shuting_down : Bool

abbrev pub new_scheduler : Scheduler
new_scheduler = record {
  gc_queue = [];
  bg_gc_scheduled = 0;
  bg_gc_running = 0;
  unscheduled_gc = 0;
  drop_cf_requests = 0;
  shuting_down = false;
}

-- AddToGCQueue
unfoldable pub add_to_gc_queue : ℕ → Scheduler → Scheduler
add_to_gc_queue cf s = record s {
  unscheduled_gc = s.unscheduled_gc + 1;
  gc_queue = s.gc_queue ++ (cf ∷ []);
}

-- The loop of MaybeScheduleGC, of the two counters.
unfoldable pub schedule_each : ℕ → ℕ → ℕ → ℕ × ℕ
schedule_each max zero scheduled = (zero, scheduled)
schedule_each max (suc unscheduled) scheduled =
    let rest = schedule_each max unscheduled (scheduled + 1) in
    if ltb scheduled max then rest else (suc unscheduled, scheduled)

-- MaybeScheduleGC
unfoldable pub maybe_schedule_gc : GcOptions → Scheduler → Scheduler
unfolding schedule_each
maybe_schedule_gc o s = if o.disable_background_gc || s.shuting_down then s else record s {
  unscheduled_gc = (schedule_each o.max_background_gc s.unscheduled_gc s.bg_gc_scheduled).0;
  bg_gc_scheduled = (schedule_each o.max_background_gc s.unscheduled_gc s.bg_gc_scheduled).1;
}

-- PopFirstFromGCQueue, where the queue is not empty: the column family of the call.
unfoldable pub pop_first : List ℕ → Option ℕ × List ℕ
pop_first [] = (none, [])
pop_first (cf ∷ queue) = (some cf, queue)

-- BackgroundCallGC up to the job: the column family, and the members.
unfoldable pub begin_call : Scheduler → Option ℕ × Scheduler
unfolding pop_first
begin_call s = (
  (pop_first s.gc_queue).0,
  record s { bg_gc_running = s.bg_gc_running + 1; gc_queue = (pop_first s.gc_queue).1 },
)

-- The end of BackgroundGC: the column family may be put back into the queue.
abbrev pub put_back : Option ℕ → Scheduler → Scheduler
put_back none s = s
put_back (some cf) s = add_to_gc_queue cf s

-- BackgroundCallGC after the job.
unfoldable pub end_call : GcOptions → Option ℕ → Scheduler → Scheduler
unfolding maybe_schedule_gc add_to_gc_queue
end_call o again s =
    let s' = put_back again s in
    maybe_schedule_gc o
      (record s' { bg_gc_running = s'.bg_gc_running - 1; bg_gc_scheduled = s'.bg_gc_scheduled - 1 })

-- DropColumnFamilies: its request, and what it does about it after the base database has answered.
unfoldable pub start_drop : Scheduler → Scheduler
start_drop s = record s { drop_cf_requests = s.drop_cf_requests + 1 }

unfoldable pub end_drop : Option Status → Scheduler → Scheduler
end_drop none s = record s { drop_cf_requests = s.drop_cf_requests - 1 }
end_drop (some x) s = s

-- What happens under the mutex. A scheduled call that has not begun waits while a column family is
-- being dropped, and a drop waits for the calls that are running.
pub data Step (o : GcOptions) : Scheduler → Scheduler → Type 0 where
  enqueue : (cf : ℕ) (s : Scheduler) → Step o s (maybe_schedule_gc o (add_to_gc_queue cf s))
  begin :
      (s : Scheduler)
      → s.bg_gc_running < s.bg_gc_scheduled
      → s.drop_cf_requests ≡ 0
      → Step o s (begin_call s).1
  finish : (again : Option ℕ) (s : Scheduler) → 0 < s.bg_gc_running → Step o s (end_call o again s)
  request_drop : (s : Scheduler) → Step o s (start_drop s)
  drop :
      (base : Option Status) (s : Scheduler)
      → 0 < s.drop_cf_requests
      → s.bg_gc_running ≡ 0
      → Step o s (end_drop base s)

-- The states that come after a new scheduler.
pub data Reached (o : GcOptions) : Scheduler → Type 0 where
  new : Reached o new_scheduler
  after : (s t : Scheduler) → Reached o s → Step o s t → Reached o t
