-- ===== src/Format/FileMeta/States.antt =====
-- The life cycle of a blob file: sequences of FileStateTransit calls.
use diffkv.Prelude.{◌≡◌, ◌≢◌, ◌⊎◌, List, [], ◌∷◌, All, Outcome, ok, ◌>>=◌, >>=-eq-ok, arith}
use mathlib.Core.Path.{subst}
use diffkv.Format.FileMeta.{FileState, FileEvent, transit}

-- The state after a sequence of events, if no assert fails on the way.
unfoldable pub run_events : List FileEvent → FileState → Outcome FileState
run_events [] s = ok s
run_events (e ∷ es) s = transit e s >>= run_events es

transit_from_obsolete :
    (e : FileEvent) (t : FileState)
    → e ≢ FileEvent.reset
    → transit e FileState.obsolete ≡ ok t
    → t ≡ FileState.obsolete
unfolding transit
transit_from_obsolete e t n h = ground arith

-- A file that is obsolete stays so through every sequence of events that fails no assert, if the
-- test-only event kReset is not among them.
pub obsolete_absorbing :
    (es : List FileEvent) (t : FileState)
    → All (λ e. e ≢ FileEvent.reset) es
    → run_events es FileState.obsolete ≡ ok t
    → t ≡ FileState.obsolete
unfolding run_events
obsolete_absorbing [] t n h = ground arith
obsolete_absorbing (e ∷ es) t (n, ns) h =
    let (s, first, then) = >>=-eq-ok (transit e FileState.obsolete) (run_events es) h in
    obsolete_absorbing es t ns
      (subst (λ x. run_events es x ≡ ok t) (transit_from_obsolete e s n first) then)

transit-ne-init :
    (e : FileEvent) (s t : FileState) → s ≢ FileState.init → transit e s ≡ ok t → t ≢ FileState.init
unfolding transit
transit-ne-init e s t n h = ground arith

-- No sequence of events brings a file that has left kInit back to it.
init_left_for_good :
    (es : List FileEvent) (s t : FileState)
    → s ≢ FileState.init
    → run_events es s ≡ ok t
    → t ≢ FileState.init
unfolding run_events
init_left_for_good [] s t n h = ground arith
init_left_for_good (e ∷ es) s t n h =
    let (u, first, then) = >>=-eq-ok (transit e s) (run_events es) h in
    init_left_for_good es u t (transit-ne-init e s u n first) then

-- A file is entered into a GC job from kNormal alone, and one that is being collected stays so only
-- when a flush completes.
pub being_gc_from_normal :
    (e : FileEvent) (s : FileState)
    → transit e s ≡ ok FileState.being_gc
    → ((s ≡ FileState.normal) × (e ≡ FileEvent.gc_begin))
      ⊎ ((s ≡ FileState.being_gc) × (e ≡ FileEvent.flush_completed))
unfolding transit
being_gc_from_normal e s h = ground arith
