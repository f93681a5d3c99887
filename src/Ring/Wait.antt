-- ===== src/Ring/Wait.antt =====
-- deadline_from_now and mlrt_ring_wait_pop of realtime/ring_buffer.c. While the caller waits the lock
-- is free and other threads make calls: each return of pthread_cond_wait or pthread_cond_timedwait is
-- an event that carries those calls. Where the events end, the call is still waiting.
use embedded_systems_runtime.Prelude.{
  ℕ, ◌+◌, ◌-◌, ◌*◌, ◌/◌, ◌%◌, ◌<◌, ◌≡◌, ◌≢◌, refl, ap, Bool, true, false, List, [], ◌∷◌, ◌++◌,
  arith, ◌==◌, leb, if◌then◌else◌, Bool-cases, ==_iff, inl, inr, take,
}
use embedded_systems_runtime.Ring.{Ring, take_item}
use embedded_systems_runtime.Ring.Invariant.{IsValid, take_item-IsValid}
use embedded_systems_runtime.Ring.Contents.{contents, contents-moved}
use embedded_systems_runtime.Ring.Queue.{Op, run_ring, run_ring-IsValid}

-- struct timespec
pub record Timespec : Type 0 where
  pub tv_sec : ℕ
  pub tv_nsec : ℕ

unfoldable pub deadline_from_now : Timespec → ℕ → Timespec
deadline_from_now now timeout_ms =
    let sec = now.tv_sec + timeout_ms / 1000 in
    let nsec = now.tv_nsec + timeout_ms % 1000 * 1000000 in
    if leb 1000000000 nsec
    then record { tv_sec = sec + 1; tv_nsec = nsec - 1000000000 }
    else record { tv_sec = sec; tv_nsec = nsec }

abbrev nanoseconds : Timespec → ℕ
nanoseconds ts = ts.tv_sec * 1000000000 + ts.tv_nsec

-- From a normalised time the deadline is normalised, and lies exactly timeout_ms later.
pub deadline_from_now_lem :
    (now : Timespec) (timeout_ms : ℕ)
    → now.tv_nsec < 1000000000
    → ((deadline_from_now now timeout_ms).tv_nsec < 1000000000)
      × (nanoseconds (deadline_from_now now timeout_ms) ≡ nanoseconds now + timeout_ms * 1000000)
unfolding deadline_from_now
deadline_from_now_lem now timeout_ms h = ground arith

-- Why a wait returned, with the calls that other threads made while it lasted. A wake-up may be
-- spurious. `expired` is ETIMEDOUT, which only the timed wait returns.
pub data Wake : Type 0 where
  woken expired broken : List Op → Wake

pub data WaitResult : Type 0 where
  taken : List ℕ → WaitResult
  timed_out wait_failed waiting : WaitResult

-- mlrt_ring_wait_pop; `timed` says whether timeout_ms is at least 0.
unfoldable pub ring_wait_pop : Bool → Ring → List Wake → WaitResult × Ring
unfolding take_item
ring_wait_pop timed rb [] =
    if rb.count == 0 then (waiting, rb) else (let (item, rb') = take_item rb in (taken item, rb'))
ring_wait_pop timed rb (wake ∷ wakes) =
    let again = λ (ops : List Op). ring_wait_pop timed (run_ring rb ops).1 wakes in
    if rb.count == 0
    then (elim wake [
      | woken ops ↦ again ops
      | expired ops ↦ ((if timed then timed_out else wait_failed), (run_ring rb ops).1)
      | broken ops ↦ (wait_failed, (run_ring rb ops).1)
    ])
    else (let (item, rb') = take_item rb in (taken item, rb'))

-- The calls that other threads made before a wait returned.
abbrev pub calls_of : Wake → List Op
calls_of (woken ops) = ops
calls_of (expired ops) = ops
calls_of (broken ops) = ops

-- The ring after events.
unfoldable pub after_wakes : Ring → List Wake → Ring
after_wakes rb [] = rb
after_wakes rb (wake ∷ wakes) = after_wakes (run_ring rb (calls_of wake)).1 wakes

-- Every event is a wake-up that found the ring empty before it.
abbrev pub WaitedThrough : Ring → List Wake → Type 0
WaitedThrough rb [] = Unit
WaitedThrough rb (woken ops ∷ wakes) = (rb.count ≡ 0) × WaitedThrough (run_ring rb ops).1 wakes
WaitedThrough rb (expired ops ∷ wakes) = ⊥
WaitedThrough rb (broken ops ∷ wakes) = ⊥

-- The first of the events that are left is a timeout.
abbrev pub TimesOut : List Wake → Type 0
TimesOut (expired ops ∷ wakes) = Unit
TimesOut _ = ⊥

-- The first of them is a failure; in a wait without a timeout, ETIMEDOUT is one as well.
abbrev pub Breaks : Bool → List Wake → Type 0
Breaks timed (broken ops ∷ wakes) = Unit
Breaks timed (expired ops ∷ wakes) = timed ≡ false
Breaks timed _ = ⊥

-- What a return of mlrt_ring_wait_pop says of the ring `s` that the wake-ups left, the ring `s'` that
-- it left itself, and the events `rest` from then on.
abbrev pub Found : Bool → WaitResult → Ring → Ring → List Wake → Type 0
Found timed (taken item) s s' rest = (contents s ≡ item ∷ contents s') × IsValid s'
Found timed timed_out s s' rest =
    (s.count ≡ 0) × (timed ≡ true) × TimesOut rest × (s' ≡ after_wakes s (take 1 rest))
Found timed wait_failed s s' rest =
    (s.count ≡ 0) × Breaks timed rest × (s' ≡ after_wakes s (take 1 rest))
Found timed waiting s s' rest = (s.count ≡ 0) × (rest ≡ []) × (s' ≡ s)

take_item-Found :
    (timed : Bool) (rb : Ring) (rest : List Wake)
    → IsValid rb
    → rb.count ≢ 0
    → Found timed (taken (take_item rb).0) rb (take_item rb).1 rest
unfolding take_item
take_item-Found timed rb rest v h =
    (contents-moved rb rb.dropped v (omega arith), take_item-IsValid v (omega arith))

-- How a call ends, by the events it has before it.
abbrev pub Ends : Bool → Ring → List Wake → WaitResult × Ring → Type 0
Ends timed rb wakes r =
    (seen : List Wake) × (rest : List Wake) × (wakes ≡ seen ++ rest)
    × WaitedThrough rb seen
    × Found timed r.0 (after_wakes rb seen) r.1 rest

not_empty :
    (timed : Bool) (rb : Ring) (wakes : List Wake)
    → IsValid rb
    → (rb.count == 0) ≡ false
    → Ends timed rb wakes (taken (take_item rb).0, (take_item rb).1)
unfolding after_wakes
not_empty timed rb wakes v e =
    ([], wakes, refl, tt, take_item-Found timed rb wakes v (ground arith))

-- mlrt_ring_wait_pop goes through wake-ups as long as it finds the ring empty, and no further. Then it
-- returns the oldest item of the ring as the other threads have left it, which it removes; or, where
-- the ring is empty, it returns the timeout exactly at a timeout that was asked for, and a failure
-- exactly at a failure, the ring being what the calls of the other threads make it; or it waits on, at
-- the end of the events.
pub ring_wait_pop_lem :
    (timed : Bool) (wakes : List Wake) {rb : Ring}
    → IsValid rb
    → Ends timed rb wakes (ring_wait_pop timed rb wakes)
unfolding ring_wait_pop after_wakes
ring_wait_pop_lem timed [] {rb} v = elim (Bool-cases (rb.count == 0)) [
  | inl e ↦ rw e ([], [], refl, tt, ((==_iff rb.count 0).0 e, refl, refl))
  | inr e ↦ rw e (not_empty timed rb [] v e)
]
ring_wait_pop_lem timed (woken ops ∷ wakes) {rb} v = elim (Bool-cases (rb.count == 0)) [
  | inl e ↦
      (let (seen, rest, split, through, found) =
          ring_wait_pop_lem timed wakes (run_ring-IsValid ops v).0 in
        rw e (
          woken ops ∷ seen,
          rest,
          ap (λ l. woken ops ∷ l) split,
          ((==_iff rb.count 0).0 e, through),
          found,
        ))
  | inr e ↦ rw e (not_empty timed rb (woken ops ∷ wakes) v e)
]
ring_wait_pop_lem true (expired ops ∷ wakes) {rb} v = elim (Bool-cases (rb.count == 0)) [
  | inl e ↦ rw e ([], expired ops ∷ wakes, refl, tt, ((==_iff rb.count 0).0 e, refl, tt, refl))
  | inr e ↦ rw e (not_empty true rb (expired ops ∷ wakes) v e)
]
ring_wait_pop_lem false (expired ops ∷ wakes) {rb} v = elim (Bool-cases (rb.count == 0)) [
  | inl e ↦ rw e ([], expired ops ∷ wakes, refl, tt, ((==_iff rb.count 0).0 e, refl, refl))
  | inr e ↦ rw e (not_empty false rb (expired ops ∷ wakes) v e)
]
ring_wait_pop_lem timed (broken ops ∷ wakes) {rb} v = elim (Bool-cases (rb.count == 0)) [
  | inl e ↦ rw e ([], broken ops ∷ wakes, refl, tt, ((==_iff rb.count 0).0 e, tt, refl))
  | inr e ↦ rw e (not_empty timed rb (broken ops ∷ wakes) v e)
]
