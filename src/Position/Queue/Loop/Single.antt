-- ===== src/Position/Queue/Loop/Single.antt =====
-- No task stands in the heap twice, or in the heap and in the hand of the loop.
use adviser_ai_constructor.Prelude.{
  ℕ, ◌+◌, ◌<◌, ◌≡◌, refl, true, false, inl, inr, Option, none, some, List, [], ◌∷◌, ◌++◌, arith,
  All, All-append, ltb, ==_iff, Bool-cases, Option-cases,
}
use adviser_ai_constructor.Float.{Float}
use adviser_ai_constructor.Position.Queue.Task.{Format, OrderTask}
use adviser_ai_constructor.Position.Queue.State.{
  mem_id, remove_id, OrderExecutionQueue, modify, enqueue,
}
use adviser_ai_constructor.Position.Queue.State.Dict.{IsOnce, IsOnce-append, mem_id-append_ne}
use adviser_ai_constructor.Position.Queue.State.Enqueue.{enqueue-ids}
use adviser_ai_constructor.Position.Queue.Loop.{
  emergency_task, Outcome, succeeded, transient_error, would_trigger, already_flat, fatal_error,
  escalate, dequeue, take_task, put_back, clear, settle, finish, no_headroom, retried,
  purge_pending, Event, enqueued, dequeued, finished, stopped, purged, step, run,
}
use adviser_ai_constructor.Position.Queue.Loop.Gone.{mem_id-remove}
use adviser_ai_constructor.Position.Queue.Loop.Steps.{All-remove_id, mem-All, if_intro}

mem_id-fresh : (n : ℕ) (ids : List ℕ) → All (λ j. j < n) ids → mem_id n ids ≡ false
unfolding mem_id
mem_id-fresh n [] h = refl
mem_id-fresh n (j ∷ ids) h = ground (arith, mem_id-fresh n ids, ==_iff j n)

All-later : (n : ℕ) (ids : List ℕ) → All (λ j. j < n) ids → All (λ j. j < n + 1) ids
All-later n [] h = tt
All-later n (j ∷ ids) h = (omega (arith, h.0), All-later n ids h.1)

pub remove_id-IsOnce :
    (i : ℕ) (ids : List ℕ)
    → IsOnce ids
    → IsOnce (remove_id i ids) × (mem_id i (remove_id i ids) ≡ false)
unfolding remove_id mem_id
remove_id-IsOnce i [] h = (tt, refl)
remove_id-IsOnce i (j ∷ ids) h =
    ground (arith, remove_id-IsOnce i ids, mem_id-remove j i ids, ==_iff j i)

-- The heap, the next identity and the hand of the loop.
abbrev IsHeldOnce : ℕ → List ℕ → Option (ℕ × List ℕ) → Type 0
IsHeldOnce n heap none = Unit {0}
IsHeldOnce n heap (some c) = (mem_id c.0 heap ≡ false) × (c.0 < n)

abbrev IsApart : ℕ → List ℕ → Option (ℕ × List ℕ) → Type 0
IsApart n heap held = IsOnce heap × All (λ j. j < n) heap × IsHeldOnce n heap held

IsApart-append :
    (n : ℕ) (heap : List ℕ) (held : Option (ℕ × List ℕ))
    → IsApart n heap held
    → IsApart (n + 1) (heap ++ n ∷ []) held
IsApart-append n heap none (once, below, apart) = (
  IsOnce-append n heap once (mem_id-fresh n heap below),
  All-append _ heap (n ∷ []) (All-later n heap below) (omega arith, tt),
  tt,
)
IsApart-append n heap (some c) (once, below, apart) = (
  IsOnce-append n heap once (mem_id-fresh n heap below),
  All-append _ heap (n ∷ []) (All-later n heap below) (omega arith, tt),
  (mem_id-append_ne c.0 n heap apart.0 (omega (arith, apart.1)), omega (arith, apart.1)),
)

module _ {F : Type 0} ⦃fl : Float F⦄ ⦃py : Format F⦄ where
  abbrev pub IsSingle : OrderExecutionQueue F → Type 0
  IsSingle q = IsApart q.next_id q.heap q.current

  enqueue-IsSingle :
      (task : OrderTask F) (q : OrderExecutionQueue F) → IsSingle q → IsSingle (enqueue task q)
  enqueue-IsSingle task q h =
      let (held, _, heap) = enqueue-ids task q in
      elim heap [
        | inl (same, n) ↦ rw (held, same, n) h
        | inr (more, n) ↦ rw (held, more, n) (IsApart-append q.next_id q.heap q.current h)
      ]

  escalate-IsSingle :
      (now : F) (raw : List ℕ) (task : OrderTask F) (q : OrderExecutionQueue F)
      → IsSingle q
      → IsSingle (escalate now raw task q)
  unfolding escalate
  escalate-IsSingle now raw task q h =
      if_intro IsSingle _ (enqueue (emergency_task now raw task) q) q
        (enqueue-IsSingle (emergency_task now raw task) q h) h

  -- A task of the heap that the loop takes, or drops.
  take-IsSingle :
      (i : ℕ) (t : OrderTask F) (q : OrderExecutionQueue F)
      → q.current ≡ none
      → mem_id i q.heap ≡ true
      → IsSingle q
      → IsSingle (take_task i t q)
  unfolding take_task
  take-IsSingle i t q free has (once, below, _) =
      let (once', gone) = remove_id-IsOnce i q.heap once in
      let below' = All-remove_id (λ j. j < q.next_id) i q.heap below in
      if_intro IsSingle _ _ _ (once', below', rw free tt)
        (once', below', (gone, mem-All (λ j. j < q.next_id) i q.heap below has))

  dequeue-IsSingle : (i : ℕ) (q : OrderExecutionQueue F) → IsSingle q → IsSingle (dequeue i q)
  unfolding dequeue
  dequeue-IsSingle i q h = elim (Option-cases q.current) [
    | inr (c, held) ↦ rw (held, dequeue) h
    | inl free ↦ elim (Option-cases (q.objects i)) [
      | inl e ↦ rw (free, dequeue, e) h
      | inr (t, e) ↦ elim (Bool-cases (mem_id i q.heap)) [
        | inl has ↦ rw (free, dequeue, e) (rw has (take-IsSingle i t q free has h))
        | inr out ↦ rw (free, dequeue, e) (rw out h)
      ]
    ]
  ]

  clear-IsSingle : (key : List ℕ) (q : OrderExecutionQueue F) → IsSingle q → IsSingle (clear key q)
  unfolding clear
  clear-IsSingle key q (once, below, _) = (once, below, tt)

  put_back-IsSingle :
      (c : ℕ × List ℕ) (q : OrderExecutionQueue F)
      → q.current ≡ some c
      → IsSingle q
      → IsSingle (put_back c.0 q)
  unfolding put_back
  put_back-IsSingle c q held (once, below, apart) =
      let h : IsHeldOnce q.next_id q.heap (some c) = (rw held at apart) in
      (IsOnce-append c.0 q.heap once h.0, All-append _ q.heap (c.0 ∷ []) below (h.1, tt), tt)

  retry-IsSingle :
      (c : ℕ × List ℕ) (t : OrderTask F) (q : OrderExecutionQueue F)
      → q.current ≡ some c
      → q.objects c.0 ≡ some t
      → IsSingle q
      → IsSingle (put_back c.0 (modify retried c.0 q))
  unfolding modify put_back
  retry-IsSingle c t q held at h = rw (at, modify) (put_back-IsSingle c q held h)

  settle-IsSingle :
      (now : F) (raw : List ℕ) (outcome : Outcome) (c : ℕ × List ℕ) (t : OrderTask F)
      (q : OrderExecutionQueue F)
      → q.current ≡ some c
      → q.objects c.0 ≡ some t
      → IsSingle q
      → IsSingle (settle now raw outcome c.0 c.1 t q)
  unfolding settle
  settle-IsSingle now raw transient_error c t q held at h =
      if_intro IsSingle (ltb t.retry_count t.max_retries) (put_back c.0 (modify retried c.0 q))
        (clear c.1 (escalate now raw t q)) (retry-IsSingle c t q held at h)
        (clear-IsSingle c.1 (escalate now raw t q) (escalate-IsSingle now raw t q h))
  settle-IsSingle now raw fatal_error c t q held at h =
      clear-IsSingle c.1 (escalate now raw t q) (escalate-IsSingle now raw t q h)
  settle-IsSingle now raw succeeded c t q held at h = clear-IsSingle c.1 q h
  settle-IsSingle now raw would_trigger c t q held at h = clear-IsSingle c.1 q h
  settle-IsSingle now raw already_flat c t q held at h = clear-IsSingle c.1 q h

  finish-IsSingle :
      (now : F) (raw : List ℕ) (outcome : Outcome) (q : OrderExecutionQueue F)
      → IsSingle q
      → IsSingle (finish now raw outcome q)
  unfolding finish
  finish-IsSingle now raw outcome q h = elim (Option-cases q.current) [
    | inl free ↦ rw (free, finish) h
    | inr (c, held) ↦ elim (Option-cases (q.objects c.0)) [
      | inl e ↦ rw (held, finish, e) h
      | inr (t, e) ↦ rw (held, finish, e) (settle-IsSingle now raw outcome c t q held e h)
    ]
  ]

  no_headroom-IsSingle : (q : OrderExecutionQueue F) → IsSingle q → IsSingle (no_headroom q)
  unfolding no_headroom
  no_headroom-IsSingle q h = elim (Option-cases q.current) [
    | inl free ↦ rw (free, no_headroom) h
    | inr (c, held) ↦ rw (held, no_headroom) (put_back-IsSingle c q held h)
  ]

  step-IsSingle : (e : Event F) (q : OrderExecutionQueue F) → IsSingle q → IsSingle (step e q)
  unfolding step purge_pending
  step-IsSingle (enqueued task) q h = enqueue-IsSingle task q h
  step-IsSingle (dequeued i) q h = dequeue-IsSingle i q h
  step-IsSingle (finished now raw outcome) q h = finish-IsSingle now raw outcome q h
  step-IsSingle stopped q h = no_headroom-IsSingle q h
  step-IsSingle (purged p actions) q h = h

  pub run-IsSingle :
      (events : List (Event F)) (q : OrderExecutionQueue F) → IsSingle q → IsSingle (run events q)
  unfolding run
  run-IsSingle [] q h = h
  run-IsSingle (e ∷ events) q h = run-IsSingle events (step e q) (step-IsSingle e q h)
