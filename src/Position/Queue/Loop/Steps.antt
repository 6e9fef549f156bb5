-- ===== src/Position/Queue/Loop/Steps.antt =====
-- Every step of the loop keeps the bookkeeping of pending tasks valid, in any order of events.
use mathlib.Core.Bool.{false≢true}
use adviser_ai_constructor.Prelude.{
  ℕ, ◌≡◌, refl, sym, Bool, true, false, inl, inr, some, List, [], ◌∷◌, arith, All, All-append, ◌==◌,
  ==_iff, ltb, if◌then◌else◌, Bool-cases, Option-cases,
}
use adviser_ai_constructor.Float.{Float}
use adviser_ai_constructor.Position.Queue.Task.{Format, OrderTask}
use adviser_ai_constructor.Position.Queue.State.{
  mem_id, remove_id, OrderExecutionQueue, modify, enqueue, empty,
}
use adviser_ai_constructor.Position.Queue.State.Dict.{Linked-pop}
use adviser_ai_constructor.Position.Queue.State.Pending.{
  key_at, IsPlain, IsValid, InUse, held_ids, Linked-update_same, update-IsPlain, update-in_use,
}
use adviser_ai_constructor.Position.Queue.State.Enqueue.{enqueue-IsValid}
use adviser_ai_constructor.Position.Queue.Loop.{
  emergency_task, Outcome, transient_error, fatal_error, escalate, dequeue, take_task, put_back,
  clear, settle, finish, no_headroom, retried, Event, enqueued, dequeued, finished, stopped, purged,
  step, run,
}
use adviser_ai_constructor.Position.Queue.Loop.Purge.{purge-IsValid}

pub All-remove_id : (P : ℕ → Type 0) (i : ℕ) (ids : List ℕ) → All P ids → All P (remove_id i ids)
unfolding remove_id
All-remove_id P i [] h = tt
All-remove_id P i (j ∷ ids) h = elim (Bool-cases (j == i)) [
  | inl same ↦ rw same h.1
  | inr other ↦ rw other (h.0, All-remove_id P i ids h.1)
]

pub mem-All : (P : ℕ → Type 0) (i : ℕ) (ids : List ℕ) → All P ids → mem_id i ids ≡ true → P i
unfolding mem_id
mem-All P i [] h e = absurd (false≢true e)
mem-All P i (j ∷ ids) h e = elim (Bool-cases (j == i)) [
  | inl same ↦ rw (sym ((==_iff j i).0 same)) h.0
  | inr other ↦ mem-All P i ids h.1 (rw other at e)
]

-- A predicate on both branches holds of an `if`.
pub if_intro :
    {A : Type 0} (P : A → Type 0) (b : Bool) (x y : A) → P x → P y → P (if b then x else y)
if_intro P true x y px py = px
if_intro P false x y px py = py

module _ {F : Type 0} ⦃fl : Float F⦄ ⦃py : Format F⦄ where
  emergency_task-IsPlain :
      (now : F) (raw : List ℕ) (task : OrderTask F)
      → IsPlain task
      → IsPlain (emergency_task now raw task)
  unfolding emergency_task
  emergency_task-IsPlain now raw task p = (p.0, refl)

  escalate-IsValid :
      (now : F) (raw : List ℕ) (task : OrderTask F) (q : OrderExecutionQueue F)
      → IsPlain task
      → IsValid F fl py q
      → IsValid F fl py (escalate now raw task q)
  unfolding escalate
  escalate-IsValid now raw task q p v =
      if_intro (λ s. IsValid F fl py s) _ (enqueue (emergency_task now raw task) q) q
        (enqueue-IsValid (emergency_task now raw task) q v (emergency_task-IsPlain now raw task p))
        v

  dequeue-IsValid :
      (i : ℕ) (q : OrderExecutionQueue F) → IsValid F fl py q → IsValid F fl py (dequeue i q)
  unfolding dequeue take_task
  dequeue-IsValid i q v = elim (Option-cases q.current) [
    | inr (c, e) ↦ rw (e, dequeue) v
    | inl free ↦ elim (Option-cases (q.objects i)) [
      | inl e ↦ rw (free, dequeue, e) v
      | inr (t, e) ↦
          rw (free, dequeue, e)
            (elim (Bool-cases (mem_id i q.heap)) [
              | inr out ↦ rw out v
              | inl there ↦
                  let rest = All-remove_id (InUse q) i q.heap v.in_use in
                  rw there (
                    if_intro (λ s. IsValid F fl py s) _ _ _
                      (record { linked = v.linked; in_use = rest; held = v.held; plain = v.plain })
                      (record {
                        linked = v.linked;
                        in_use = rest;
                        held = (mem-All (InUse q) i q.heap v.in_use there, tt);
                        plain = v.plain;
                      }))
            ])
    ]
  ]

  clear-IsValid :
      (key : List ℕ) (q : OrderExecutionQueue F) → IsValid F fl py q → IsValid F fl py (clear key q)
  unfolding clear
  clear-IsValid key q v = record {
    linked = Linked-pop (key_at q.objects) q.next_id key q.pending_tasks v.linked;
    in_use = v.in_use;
    held = tt;
    plain = v.plain;
  }

  put_back-IsValid :
      (i : ℕ) (q : OrderExecutionQueue F)
      → IsValid F fl py q
      → InUse q i
      → IsValid F fl py (put_back i q)
  unfolding put_back
  put_back-IsValid i q v u = record {
    linked = v.linked;
    in_use = All-append (InUse q) q.heap (i ∷ []) v.in_use (u, tt);
    held = tt;
    plain = v.plain;
  }

  retry-IsValid :
      (i : ℕ) (t : OrderTask F) (q : OrderExecutionQueue F)
      → IsValid F fl py q
      → q.objects i ≡ some t
      → IsValid F fl py (modify retried i q)
  unfolding modify
  retry-IsValid i t q v e =
      rw (e, modify)
        (record {
          linked =
              Linked-update_same q.objects q.next_id i (retried t) q.pending_tasks
                (rw (e, key_at) refl) v.linked;
          in_use =
              update-in_use q.objects q.next_id q.next_id i (retried t) q.heap (omega arith)
                v.in_use;
          held =
              update-in_use q.objects q.next_id q.next_id i (retried t) (held_ids q.current)
                (omega arith) v.held;
          plain = update-IsPlain q.objects i (retried t) (v.plain i t e) v.plain;
        })

  retry-InUse :
      (i : ℕ) (t : OrderTask F) (q : OrderExecutionQueue F)
      → q.objects i ≡ some t
      → InUse q i
      → InUse (modify retried i q) i
  unfolding modify
  retry-InUse i t q e u =
      rw (e, modify)
        (update-in_use q.objects q.next_id q.next_id i (retried t) (i ∷ []) (omega arith) (u, tt)).0

  settle-IsValid :
      (now : F) (raw : List ℕ) (outcome : Outcome) (i : ℕ) (key : List ℕ) (t : OrderTask F)
      (q : OrderExecutionQueue F)
      → IsValid F fl py q
      → q.objects i ≡ some t
      → InUse q i
      → IsValid F fl py (settle now raw outcome i key t q)
  unfolding settle
  settle-IsValid now raw transient_error i key t q v e u =
      if_intro (λ s. IsValid F fl py s) (ltb t.retry_count t.max_retries) _ _
        (put_back-IsValid i (modify retried i q) (retry-IsValid i t q v e) (retry-InUse i t q e u))
        (clear-IsValid key _ (escalate-IsValid now raw t q (v.plain i t e) v))
  settle-IsValid now raw fatal_error i key t q v e u =
      clear-IsValid key _ (escalate-IsValid now raw t q (v.plain i t e) v)
  settle-IsValid now raw _ i key t q v e u = clear-IsValid key q v

  finish-IsValid :
      (now : F) (raw : List ℕ) (outcome : Outcome) (q : OrderExecutionQueue F)
      → IsValid F fl py q
      → IsValid F fl py (finish now raw outcome q)
  unfolding finish
  finish-IsValid now raw outcome q v = elim (Option-cases q.current) [
    | inl free ↦ rw (free, finish) v
    | inr (c, held) ↦ elim (Option-cases (q.objects c.0)) [
      | inl e ↦ rw (held, finish, e) v
      | inr (t, e) ↦
          rw (held, finish, e)
            (settle-IsValid now raw outcome c.0 c.1 t q v e
              (let h : All (InUse q) (held_ids (some c)) = (rw held at v.held) in h.0))
    ]
  ]

  no_headroom-IsValid :
      (q : OrderExecutionQueue F) → IsValid F fl py q → IsValid F fl py (no_headroom q)
  unfolding no_headroom
  no_headroom-IsValid q v = elim (Option-cases q.current) [
    | inl free ↦ rw (free, no_headroom) v
    | inr (c, held) ↦
        rw (held, no_headroom)
          (put_back-IsValid c.0 q v
            (let h : All (InUse q) (held_ids (some c)) = (rw held at v.held) in h.0))
  ]

  -- The tasks that callers enqueue are plain; the other events are free.
  abbrev pub IsPlainEvent : Event F → Type 0
  IsPlainEvent (enqueued task) = IsPlain task
  IsPlainEvent _ = Unit

  step-IsValid :
      (e : Event F) (q : OrderExecutionQueue F)
      → IsPlainEvent e
      → IsValid F fl py q
      → IsValid F fl py (step e q)
  unfolding step
  step-IsValid (enqueued task) q p v = enqueue-IsValid task q v p
  step-IsValid (dequeued i) q p v = dequeue-IsValid i q v
  step-IsValid (finished now raw outcome) q p v = finish-IsValid now raw outcome q v
  step-IsValid stopped q p v = no_headroom-IsValid q v
  step-IsValid (purged position_id actions) q p v = purge-IsValid position_id actions q v

  run-keeps :
      (events : List (Event F)) (q : OrderExecutionQueue F)
      → All IsPlainEvent events
      → IsValid F fl py q
      → IsValid F fl py (run events q)
  unfolding run
  run-keeps [] q p v = v
  run-keeps (e ∷ events) q p v = run-keeps events (step e q) p.1 (step-IsValid e q p.0 v)

  -- From an empty queue, in any order of enqueues, dequeues, outcomes, stops and purges whose tasks
  -- are plain, the bookkeeping is valid: every pending entry has its object, under the key that the
  -- object has now, and neither a key nor an object is pending twice.
  pub run-IsValid :
      (events : List (Event F)) → All IsPlainEvent events → IsValid F fl py (run events empty)
  run-IsValid events p =
      run-keeps events empty p (record { linked = tt; in_use = tt; held = tt; plain = λ i t e. cc })
