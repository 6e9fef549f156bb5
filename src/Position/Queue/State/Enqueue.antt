-- ===== src/Position/Queue/State/Enqueue.antt =====
-- What `enqueue` does on every branch: the latest parameters stand under the key of the task, and
-- the bookkeeping stays valid.
use mathlib.Core.Path.{subst}
use adviser_ai_constructor.Prelude.{
  ℕ, ◌+◌, ◌≤◌, ◌≡◌, ◌≢◌, refl, sym, false, ◌⊎◌, inl, inr, none, some, List, [], ◌∷◌, ◌++◌, arith,
  All, ==_iff, Bool-cases, Option-cases,
}
use adviser_ai_constructor.Float.{Float}
use adviser_ai_constructor.Text.{text_eq, text_eq_iff}
use adviser_ai_constructor.Position.Queue.Task.{Format, rank, OrderTask, key_of, is_sl}
use adviser_ai_constructor.Position.Queue.Task.Key.{task_key-eq}
use adviser_ai_constructor.Position.Queue.State.{
  Pending, lookup, pop, OrderExecutionQueue, update, modify, rekey, coalesce, add, merge, refresh,
  merge_or_add, quickfire_target, is_quickfire, enqueue,
}
use adviser_ai_constructor.Position.Queue.State.Dict.{lookup-Linked, lookup-insert_self}
use adviser_ai_constructor.Position.Queue.State.Pending.{
  key_at, IsPlain, IsValid, find_quickfire-lookup, write-IsValid, add-IsValid,
}

rekey_self : (k : List ℕ) (i : ℕ) (d : Pending) → rekey k k i d ≡ d
unfolding rekey
rekey_self k i d = rw ((text_eq_iff k k).1 refl)

pub lookup-rekey :
    (old k : List ℕ) (i : ℕ) (d : Pending)
    → lookup old d ≡ some i
    → lookup k (rekey old k i d) ≡ some i
unfolding rekey
lookup-rekey old k i d e = elim (Bool-cases (text_eq k old)) [
  | inl same ↦ rw (same, (text_eq_iff k old).0 same) e
  | inr other ↦ rw other (lookup-insert_self k i (pop old d))
]

module _ {F : Type 0} ⦃fl : Float F⦄ ⦃py : Format F⦄ where
  -- The object has what the task asks for, at a priority that is no lower for a stop-loss.
  abbrev Fulfils : OrderTask F → OrderTask F → Type 0
  Fulfils task t' =
      (t'.position_id ≡ task.position_id)
      × (t'.action ≡ task.action)
      × (t'.params ≡ task.params)
      × ((is_sl task.action ≡ false) ⊎ (rank t'.priority ≤ rank task.priority))

  refresh-Fulfils :
      (task t : OrderTask F)
      → t.position_id ≡ task.position_id
      → t.action ≡ task.action
      → Fulfils task (refresh task t) × Fulfils task (merge task t)
  unfolding merge refresh
  refresh-Fulfils task t p a = ground arith

  -- The task is written into an object that was pending.
  abbrev Written : OrderTask F → OrderExecutionQueue F → Type 0
  Written task q =
      (old : List ℕ) × (i : ℕ) × (t' : OrderTask F) × (lookup old q.pending_tasks ≡ some i)
      × Fulfils task t'
      × (enqueue task q ≡ record q {
        objects = update q.objects i t';
        pending_tasks = rekey old (key_of task) i q.pending_tasks;
      })

  Fulfils-key : (task t' : OrderTask F) → Fulfils task t' → key_of t' ≡ key_of task
  Fulfils-key task t' h = rw (h.0, h.1, h.2)

  -- A quick-fire target is pending, and is a task of the same position and action.
  pub quickfire_lem :
      (task : OrderTask F) (q : OrderExecutionQueue F) (k : List ℕ) (i : ℕ)
      → IsValid F fl py q
      → quickfire_target task q ≡ some (k, i)
      → (t : OrderTask F) × (q.objects i ≡ some t)
        × (lookup k q.pending_tasks ≡ some i)
        × (t.position_id ≡ task.position_id)
        × (t.action ≡ task.action)
  unfolding quickfire_target is_quickfire
  quickfire_lem task q k i v e =
      let found =
        find_quickfire-lookup q.objects task.position_id task.created_at q.next_id q.pending_tasks
          {k = k} {i = i} v.linked in
      elim (Option-cases (q.objects i)) [
        | inl gone ↦ ground (arith, found)
        | inr (t, here) ↦ (
          t,
          here,
          ground (arith, found),
          ground (arith, found, text_eq_iff t.position_id task.position_id),
          ground (arith, found),
        )
      ]

  -- The object under the key of the task is one of the same position and action.
  pub merge_lem :
      (task : OrderTask F) (q : OrderExecutionQueue F) (i : ℕ)
      → IsValid F fl py q
      → IsPlain task
      → lookup (key_of task) q.pending_tasks ≡ some i
      → (t : OrderTask F) × (q.objects i ≡ some t)
        × (key_of t ≡ key_of task)
        × (t.position_id ≡ task.position_id)
        × (t.action ≡ task.action)
  merge_lem task q i v p e =
      let (lt, here) =
        lookup-Linked (key_at q.objects) q.next_id i (key_of task) q.pending_tasks v.linked e in
      elim (Option-cases (q.objects i)) [
        | inl gone ↦ ground arith
        | inr (t, at) ↦
            let same : key_of t ≡ key_of task = ground arith in
            let eq =
              task_key-eq t.position_id task.position_id t.action task.action t.params task.params
                (v.plain i t at).0 p.0 (v.plain i t at).1 p.1 same in
            (t, at, same, eq.0, eq.1)
      ]

  modify_lem :
      (f : OrderTask F → OrderTask F) (i : ℕ) (t : OrderTask F) (q : OrderExecutionQueue F)
      → q.objects i ≡ some t
      → modify f i q ≡ record q { objects = update q.objects i (f t) }
  unfolding modify
  modify_lem f i t q e = rw (e, modify)

  pub coalesce_lem :
      (task : OrderTask F) (k : List ℕ) (i : ℕ) (t : OrderTask F) (q : OrderExecutionQueue F)
      → q.objects i ≡ some t
      → coalesce task (k, i) q ≡ record q {
        objects = update q.objects i (refresh task t);
        pending_tasks = rekey k (key_of task) i q.pending_tasks;
      }
  unfolding coalesce
  coalesce_lem task k i t q e =
      modify_lem (refresh task) i t
        (record q { pending_tasks = rekey k (key_of task) i q.pending_tasks }) e

  merge_into_lem :
      (task : OrderTask F) (i : ℕ) (t : OrderTask F) (q : OrderExecutionQueue F)
      → lookup (key_of task) q.pending_tasks ≡ some i
      → q.objects i ≡ some t
      → merge_or_add task q ≡ record q {
        objects = update q.objects i (merge task t);
        pending_tasks = rekey (key_of task) (key_of task) i q.pending_tasks;
      }
  unfolding merge_or_add
  merge_into_lem task i t q e e' =
      rw (e, merge_or_add, rekey_self) (modify_lem (merge task) i t q e')

  -- `enqueue` adds the task, or writes it into a pending object.
  branch :
      (task : OrderTask F) (q : OrderExecutionQueue F)
      → IsValid F fl py q
      → IsPlain task
      → (enqueue task q ≡ add task q) ⊎ Written task q
  unfolding enqueue
  branch task q v p = elim (Option-cases (quickfire_target task q)) [
    | inr ((k, i), e) ↦
        let (t, at, here, pid, act) = quickfire_lem task q k i v e in
        inr (
          k,
          i,
          refresh task t,
          here,
          (refresh-Fulfils task t pid act).0,
          rw (e, enqueue) (coalesce_lem task k i t q at),
        )
    | inl e ↦ elim (Option-cases (lookup (key_of task) q.pending_tasks)) [
      | inl e' ↦ inl (rw (e, enqueue) (rw (e', merge_or_add)))
      | inr (i, e') ↦
          let (t, at, same, pid, act) = merge_lem task q i v p e' in
          inr (
            key_of task,
            i,
            merge task t,
            e',
            (refresh-Fulfils task t pid act).1,
            rw (e, enqueue) (merge_into_lem task i t q e' at),
          )
    ]
  ]

  pub enqueue-quickfire :
      (task : OrderTask F) (q : OrderExecutionQueue F) (target : List ℕ × ℕ)
      → quickfire_target task q ≡ some target
      → enqueue task q ≡ coalesce task target q
  unfolding enqueue
  enqueue-quickfire task q target e = rw (e, enqueue)

  pub enqueue-merge :
      (task : OrderTask F) (i : ℕ) (t : OrderTask F) (q : OrderExecutionQueue F)
      → quickfire_target task q ≡ none
      → lookup (key_of task) q.pending_tasks ≡ some i
      → q.objects i ≡ some t
      → enqueue task q ≡ record q {
        objects = update q.objects i (merge task t);
        pending_tasks = rekey (key_of task) (key_of task) i q.pending_tasks;
      }
  unfolding enqueue
  enqueue-merge task i t q e e' e'' = rw (e, enqueue) (merge_into_lem task i t q e' e'')

  pub enqueue-new :
      (task : OrderTask F) (q : OrderExecutionQueue F)
      → quickfire_target task q ≡ none
      → lookup (key_of task) q.pending_tasks ≡ none
      → enqueue task q ≡ add task q
  unfolding enqueue
  enqueue-new task q e e' = rw (e, enqueue) (rw (e', merge_or_add))

  -- `enqueue` of a plain task keeps the bookkeeping valid: every pending entry still has its
  -- object, under the key that the object has now, and no object is pending twice.
  pub enqueue-IsValid :
      (task : OrderTask F) (q : OrderExecutionQueue F)
      → IsValid F fl py q
      → IsPlain task
      → IsValid F fl py (enqueue task q)
  enqueue-IsValid task q v p = elim (branch task q v p) [
    | inl e ↦ rw e (add-IsValid task q v p)
    | inr (old, i, t', here, ful, e) ↦
        rw (e, sym (Fulfils-key task t' ful))
          (write-IsValid q i old t' v here
            (subst (λ (x : List ℕ). All (λ c. c ≢ b':') x) (sym ful.0) p.0, rw ful.1 p.1))
  ]

  -- After `enqueue` of a plain task from valid bookkeeping, on every branch, the key of the task
  -- leads to a pending object that has the position, the action and the parameters of the task, and
  -- for a stop-loss a priority at least as urgent: of the merged intents the latest stands.
  pub enqueue-latest_intent :
      (task : OrderTask F) (q : OrderExecutionQueue F)
      → IsValid F fl py q
      → IsPlain task
      → (i : ℕ) × (t' : OrderTask F) × (lookup (key_of task) (enqueue task q).pending_tasks
          ≡ some i)
        × ((enqueue task q).objects i ≡ some t')
        × (t'.position_id ≡ task.position_id)
        × (t'.action ≡ task.action)
        × (t'.params ≡ task.params)
        × ((is_sl task.action ≡ false) ⊎ (rank t'.priority ≤ rank task.priority))
  enqueue-latest_intent task q v p = elim (branch task q v p) [
    | inl e ↦ (
      q.next_id,
      task,
      rw e (unfold add in lookup-insert_self (key_of task) q.next_id q.pending_tasks),
      rw e (unfold add in rw ((==_iff q.next_id q.next_id).1 refl)),
      refl,
      refl,
      refl,
      inr (omega arith),
    )
    | inr (old, i, t', here, ful, e) ↦ (
      i,
      t',
      rw e (lookup-rekey old (key_of task) i q.pending_tasks here),
      rw e (rw ((==_iff i i).1 refl)),
      ful.0,
      ful.1,
      ful.2,
      ful.3,
    )
  ]

  -- `enqueue` adds at most one item to the heap, and adds one only under a key that was not pending.
  pub enqueue-heap :
      (task : OrderTask F) (q : OrderExecutionQueue F)
      → ((enqueue task q).heap ≡ q.heap)
        ⊎ (((enqueue task q).heap ≡ q.heap ++ q.next_id ∷ [])
            × (lookup (key_of task) q.pending_tasks ≡ none))
  unfolding enqueue coalesce merge_or_add modify add
  enqueue-heap task q = ground arith

  -- `enqueue` leaves the loop alone and gives out no identity twice.
  pub enqueue-ids :
      (task : OrderTask F) (q : OrderExecutionQueue F)
      → ((enqueue task q).current ≡ q.current)
        × (q.next_id ≤ (enqueue task q).next_id)
        × ((((enqueue task q).heap ≡ q.heap) × ((enqueue task q).next_id ≡ q.next_id))
            ⊎ (((enqueue task q).heap ≡ q.heap ++ q.next_id ∷ [])
                × ((enqueue task q).next_id ≡ q.next_id + 1)))
  unfolding enqueue coalesce merge_or_add modify add
  enqueue-ids task q = ground arith
