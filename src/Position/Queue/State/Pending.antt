-- ===== src/Position/Queue/State/Pending.antt =====
-- The bookkeeping of pending tasks: its invariant, and what `enqueue` does with it on every branch.
use mathlib.Core.Bool.{false≢true}
use mathlib.Core.Path.{subst}
use adviser_ai_constructor.Prelude.{
  ℕ, ◌+◌, ◌<◌, ◌≤◌, ◌≡◌, ◌≢◌, refl, sym, ◌∙◌, true, false, inl, inr, Option, none, some, List, [],
  ◌∷◌, arith, All, All-append, ◌==◌, ==_iff, Bool-cases, is_some,
}
use adviser_ai_constructor.Float.{Float}
use adviser_ai_constructor.Text.{text_eq, text_eq_iff}
use adviser_ai_constructor.Position.Queue.Task.{Format, OrderTask, key_of, is_known}
use adviser_ai_constructor.Position.Queue.State.{
  Pending, lookup, pop, OrderExecutionQueue, update, rekey, add, find_quickfire, is_quickfire_at,
}
use adviser_ai_constructor.Position.Queue.State.Dict.{
  has_id, Linked, has_id-pop_self, lookup-Linked, Linked-insert, Linked-map, Linked-pop,
  has_id-fresh,
}

module _ {F : Type 0} ⦃fl : Float F⦄ ⦃py : Format F⦄ where
  -- The key of the object with this identity.
  abbrev pub key_at : (ℕ → Option (OrderTask F)) → ℕ → Option (List ℕ)
  key_at objects i = elim (objects i) [ none ↦ none | some t ↦ some (key_of t) ]

  -- Identities below the next one, that have an object.
  abbrev pub InUse : OrderExecutionQueue F → ℕ → Type 0
  InUse q i = (i < q.next_id) × (is_some (q.objects i) ≡ true)

-- The position's id holds no colon, and the action is one of the seven.
abbrev pub IsPlain : {F : Type 0} → OrderTask F → Type 0
IsPlain task = All (λ c. c ≢ b':') task.position_id × (is_known task.action ≡ true)

abbrev pub held_ids : Option (ℕ × List ℕ) → List ℕ
held_ids none = []
held_ids (some c) = c.0 ∷ []

-- Every pending entry has its object, under the key that the object has now; no key and no object
-- is pending twice; the heap and the loop hold objects; the objects are plain.
pub record IsValid (F : Type 0) (fl : Float F) (py : Format F) (q : OrderExecutionQueue F)
    : Type 0 where
  pub linked : Linked (key_at ⦃fl = fl⦄ ⦃py = py⦄ q.objects) q.next_id q.pending_tasks
  pub in_use : All (InUse ⦃fl = fl⦄ ⦃py = py⦄ q) q.heap
  pub held : All (InUse ⦃fl = fl⦄ ⦃py = py⦄ q) (held_ids q.current)
  pub plain : (i : ℕ) (t : OrderTask F) → q.objects i ≡ some t → IsPlain t

module _ {F : Type 0} ⦃fl : Float F⦄ ⦃py : Format F⦄ where
  pub find_quickfire-lookup :
      (objects : ℕ → Option (OrderTask F)) (p : List ℕ) (now : F) (n : ℕ) (d : Pending) {k : List ℕ}
      {i : ℕ}
      → Linked (key_at objects) n d
      → find_quickfire objects p now d ≡ some (k, i)
      → (lookup k d ≡ some i) × (is_quickfire_at objects p now i ≡ true)
  unfolding find_quickfire lookup
  find_quickfire-lookup objects p now n [] h e = cc
  find_quickfire-lookup objects p now n ((l, j) ∷ d) {k = k} {i = i} h e = ground (
    arith,
    find_quickfire-lookup objects p now n d {k = k} {i = i},
    text_eq_iff l k,
    text_eq_iff l l,
  )

  key_at-update_self :
      (objects : ℕ → Option (OrderTask F)) (i : ℕ) (t : OrderTask F)
      → key_at (update objects i t) i ≡ some (key_of t)
  key_at-update_self objects i t = rw ((==_iff i i).1 refl, key_at)

  key_at-update_ne :
      (objects : ℕ → Option (OrderTask F)) (i j : ℕ) (t : OrderTask F)
      → (j == i) ≡ false
      → key_at (update objects i t) j ≡ key_at objects j
  key_at-update_ne objects i j t ne = rw (ne, key_at)

  -- Writing an object that keeps its key keeps the links.
  pub Linked-update_same :
      (objects : ℕ → Option (OrderTask F)) (n i : ℕ) (t' : OrderTask F) (d : Pending)
      → key_at objects i ≡ some (key_of t')
      → Linked (key_at objects) n d
      → Linked (key_at (update objects i t')) n d
  Linked-update_same objects n i t' d e h =
      Linked-map (key_at objects) (key_at (update objects i t')) n n d (omega arith)
        (λ j _. elim (Bool-cases (j == i)) [
          | inl same ↦ rw ((==_iff j i).0 same) (key_at-update_self objects i t' ∙ sym e)
          | inr other ↦ key_at-update_ne objects i j t' other
        ])
        h

  -- So does writing an object that is not pending.
  Linked-update_new :
      (objects : ℕ → Option (OrderTask F)) (n n' i : ℕ) (t' : OrderTask F) (d : Pending)
      → n ≤ n'
      → has_id i d ≡ false
      → Linked (key_at objects) n d
      → Linked (key_at (update objects i t')) n' d
  Linked-update_new objects n n' i t' d le new h =
      Linked-map (key_at objects) (key_at (update objects i t')) n n' d le
        (λ j e. elim (Bool-cases (j == i)) [
          | inl same ↦ absurd (false≢true (sym new ∙ (rw ((==_iff j i).0 same) at e)))
          | inr other ↦ key_at-update_ne objects i j t' other
        ])
        h

  rekey-Linked :
      (objects : ℕ → Option (OrderTask F)) (n i : ℕ) (old : List ℕ) (t' : OrderTask F) (d : Pending)
      → Linked (key_at objects) n d
      → lookup old d ≡ some i
      → Linked (key_at (update objects i t')) n (rekey old (key_of t') i d)
  unfolding rekey
  rekey-Linked objects n i old t' d h e = elim (Bool-cases (text_eq (key_of t') old)) [
    | inl same ↦ rw same (
        Linked-update_same objects n i t' d
          (ground
            (arith, lookup-Linked (key_at objects) n i old d h e, text_eq_iff (key_of t') old))
          h)
    | inr other ↦ rw other (
        Linked-insert (key_at (update objects i t')) n i (key_of t') (pop old d)
          (Linked-update_new objects n n i t' (pop old d) (omega arith)
            (has_id-pop_self (key_at objects) n i old d h e)
            (Linked-pop (key_at objects) n old d h))
          (has_id-pop_self (key_at objects) n i old d h e)
          (lookup-Linked (key_at objects) n i old d h e).0 (key_at-update_self objects i t'))
  ]

  pub update-IsPlain :
      (objects : ℕ → Option (OrderTask F)) (i : ℕ) (t' : OrderTask F)
      → IsPlain t'
      → ((j : ℕ) (t : OrderTask F) → objects j ≡ some t → IsPlain t)
      → (j : ℕ) (t : OrderTask F) → update objects i t' j ≡ some t
      → IsPlain t
  update-IsPlain objects i t' p h j t e = elim (Bool-cases (j == i)) [
    | inl same ↦
        let here : some t' ≡ some t = (rw same at e) in
        let eq : t' ≡ t = cc in subst (λ (x : OrderTask F). IsPlain x) eq p
    | inr other ↦ h j t (rw other at e)
  ]

  -- A write keeps the objects of the heap in use, also where it adds an identity.
  pub update-in_use :
      (objects : ℕ → Option (OrderTask F)) (n n' i : ℕ) (t' : OrderTask F) (ids : List ℕ)
      → n ≤ n'
      → All (λ j. (j < n) × (is_some (objects j) ≡ true)) ids
      → All (λ j. (j < n') × (is_some (update objects i t' j) ≡ true)) ids
  update-in_use objects n n' i t' [] le h = tt
  update-in_use objects n n' i t' (j ∷ ids) le h = (
    (
      omega arith,
      elim (Bool-cases (j == i)) [ inl same ↦ rw same refl | inr other ↦ rw other h.0.1 ],
    ),
    update-in_use objects n n' i t' ids le h.1,
  )

  -- A pending object is rewritten, and its entry moves to its new key.
  pub write-IsValid :
      (q : OrderExecutionQueue F) (i : ℕ) (old : List ℕ) (t' : OrderTask F)
      → IsValid F fl py q
      → lookup old q.pending_tasks ≡ some i
      → IsPlain t'
      → IsValid F fl py (record q {
        objects = update q.objects i t';
        pending_tasks = rekey old (key_of t') i q.pending_tasks;
      })
  write-IsValid q i old t' v e p = record {
    linked = rekey-Linked q.objects q.next_id i old t' q.pending_tasks v.linked e;
    in_use = update-in_use q.objects q.next_id q.next_id i t' q.heap (omega arith) v.in_use;
    held =
        update-in_use q.objects q.next_id q.next_id i t' (held_ids q.current) (omega arith) v.held;
    plain = update-IsPlain q.objects i t' p v.plain;
  }

  pub add-IsValid :
      (task : OrderTask F) (q : OrderExecutionQueue F)
      → IsValid F fl py q
      → IsPlain task
      → IsValid F fl py (add task q)
  unfolding add
  add-IsValid task q v p =
      let fresh =
        has_id-fresh (key_at q.objects) q.next_id q.next_id q.pending_tasks v.linked
          (omega arith) in
      record {
        linked =
            Linked-insert (key_at (update q.objects q.next_id task)) (q.next_id + 1) q.next_id
              (key_of task) q.pending_tasks
              (Linked-update_new q.objects q.next_id (q.next_id + 1) q.next_id task q.pending_tasks
                (omega arith) fresh v.linked)
              fresh (omega arith) (key_at-update_self q.objects q.next_id task);
        in_use =
            All-append _ q.heap (q.next_id ∷ [])
              (update-in_use q.objects q.next_id (q.next_id + 1) q.next_id task q.heap (omega arith)
                v.in_use)
              ((omega arith, rw ((==_iff q.next_id q.next_id).1 refl) refl), tt);
        held =
            update-in_use q.objects q.next_id (q.next_id + 1) q.next_id task (held_ids q.current)
              (omega arith) v.held;
        plain = update-IsPlain q.objects q.next_id task p v.plain;
      }
