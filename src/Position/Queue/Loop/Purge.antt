-- ===== src/Position/Queue/Loop/Purge.antt =====
-- `purge_pending`: what it takes from the pending tasks, and what it leaves.
use adviser_ai_constructor.Prelude.{
  ℕ, ◌≡◌, ◌≢◌, ◌↔◌, refl, Bool, true, false, ◌⊎◌, Option, none, some, List, [], ◌∷◌, ◌++◌, arith,
  All, if◌then◌else◌,
}
use adviser_ai_constructor.Float.{Float}
use adviser_ai_constructor.Text.{text_eq_iff}
use adviser_ai_constructor.Position.Queue.Task.{Format, OrderTask, Action, key_of}
use adviser_ai_constructor.Position.Queue.Task.Key.{task_key-position}
use adviser_ai_constructor.Position.Queue.State.{Pending, lookup, mem_key, OrderExecutionQueue}
use adviser_ai_constructor.Position.Queue.State.Dict.{has_id, Linked, lookup-Linked}
use adviser_ai_constructor.Position.Queue.State.Pending.{key_at, IsPlain, IsValid}
use adviser_ai_constructor.Position.Queue.Loop.{is_purged, split_pending, purge_pending}

module _ {F : Type 0} ⦃fl : Float F⦄ ⦃py : Format F⦄ (objects : ℕ → Option (OrderTask F))
    (p : List ℕ) (actions : Action → Bool) where
  -- An entry is purged exactly if its object is a task of the position with one of the actions.
  pub is_purged_iff :
      (n i : ℕ) (k : List ℕ) (t : OrderTask F)
      → objects i ≡ some t
      → key_of t ≡ k
      → All (λ c. c ≢ b':') p
      → IsPlain t
      → (is_purged objects p actions (k, i) ≡ true)
        ↔ ((t.position_id ≡ p) × (actions t.action ≡ true))
  unfolding is_purged
  is_purged_iff n i k t at e hp ht =
      let position = task_key-position p t.position_id t.action t.params hp ht.0 in
      ground (arith, position)

  lookup-split_none :
      (k : List ℕ) (d : Pending)
      → lookup k d ≡ none
      → lookup k (split_pending objects p actions d).0 ≡ none
  unfolding lookup split_pending
  lookup-split_none k [] h = refl
  lookup-split_none k ((l, i) ∷ d) h = ground (arith, lookup-split_none k d)

  -- What stays is what is not purged.
  pub lookup-split :
      (g : ℕ → Option (List ℕ)) (n : ℕ) (k : List ℕ) (d : Pending)
      → Linked g n d
      → lookup k (split_pending objects p actions d).0 ≡ (elim (lookup k d) [
        | none ↦ none
        | some i ↦ if is_purged objects p actions (k, i) then none else some i
      ])
  unfolding lookup split_pending
  lookup-split g n k [] h = refl
  lookup-split g n k ((l, i) ∷ d) h =
      ground (arith, lookup-split g n k d, lookup-split_none l d, text_eq_iff l k)

  has_id-split :
      (i : ℕ) (d : Pending)
      → has_id i d ≡ false
      → has_id i (split_pending objects p actions d).0 ≡ false
  unfolding has_id split_pending
  has_id-split i [] h = refl
  has_id-split i ((l, j) ∷ d) h = ground (arith, has_id-split i d)

  split-Linked :
      (g : ℕ → Option (List ℕ)) (n : ℕ) (d : Pending)
      → Linked g n d
      → Linked g n (split_pending objects p actions d).0
  unfolding split_pending has_id
  split-Linked g n [] h = tt
  split-Linked g n ((l, i) ∷ d) h =
      ground (arith, split-Linked g n d, lookup-split_none l d, has_id-split i d)

  pub mem-split :
      (k : List ℕ) (i : ℕ) (d : Pending)
      → lookup k d ≡ some i
      → is_purged objects p actions (k, i) ≡ true
      → mem_key k (split_pending objects p actions d).1 ≡ true
  unfolding lookup split_pending mem_key
  mem-split k i [] h e = cc
  mem-split k i ((l, j) ∷ d) h e = ground (arith, mem-split k i d, text_eq_iff l k, text_eq_iff l l)

pub mem_key-append :
    (k : List ℕ) (ks ls : List (List ℕ)) → mem_key k ls ≡ true → mem_key k (ks ++ ls) ≡ true
unfolding mem_key
mem_key-append k [] ls h = h
mem_key-append k (l ∷ ks) ls h = ground (arith, mem_key-append k ks ls h)

module _ {F : Type 0} ⦃fl : Float F⦄ ⦃py : Format F⦄ where
  -- In valid bookkeeping, every other pending task stays pending: those of other positions, and
  -- those with other actions, where the id of the purged position has no colon.
  purge-keeps :
      (p : List ℕ) (actions : Action → Bool) (q : OrderExecutionQueue F) (k : List ℕ) (i : ℕ)
      (t : OrderTask F)
      → IsValid F fl py q
      → All (λ c. c ≢ b':') p
      → lookup k q.pending_tasks ≡ some i
      → q.objects i ≡ some t
      → (t.position_id ≢ p) ⊎ (actions t.action ≡ false)
      → lookup k (purge_pending p actions q).0.pending_tasks ≡ some i
  unfolding purge_pending
  purge-keeps p actions q k i t v hp here at other =
      let linked = lookup-Linked (key_at q.objects) q.next_id i k q.pending_tasks v.linked here in
      let same : key_of t ≡ k = ground arith in
      let purged = is_purged_iff q.objects p actions q.next_id i k t at same hp (v.plain i t at) in
      ground (
        arith,
        purged,
        lookup-split q.objects p actions (key_at q.objects) q.next_id k q.pending_tasks v.linked,
      )

  -- The purge keeps the bookkeeping valid.
  pub purge-IsValid :
      (p : List ℕ) (actions : Action → Bool) (q : OrderExecutionQueue F)
      → IsValid F fl py q
      → IsValid F fl py (purge_pending p actions q).0
  unfolding purge_pending
  purge-IsValid p actions q v = record {
    linked = split-Linked q.objects p actions (key_at q.objects) q.next_id q.pending_tasks v.linked;
    in_use = v.in_use;
    held = v.held;
    plain = v.plain;
  }
