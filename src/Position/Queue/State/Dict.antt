-- ===== src/Position/Queue/State/Dict.antt =====
-- Laws of the dict of pending tasks, for any map from identities to keys.
use adviser_ai_constructor.Prelude.{
  ==_iff, ℕ, ◌<◌, ◌≤◌, ◌≡◌, ◌≢◌, refl, Bool, true, false, Option, none, some, List, [], ◌∷◌, ◌++◌,
  arith, ◌==◌, if◌then◌else◌,
}
use adviser_ai_constructor.Text.{text_eq_iff}
use adviser_ai_constructor.Position.Queue.State.{Pending, lookup, pop, insert, mem_id}

unfoldable pub has_id : ℕ → Pending → Bool
has_id i [] = false
has_id i ((k, j) ∷ d) = if j == i then true else has_id i d

-- Each entry's identity is in use and has the entry's key; keys and identities stand once.
abbrev pub Linked : (ℕ → Option (List ℕ)) → ℕ → Pending → Type 0
Linked g n [] = Unit
Linked g n ((k, i) ∷ d) =
    (i < n) × (g i ≡ some k) × (lookup k d ≡ none) × (has_id i d ≡ false) × Linked g n d

pub lookup-pop_ne : (j k : List ℕ) (d : Pending) → j ≢ k → lookup j (pop k d) ≡ lookup j d
unfolding lookup pop
lookup-pop_ne j k [] h = refl
lookup-pop_ne j k ((l, i) ∷ d) h =
    ground (arith, text_eq_iff l k, text_eq_iff l j, lookup-pop_ne j k d h)

pub lookup-pop-none : (j k : List ℕ) (d : Pending) → lookup j d ≡ none → lookup j (pop k d) ≡ none
unfolding lookup pop
lookup-pop-none j k [] h = refl
lookup-pop-none j k ((l, i) ∷ d) h = ground (arith, lookup-pop-none j k d)

pub has_id-pop :
    (i : ℕ) (k : List ℕ) (d : Pending) → has_id i d ≡ false → has_id i (pop k d) ≡ false
unfolding has_id pop
has_id-pop i k [] h = refl
has_id-pop i k ((l, j) ∷ d) h = ground (arith, has_id-pop i k d)

pub Linked-pop :
    (g : ℕ → Option (List ℕ)) (n : ℕ) (k : List ℕ) (d : Pending)
    → Linked g n d
    → Linked g n (pop k d)
unfolding pop
Linked-pop g n k [] h = tt
Linked-pop g n k ((l, i) ∷ d) h =
    ground (arith, Linked-pop g n k d, lookup-pop-none l k d, has_id-pop i k d)

pub lookup-has_id : (i : ℕ) (k : List ℕ) (d : Pending) → lookup k d ≡ some i → has_id i d ≡ true
unfolding has_id lookup
lookup-has_id i k [] h = cc
lookup-has_id i k ((l, j) ∷ d) h = ground (arith, lookup-has_id i k d)

-- After the entry of a key is popped, its identity is in no other entry.
pub has_id-pop_self :
    (g : ℕ → Option (List ℕ)) (n i : ℕ) (k : List ℕ) (d : Pending)
    → Linked g n d
    → lookup k d ≡ some i
    → has_id i (pop k d) ≡ false
unfolding has_id pop lookup
has_id-pop_self g n i k [] h e = refl
has_id-pop_self g n i k ((l, j) ∷ d) h e =
    ground (arith, has_id-pop_self g n i k d, lookup-has_id i k d)

pub lookup-Linked :
    (g : ℕ → Option (List ℕ)) (n i : ℕ) (k : List ℕ) (d : Pending)
    → Linked g n d
    → lookup k d ≡ some i
    → (i < n) × (g i ≡ some k)
unfolding lookup
lookup-Linked g n i k [] h e = cc
lookup-Linked g n i k ((l, j) ∷ d) h e = ground (arith, lookup-Linked g n i k d, text_eq_iff l k)

pub lookup-insert_self : (k : List ℕ) (i : ℕ) (d : Pending) → lookup k (insert k i d) ≡ some i
unfolding lookup insert
lookup-insert_self k i [] = ground (arith, text_eq_iff k k)
lookup-insert_self k i ((l, j) ∷ d) =
    ground (arith, lookup-insert_self k i d, text_eq_iff l k, text_eq_iff k k)

pub lookup-insert_ne :
    (j k : List ℕ) (i : ℕ) (d : Pending) → k ≢ j → lookup j (insert k i d) ≡ lookup j d
unfolding lookup insert
lookup-insert_ne j k i [] h = ground (arith, text_eq_iff k j)
lookup-insert_ne j k i ((l, m) ∷ d) h =
    ground (arith, lookup-insert_ne j k i d h, text_eq_iff l k, text_eq_iff l j, text_eq_iff k j)

pub has_id-insert :
    (m i : ℕ) (k : List ℕ) (d : Pending)
    → m ≢ i
    → has_id m d ≡ false
    → has_id m (insert k i d) ≡ false
unfolding has_id insert
has_id-insert m i k [] ne h = ground arith
has_id-insert m i k ((l, j) ∷ d) ne h = ground (arith, has_id-insert m i k d ne)

pub Linked-insert :
    (g : ℕ → Option (List ℕ)) (n i : ℕ) (k : List ℕ) (d : Pending)
    → Linked g n d
    → has_id i d ≡ false
    → i < n
    → g i ≡ some k
    → Linked g n (insert k i d)
unfolding insert lookup has_id
Linked-insert g n i k [] h new lt e = ground arith
Linked-insert g n i k ((l, j) ∷ d) h new lt e = ground (
  arith,
  text_eq_iff l k,
  text_eq_iff k l,
  Linked-insert g n i k d,
  lookup-insert_ne l k i d,
  has_id-insert j i k d,
)

-- Another map and a higher bound, where the map agrees on the identities that stand in the dict.
pub Linked-map :
    (g g' : ℕ → Option (List ℕ)) (n n' : ℕ) (d : Pending)
    → n ≤ n'
    → ((j : ℕ) → has_id j d ≡ true → g' j ≡ g j)
    → Linked g n d
    → Linked g' n' d
unfolding has_id
Linked-map g g' n n' [] le agree h = tt
Linked-map g g' n n' ((l, j) ∷ d) le agree h =
    ground (arith, agree j, Linked-map g g' n n' d le (λ m e. agree m (ground arith)))

-- Identities at the bound and above stand nowhere.
pub has_id-fresh :
    (g : ℕ → Option (List ℕ)) (n m : ℕ) (d : Pending) → Linked g n d → n ≤ m → has_id m d ≡ false
unfolding has_id
has_id-fresh g n m [] h le = refl
has_id-fresh g n m ((l, j) ∷ d) h le = ground (arith, has_id-fresh g n m d h.4 le)

-- An identity that is put last stands in the list.
pub mem_id-last : (n : ℕ) (ids : List ℕ) → mem_id n (ids ++ n ∷ []) ≡ true
unfolding mem_id
mem_id-last n [] = ground arith
mem_id-last n (i ∷ ids) = ground (arith, mem_id-last n ids)

pub mem_id-append : (i j : ℕ) (is : List ℕ) → mem_id i is ≡ true → mem_id i (is ++ j ∷ []) ≡ true
unfolding mem_id
mem_id-append i j [] h = cc
mem_id-append i j (k ∷ is) h = ground (arith, mem_id-append i j is)

pub mem_id-append_ne :
    (i j : ℕ) (is : List ℕ) → mem_id i is ≡ false → i ≢ j → mem_id i (is ++ j ∷ []) ≡ false
unfolding mem_id
mem_id-append_ne i j [] h ne = ground arith
mem_id-append_ne i j (k ∷ is) h ne = ground (arith, mem_id-append_ne i j is)

-- No identity twice
abbrev pub IsOnce : List ℕ → Type 0
IsOnce [] = Unit {0}
IsOnce (i ∷ is) = (mem_id i is ≡ false) × IsOnce is

pub IsOnce-append : (j : ℕ) (is : List ℕ) → IsOnce is → mem_id j is ≡ false → IsOnce (is ++ j ∷ [])
unfolding mem_id
IsOnce-append j [] h new = ground arith
IsOnce-append j (i ∷ is) h new =
    ground (arith, IsOnce-append j is, mem_id-append_ne i j is, ==_iff i j)
