-- ===== src/OutgoingInflight/Pop.antt =====
-- Which entries PopAckedInOrder takes and which it leaves.
use mathlib.Core.List.{Memᴰ}
use sky_tree.Common.{
  ℕ, true, false, ◌==◌, ==_iff, none, some, List, [], ◌∷◌, ◌++◌, mem_left, mem_right, mem_split,
  find, remove, number_key, IsMap, find-remove, find-remove_self, find-remove_ne, ◌≡◌, ◌≢◌, ◌⊎◌,
  refl, sym, ap, subst, ◌∙◌, arith, Bool-cases, inl, inr,
}
use sky_tree.OutgoingInflight.{Entry, Store, all, less, sort, pop_loop, pop_acked_in_order}
use sky_tree.OutgoingInflight.Order.{
  IsSorted, IsSorted-append, IsSorted-right, less_irrefl, sort-IsSorted, sort-mem, mem-sort,
}

-- An entry stands under its own identifier, and an identifier has one entry.
abbrev pub IsKeyed : Store → Type 0
IsKeyed s = IsMap s × ((id : ℕ) (e : Entry) → find id s ≡ some e → e.packet_id ≡ id)

find_≢ : (k id : ℕ) (s : Store) (e : Entry) → find k s ≡ none → find id s ≡ some e → k ≢ id
find_≢ k id s e n h q = cc (sym (subst (λ i. find i s ≡ none) q n) ∙ h)

find-head : (k : ℕ) (x : Entry) (s : Store) → find k ((k, x) ∷ s) ≡ some x
unfolding find
find-head k x s = ground (arith, ==_iff k k)

find-tail : (k id : ℕ) (x : Entry) (s : Store) → k ≢ id → find id ((k, x) ∷ s) ≡ find id s
unfolding find
find-tail k id x s h = ground (arith, ==_iff k id)

IsKeyed-tail : (k : ℕ) (x : Entry) (s : Store) → IsKeyed ((k, x) ∷ s) → IsKeyed s
IsKeyed-tail k x s ((n, m), own) =
    (m, λ id e h. own id e (find-tail k id x s (find_≢ k id s e n h) ∙ h))

all-find : (s : Store) (e : Entry) → IsKeyed s → Memᴰ e (all s) → find e.packet_id s ≡ some e
all-find [] e h m = elim m [ ]
all-find ((k, x) ∷ s) e h (Memᴰ.head q) =
    let own = h.1 k x (find-head k x s) in
    subst (λ y. find y.packet_id ((k, x) ∷ s) ≡ some y) (sym q)
      (subst (λ i. find i ((k, x) ∷ s) ≡ some x) (sym own) (find-head k x s))
all-find ((k, x) ∷ s) e h (Memᴰ.tail m) =
    let there = all-find s e (IsKeyed-tail k x s h) m in
    find-tail k e.packet_id x s (find_≢ k e.packet_id s e h.0.0 there) ∙ there

find-all : (s : Store) (id : ℕ) (e : Entry) → find id s ≡ some e → Memᴰ e (all s)
unfolding find
find-all [] id e h = absurd (cc h)
find-all ((k, x) ∷ s) id e h = elim (Bool-cases (k == id)) [
  | inl q ↦ let same : x ≡ e = ground arith in Memᴰ.head (sym same)
  | inr q ↦ Memᴰ.tail (find-all s id e (ground arith))
]

pop_loop-stop :
    (e : Entry) (es : List Entry) (s : Store) → e.acked ≡ false → pop_loop (e ∷ es) s ≡ ([], s)
unfolding pop_loop
pop_loop-stop e es s h = rw h refl

pop_loop-take :
    (e : Entry) (es : List Entry) (s : Store)
    → e.acked ≡ true
    → pop_loop (e ∷ es) s
      ≡ (e ∷ (pop_loop es (remove e.packet_id s)).0, (pop_loop es (remove e.packet_id s)).1)
unfolding pop_loop
pop_loop-take e es s h = rw h refl

-- The popped are a prefix; what is left of a sorted list starts with an entry not acknowledged.
pop_loop-prefix :
    (es : List Entry) (s : Store)
    → (rest : List Entry) × (es ≡ (pop_loop es s).0 ++ rest)
      × ((e : Entry) → Memᴰ e (pop_loop es s).0 → e.acked ≡ true)
      × ((rest ≡ []) ⊎ ((u : Entry) × (more : List Entry) × (rest ≡ u ∷ more) × (u.acked ≡ false)))
unfolding pop_loop
pop_loop-prefix [] s = ([], refl, (λ e m. elim m [ ]), inl refl)
pop_loop-prefix (e ∷ es) s = elim (Bool-cases e.acked) [
  | inr h ↦ rw (pop_loop-stop e es s h) (e ∷ es, refl, (λ x m. elim m [ ]), inr (e, es, refl, h))
  | inl h ↦
      let (rest, q, a, c) = pop_loop-prefix es (remove e.packet_id s) in
      rw (pop_loop-take e es s h) (rest, ap (λ l. e ∷ l) q, taken e es s h a, c)
]
  where
    taken :
        (e : Entry) (es : List Entry) (s : Store)
        → e.acked ≡ true
        → ((x : Entry) → Memᴰ x (pop_loop es (remove e.packet_id s)).0 → x.acked ≡ true)
        → (x : Entry) → Memᴰ x (e ∷ (pop_loop es (remove e.packet_id s)).0)
        → x.acked ≡ true
    taken e es s h a x (Memᴰ.head q) = subst (λ y. y.acked ≡ true) (sym q) h
    taken e es s h a x (Memᴰ.tail m) = a x m

abbrev pub remove_each : List Entry → Store → Store
remove_each [] s = s
remove_each (e ∷ es) s = remove_each es (remove e.packet_id s)

pub pop_loop-remove_each :
    (es : List Entry) (s : Store) → (pop_loop es s).1 ≡ remove_each (pop_loop es s).0 s
unfolding pop_loop
pop_loop-remove_each [] s = refl
pop_loop-remove_each (e ∷ es) s = elim (Bool-cases e.acked) [
  | inr h ↦ rw (pop_loop-stop e es s h) refl
  | inl h ↦ rw (pop_loop-take e es s h) (pop_loop-remove_each es (remove e.packet_id s))
]

remove_each-none :
    (es : List Entry) (id : ℕ) (s : Store) → find id s ≡ none → find id (remove_each es s) ≡ none
remove_each-none [] id s h = h
remove_each-none (e ∷ es) id s h =
    remove_each-none es id (remove e.packet_id s) (ground (arith, find-remove e.packet_id id s))

remove_each-gone :
    (es : List Entry) (e : Entry) (s : Store)
    → Memᴰ e es
    → find e.packet_id (remove_each es s) ≡ none
remove_each-gone [] e s m = elim m [ ]
remove_each-gone (x ∷ es) e s (Memᴰ.head q) =
    remove_each-none es e.packet_id (remove x.packet_id s) (
      subst (λ y. find y.packet_id (remove x.packet_id s) ≡ none) (sym q)
        (find-remove_self x.packet_id s))
remove_each-gone (x ∷ es) e s (Memᴰ.tail m) = remove_each-gone es e (remove x.packet_id s) m

remove_each-before :
    (es : List Entry) (id : ℕ) (u : Entry) (s : Store)
    → find id (remove_each es s) ≡ some u
    → find id s ≡ some u
remove_each-before [] id u s h = h
remove_each-before (e ∷ es) id u s h =
    let k = remove_each-before es id u (remove e.packet_id s) h in
    ground (arith, find-remove e.packet_id id s)

remove_each-kept :
    (es : List Entry) (id : ℕ) (s : Store)
    → ((e : Entry) → Memᴰ e es → e.packet_id ≢ id)
    → find id (remove_each es s) ≡ find id s
remove_each-kept [] id s h = refl
remove_each-kept (e ∷ es) id s h =
    remove_each-kept es id (remove e.packet_id s) (λ x m. h x (Memᴰ.tail m))
    ∙ find-remove_ne e.packet_id id s (h e (Memᴰ.head refl))

-- What is known of a pop: the sorted entries split into those popped and a rest.
abbrev Split : Store → List Entry → List Entry → Type 0
Split s out rest = (sort (all s) ≡ out ++ rest) × ((e : Entry) → Memᴰ e out → e.acked ≡ true)

module _ (s : Store) (keyed : IsKeyed s) (out rest : List Entry) (split : Split s out rest) where
  out-find : (e : Entry) → Memᴰ e out → find e.packet_id s ≡ some e
  out-find e m =
      all-find s e keyed
        (sort-mem e (all s) (subst (λ l. Memᴰ e l) (sym split.0) (mem_left e out rest m)))

  rest-find : (e : Entry) → Memᴰ e rest → find e.packet_id s ≡ some e
  rest-find e m =
      all-find s e keyed
        (sort-mem e (all s) (subst (λ l. Memᴰ e l) (sym split.0) (mem_right e out rest m)))

  -- An entry that is still there is in the rest.
  left-rest : (id : ℕ) (u : Entry) → find id (remove_each out s) ≡ some u → Memᴰ u rest
  left-rest id u h =
      let before = remove_each-before out id u s h in
      elim (mem_split u out rest
        (subst (λ l. Memᴰ u l) split.0 (mem-sort u (all s) (find-all s id u before)))) [
          | inr m ↦ m
          | inl m ↦
              let gone =
                subst (λ i. find i (remove_each out s) ≡ none) (keyed.1 id u before)
                  (remove_each-gone out u s m) in
              absurd (cc (sym gone ∙ h))
        ]

  out-before : (e u : Entry) → Memᴰ e out → Memᴰ u rest → less u e ≡ false
  out-before e u m k =
      IsSorted-append out rest e u (subst IsSorted split.0 (sort-IsSorted (all s))) m k

  waiting-left :
      (u : Entry) → Memᴰ u rest → u.acked ≡ false → find u.packet_id (remove_each out s) ≡ some u
  waiting-left u m h =
      remove_each-kept out u.packet_id s (λ e k q.
        let same : some e ≡ some u =
          sym (subst (λ i. find i s ≡ some e) q (out-find e k)) ∙ rest-find u m in
        let eq : e ≡ u = cc in cc (sym (subst (λ x. x.acked ≡ true) eq (split.1 e k)) ∙ h))
      ∙ rest-find u m

  rest-IsSorted : IsSorted rest
  rest-IsSorted = IsSorted-right out rest (subst IsSorted split.0 (sort-IsSorted (all s)))

  -- What blocks an entry that is left.
  blocker :
      (id : ℕ) (r : Entry)
      → (rest ≡ []) ⊎ ((u : Entry) × (more : List Entry) × (rest ≡ u ∷ more) × (u.acked ≡ false))
      → find id (remove_each out s) ≡ some r
      → (u : Entry) × (find u.packet_id (remove_each out s) ≡ some u)
        × (u.acked ≡ false)
        × (less r u ≡ false)
  blocker id r (inl e) h = elim (subst (λ l. Memᴰ r l) e (left-rest id r h)) [ ]
  blocker id r (inr (u, more, e, h)) k =
      let first = subst (λ l. Memᴰ u l) (sym e) (Memᴰ.head refl) in
      let order = subst IsSorted e rest-IsSorted in
      (
        u,
        waiting-left u first h,
        h,
        elim (subst (λ l. Memᴰ r l) e (left-rest id r k)) [
          | Memᴰ.head q ↦ subst (λ x. less x u ≡ false) (sym q) (less_irrefl u)
          | Memᴰ.tail m ↦ order.0 r m
        ],
      )

-- In a store whose entries stand under their own identifiers, `PopAckedInOrder` takes out entries of
-- the store that are acknowledged; none that is left comes before one of them in the order of
-- delivery; and each entry that is left comes no earlier than one that is left and not acknowledged.
pub pop_acked_in_order-prefix :
    (s : Store)
    → IsKeyed s
    → ((e : Entry)
        → Memᴰ e (pop_acked_in_order s).0
        → (e.acked ≡ true)
          × (find e.packet_id s ≡ some e)
          × (find e.packet_id (pop_acked_in_order s).1 ≡ none))
      × ((e u : Entry) (id : ℕ)
          → Memᴰ e (pop_acked_in_order s).0
          → find id (pop_acked_in_order s).1 ≡ some u
          → less u e ≡ false)
      × ((id : ℕ) (r : Entry)
          → find id (pop_acked_in_order s).1 ≡ some r
          → (u : Entry) × (find u.packet_id (pop_acked_in_order s).1 ≡ some u)
            × (u.acked ≡ false)
            × (less r u ≡ false))
unfolding pop_acked_in_order
pop_acked_in_order-prefix s keyed =
    let out = (pop_loop (sort (all s)) s).0 in
    let (rest, q, acks, front) = pop_loop-prefix (sort (all s)) s in
    let after = pop_loop-remove_each (sort (all s)) s in
    rw after (
      (λ e m. (acks e m, out-find s keyed out rest (q, acks) e m, remove_each-gone out e s m)),
      (λ e u id m h.
          out-before s keyed out rest (q, acks) e u m
            (left-rest s keyed out rest (q, acks) id u h)),
      λ id r h. blocker s keyed out rest (q, acks) id r front h,
    )
