-- ===== src/OutgoingInflight/Order.antt =====
-- The order of delivery and sorting by it.
use mathlib.Core.List.{Memᴰ}
use sky_tree.Common.{
  true, false, List, [], ◌∷◌, ◌++◌, mem_right, ◌≡◌, ◌⊎◌, refl, sym, subst, arith, Bool-cases, inl,
  inr,
}
use sky_tree.Mqtt5.Properties.{Bytes}
use sky_tree.Topic.Levels.{bytes_before}
use sky_tree.OutgoingInflight.{Entry, less, place, sort}

bytes_before-asym : (a b : Bytes) → bytes_before a b ≡ true → bytes_before b a ≡ false
unfolding bytes_before
bytes_before-asym [] [] h = refl
bytes_before-asym [] (_ ∷ _) h = refl
bytes_before-asym (_ ∷ _) [] h = cc
bytes_before-asym (x ∷ a) (y ∷ b) h = ground (arith, bytes_before-asym a b)

bytes_before-between :
    (a b c : Bytes) → bytes_before a b ≡ false → bytes_before b c ≡ false → bytes_before a c ≡ false
unfolding bytes_before
bytes_before-between [] [] c h k = k
bytes_before-between [] (_ ∷ _) c h k = cc
bytes_before-between (_ ∷ _) [] [] h k = refl
bytes_before-between (_ ∷ _) [] (_ ∷ _) h k = cc
bytes_before-between (_ ∷ _) (_ ∷ _) [] h k = refl
bytes_before-between (x ∷ a) (y ∷ b) (z ∷ c) h k = ground (arith, bytes_before-between a b c)

less-asym : (a b : Entry) → less a b ≡ true → less b a ≡ false
unfolding less
less-asym a b h = ground (arith, bytes_before-asym a.task_id b.task_id)

pub less-between : (a b c : Entry) → less a b ≡ false → less b c ≡ false → less a c ≡ false
unfolding less
less-between a b c h k = ground (arith, bytes_before-between a.task_id b.task_id c.task_id)

pub less_irrefl : (a : Entry) → less a a ≡ false
less_irrefl a = elim (Bool-cases (less a a)) [ inl h ↦ less-asym a a h | inr h ↦ h ]

-- No later entry comes before an earlier one.
abbrev pub IsSorted : List Entry → Type 0
IsSorted [] = Unit
IsSorted (x ∷ xs) = ((y : Entry) → Memᴰ y xs → less y x ≡ false) × IsSorted xs

place-later : (e x : Entry) (xs : List Entry) → less x e ≡ true → place e (x ∷ xs) ≡ x ∷ place e xs
unfolding place
place-later e x xs h = rw h refl

place-here : (e x : Entry) (xs : List Entry) → less x e ≡ false → place e (x ∷ xs) ≡ e ∷ (x ∷ xs)
unfolding place
place-here e x xs h = rw h refl

in_cons : (y e : Entry) (xs : List Entry) → Memᴰ y (e ∷ xs) → (y ≡ e) ⊎ Memᴰ y xs
in_cons y e xs (Memᴰ.head q) = inl q
in_cons y e xs (Memᴰ.tail m) = inr m

place-mem : (e y : Entry) (xs : List Entry) → Memᴰ y (place e xs) → (y ≡ e) ⊎ Memᴰ y xs
unfolding place
place-mem e y [] m = in_cons y e [] m
place-mem e y (x ∷ xs) m = elim (Bool-cases (less x e)) [
  | inr h ↦ in_cons y e (x ∷ xs) (subst (λ l. Memᴰ y l) (place-here e x xs h) m)
  | inl h ↦ elim (in_cons y x (place e xs) (subst (λ l. Memᴰ y l) (place-later e x xs h) m)) [
    | inl q ↦ inr (Memᴰ.head q)
    | inr k ↦ elim (place-mem e y xs k) [ inl q ↦ inl q | inr j ↦ inr (Memᴰ.tail j) ]
  ]
]

mem-place : (e y : Entry) (xs : List Entry) → (y ≡ e) ⊎ Memᴰ y xs → Memᴰ y (place e xs)
unfolding place
mem-place e y [] (inl q) = Memᴰ.head q
mem-place e y [] (inr m) = elim m [ ]
mem-place e y (x ∷ xs) m = elim (Bool-cases (less x e)) [
  | inr h ↦
      subst (λ l. Memᴰ y l) (sym (place-here e x xs h))
        (elim m [ inl q ↦ Memᴰ.head q | inr k ↦ Memᴰ.tail k ])
  | inl h ↦
      subst (λ l. Memᴰ y l) (sym (place-later e x xs h))
        (elim m [
          | inl q ↦ Memᴰ.tail (mem-place e y xs (inl q))
          | inr k ↦ elim (in_cons y x xs k) [
            | inl q ↦ Memᴰ.head q
            | inr j ↦ Memᴰ.tail (mem-place e y xs (inr j))
          ]
        ])
]

place-IsSorted : (e : Entry) (xs : List Entry) → IsSorted xs → IsSorted (place e xs)
unfolding place
place-IsSorted e [] h = ((λ y m. elim m [ ]), tt)
place-IsSorted e (x ∷ xs) (h, k) = elim (Bool-cases (less x e)) [
  | inl l ↦ subst IsSorted (sym (place-later e x xs l)) (
    (λ y m. elim (place-mem e y xs m) [
      | inl q ↦ subst (λ z. less z x ≡ false) (sym q) (less-asym x e l)
      | inr j ↦ h y j
    ]),
    place-IsSorted e xs k,
  )
  | inr l ↦ subst IsSorted (sym (place-here e x xs l)) (
    (λ y m. elim (in_cons y x xs m) [
      | inl q ↦ subst (λ z. less z e ≡ false) (sym q) l
      | inr j ↦ less-between y x e (h y j) l
    ]),
    (h, k),
  )
]

pub sort-IsSorted : (xs : List Entry) → IsSorted (sort xs)
unfolding sort
sort-IsSorted [] = tt
sort-IsSorted (e ∷ es) = place-IsSorted e (sort es) (sort-IsSorted es)

pub sort-mem : (y : Entry) (xs : List Entry) → Memᴰ y (sort xs) → Memᴰ y xs
unfolding sort
sort-mem y [] m = m
sort-mem y (e ∷ es) m = elim (place-mem e y (sort es) m) [
  | inl q ↦ Memᴰ.head q
  | inr k ↦ Memᴰ.tail (sort-mem y es k)
]

pub mem-sort : (y : Entry) (xs : List Entry) → Memᴰ y xs → Memᴰ y (sort xs)
unfolding sort
mem-sort y [] m = m
mem-sort y (e ∷ es) (Memᴰ.head q) = mem-place e y (sort es) (inl q)
mem-sort y (e ∷ es) (Memᴰ.tail m) = mem-place e y (sort es) (inr (mem-sort y es m))

pub IsSorted-append :
    (xs ys : List Entry) (x y : Entry)
    → IsSorted (xs ++ ys)
    → Memᴰ x xs
    → Memᴰ y ys
    → less y x ≡ false
IsSorted-append [] ys x y h m k = elim m [ ]
IsSorted-append (z ∷ xs) ys x y h (Memᴰ.head q) k =
    subst (λ w. less y w ≡ false) (sym q) (h.0 y (mem_right y xs ys k))
IsSorted-append (z ∷ xs) ys x y h (Memᴰ.tail m) k = IsSorted-append xs ys x y h.1 m k

pub IsSorted-right : (xs ys : List Entry) → IsSorted (xs ++ ys) → IsSorted ys
IsSorted-right [] ys h = h
IsSorted-right (x ∷ xs) ys h = IsSorted-right xs ys h.1
