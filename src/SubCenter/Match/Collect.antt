-- ===== src/SubCenter/Match/Collect.antt =====
-- What `matchTopicClientV2` collects for a client: in the order of the visits, the client's option at
-- each visited node.
use mathlib.Core.List.{Memᴰ}
use sky_tree.Common.{
  Option, none, some, List, [], ◌∷◌, ◌++◌, append_assoc, append-nil, same_bytes, same_bytes-eq,
  find, insert, bytes_key, find-insert, IsMap, ◌≡◌, refl, sym, subst, Bool-cases, inl, inr,
  mem_left, mem_right, mem_split,
}
use sky_tree.Mqtt5.Properties.{Bytes}
use sky_tree.SubCenter.Tree.{SubOption, Clients, TreeNode, clients_of}
use sky_tree.SubCenter.Match.{
  MatchedSubscription, Matched, matched_of, matched_subscription_from_option,
  append_matched_node_clients, append_matched_nodes,
}

abbrev pub entry : Option SubOption → List MatchedSubscription
entry none = []
entry (some o) = matched_subscription_from_option o ∷ []

abbrev pub entries : Bytes → List TreeNode → List MatchedSubscription
entries client [] = []
entries client (n ∷ ns) = entry (find client (clients_of n)) ++ entries client ns

collected-node :
    (cs : Clients) (client : Bytes) (result : Matched)
    → IsMap cs
    → matched_of (find client (append_matched_node_clients cs result))
      ≡ matched_of (find client result) ++ entry (find client cs)
unfolding append_matched_node_clients find
collected-node [] client result h = sym (append-nil (matched_of (find client result)))
collected-node ((k, option) ∷ rest) client result (a, h) =
    let old = matched_of (find k result) in
    let new = matched_subscription_from_option option ∷ [] in
    let later = collected-node rest client (insert k (old ++ new) result) h in
    let stored = find-insert k client (old ++ new) result in
    elim (Bool-cases (same_bytes k client)) [
      | inl q ↦
          let same = same_bytes-eq k client q in
          let gone : find client rest ≡ none = subst (λ x. find x rest ≡ none) same a in
          let here : matched_of (find client result) ≡ old =
            subst (λ x. matched_of (find x result) ≡ old) same refl in
          rw (later, stored, q, gone, here) (append-nil (old ++ new))
      | inr q ↦ rw (later, stored, q) refl
    ]

pub collected :
    (ns : List TreeNode) (client : Bytes) (result : Matched)
    → ((n : TreeNode) → Memᴰ n ns → IsMap (clients_of n))
    → matched_of (find client (append_matched_nodes ns result))
      ≡ matched_of (find client result) ++ entries client ns
unfolding append_matched_nodes
collected [] client result h = sym (append-nil (matched_of (find client result)))
collected (n ∷ ns) client result h =
    rw
      (
        collected ns client (append_matched_node_clients (clients_of n) result)
            (λ k m. h k (Memᴰ.tail m)),
        collected-node (clients_of n) client result (h n (Memᴰ.head refl)),
      )
      (append_assoc (matched_of (find client result)) (entry (find client (clients_of n)))
        (entries client ns))

entry-mem :
    (o : Option SubOption) (m : MatchedSubscription)
    → Memᴰ m (entry o)
    → (x : SubOption) × (o ≡ some x) × (m ≡ matched_subscription_from_option x)
entry-mem none m i = elim i [ ]
entry-mem (some x) m (Memᴰ.head e) = (x, refl, e)
entry-mem (some x) m (Memᴰ.tail i) = elim i [ ]

pub entries-mem :
    (client : Bytes) (ns : List TreeNode) (m : MatchedSubscription)
    → Memᴰ m (entries client ns)
    → (n : TreeNode) × (x : SubOption) × Memᴰ n ns
      × (find client (clients_of n) ≡ some x)
      × (m ≡ matched_subscription_from_option x)
entries-mem client [] m i = elim i [ ]
entries-mem client (n ∷ ns) m i =
    elim (mem_split m (entry (find client (clients_of n))) (entries client ns) i) [
      | inl k ↦
          let (x, e, q) = entry-mem (find client (clients_of n)) m k in (n, x, Memᴰ.head refl, e, q)
      | inr k ↦ let (n', x, j, e, q) = entries-mem client ns m k in (n', x, Memᴰ.tail j, e, q)
    ]

pub mem-entries :
    (client : Bytes) (ns : List TreeNode) (n : TreeNode) (x : SubOption)
    → Memᴰ n ns
    → find client (clients_of n) ≡ some x
    → Memᴰ (matched_subscription_from_option x) (entries client ns)
mem-entries client [] n x i e = elim i [ ]
mem-entries client (k ∷ ns) n x (Memᴰ.head q) e =
    let here : find client (clients_of k) ≡ some x =
      subst (λ y. find client (clients_of y) ≡ some x) q e in
    mem_left _ (entry (find client (clients_of k))) _
      (subst (λ o. Memᴰ (matched_subscription_from_option x) (entry o)) (sym here) (Memᴰ.head refl))
mem-entries client (k ∷ ns) n x (Memᴰ.tail i) e =
    mem_right _ (entry (find client (clients_of k))) _ (mem-entries client ns n x i e)
