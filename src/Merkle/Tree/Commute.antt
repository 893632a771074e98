-- ===== src/Merkle/Tree/Commute.antt =====
-- internal/merkle/tree.go, `BuildTree`: two leaves put into a tree, in either order.
use merkle_lan_sync.Base.{
  ℕ, ◌≡◌, ◌≢◌, refl, ap, sym, ◌∙◌, arith, Ordering, compare_bytes, compare_bytes_self,
  compare_bytes_eq, compare_bytes_gt, compare_bytes_lt, compare_bytes_trans, Ordering-cases, inl,
  inr, Option, none, some, List, [], ◌∷◌, Result, ok, err, ◌>>=◌, Option-cases,
}
use merkle_lan_sync.Merkle.FileInfo.{FileInfo, zero_hash}
use merkle_lan_sync.Merkle.Tree.{
  Node, Children, leaf, dir, end, child, tree_conflict, get_child, put_child, child_or_empty, place,
  Error,
}
use merkle_lan_sync.Merkle.Tree.Map.{get_child-put_child, get_child-put_child_other}

put_child_again :
    (kids : Children) (name : List ℕ) (m n : Node)
    → put_child (put_child kids name m) name n ≡ put_child kids name n
unfolding put_child
put_child_again end name m n = ground (arith, compare_bytes_self name)
put_child_again (child k x kids) name m n = elim (Ordering-cases (compare_bytes name k)) [
  | inl below ↦ ground (arith, below, compare_bytes_self name)
  | inr (inl same) ↦ ground (arith, same, compare_bytes_self name)
  | inr (inr above) ↦ ground (arith, above, put_child_again kids name m n)
]

put_child_below :
    (kids : Children) (a b : List ℕ) (m n : Node)
    → compare_bytes a b ≡ Ordering.lt
    → put_child (put_child kids a m) b n ≡ put_child (put_child kids b n) a m
unfolding put_child
put_child_below end a b m n e = ground (arith, e, compare_bytes_lt a b e)
put_child_below (child k x kids) a b m n e = ground (
  arith,
  e,
  compare_bytes_lt a b e,
  compare_bytes_eq a k,
  compare_bytes_eq b k,
  compare_bytes_trans a b k e,
  compare_bytes_self a,
  compare_bytes_self b,
  put_child_below kids a b m n e,
)

-- What the loop makes of the entry at the head: a leaf where there is nothing, or what is below.
slot : List (List ℕ) → FileInfo → Option Node → Result Error Node
slot [] fi none = ok (leaf fi zero_hash)
slot [] fi (some n) = err tree_conflict
slot (c ∷ rest) fi o = place (child_or_empty o) c rest fi

place-slot :
    (kids : Children) (h head : List ℕ) (rest : List (List ℕ)) (fi : FileInfo)
    → place (dir kids h) head rest fi
      ≡ (slot rest fi (get_child kids head) >>= λ n. ok (dir (put_child kids head n) h))
unfolding place slot
place-slot kids h head [] fi = elim (Option-cases (get_child kids head)) [
  | inl gone ↦ ground (arith, gone)
  | inr (n, there) ↦ ground (arith, there)
]
place-slot kids h head (c ∷ rest) fi = refl

-- Whatever was found, the next step fails.
pub then_conflict :
    (r : Result Error Node) (f : Node → Result Error Node)
    → ((n : Node) → f n ≡ err tree_conflict)
    → (r >>= f) ≡ err tree_conflict
then_conflict (err tree_conflict) f fails = refl
then_conflict (ok n) f fails = fails n

place-leaf :
    (f fi : FileInfo) (h c : List ℕ) (cs : List (List ℕ))
    → place (leaf f h) c cs fi ≡ err tree_conflict
unfolding place
place-leaf f fi h c cs = refl

-- Two leaves at the same entry, one of them below it.
slot_conflict :
    (c : List ℕ) (cs : List (List ℕ)) (fi fi' : FileInfo) (o : Option Node)
    → (slot [] fi o >>= λ n. slot (c ∷ cs) fi' (some n)) ≡ err tree_conflict
unfolding slot child_or_empty
slot_conflict c cs fi fi' none = place-leaf fi fi' zero_hash c cs
slot_conflict c cs fi fi' (some n) = refl

slot_conflict_back :
    (c : List ℕ) (cs : List (List ℕ)) (fi fi' : FileInfo) (o : Option Node)
    → (slot (c ∷ cs) fi' o >>= λ n. slot [] fi (some n)) ≡ err tree_conflict
unfolding slot
slot_conflict_back c cs fi fi' o = then_conflict (place (child_or_empty o) c cs fi') _ (λ n. refl)

both_orders :
    (x y : Result Error Node) (f g : Node → Node → Node)
    → ((m n : Node) → f m n ≡ g n m)
    → (x >>= λ m. y >>= λ n. ok (f m n)) ≡ (y >>= λ n. x >>= λ m. ok (g n m))
both_orders (err tree_conflict) (err tree_conflict) f g h = refl
both_orders (err tree_conflict) (ok n) f g h = refl
both_orders (ok m) (err tree_conflict) f g h = refl
both_orders (ok m) (ok n) f g h = ap ok (h m n)

place_next :
    (x : Result Error Node) (kids : Children) (h a b : List ℕ) (rb : List (List ℕ)) (gi : FileInfo)
    → a ≢ b
    → ((x >>= λ m. ok (dir (put_child kids a m) h)) >>= λ n. place n b rb gi) ≡ (
        x >>= λ m.
        slot rb gi (get_child kids b) >>= λ n. ok (dir (put_child (put_child kids a m) b n) h))
place_next (err e) kids h a b rb gi ne = refl
place_next (ok m) kids h a b rb gi ne =
    place-slot (put_child kids a m) h b rb gi
    ∙ ap (λ o. slot rb gi o >>= λ n. ok (dir (put_child (put_child kids a m) b n) h))
        (get_child-put_child_other kids a b m ne)

-- Two leaves put at different entries of a directory.
place_apart :
    (kids : Children) (h a b : List ℕ) (ra rb : List (List ℕ)) (fi gi : FileInfo)
    → compare_bytes a b ≡ Ordering.lt
    → (place (dir kids h) a ra fi >>= λ n. place n b rb gi)
      ≡ (place (dir kids h) b rb gi >>= λ n. place n a ra fi)
place_apart kids h a b ra rb fi gi e =
    let ne : a ≢ b = λ same. absurd (ground (arith, e, compare_bytes_self a, same)) in
    rw (place-slot kids h a ra fi, place-slot kids h b rb gi)
      (place_next (slot ra fi (get_child kids a)) kids h a b rb gi ne
        ∙ both_orders (slot ra fi (get_child kids a)) (slot rb gi (get_child kids b)) _ _
            (λ m n. ap (λ k. dir k h) (put_child_below kids a b m n e))
        ∙ sym (place_next (slot rb gi (get_child kids b)) kids h b a ra fi (λ same. ne (sym same))))

same_entry :
    (x : Result Error Node) (kids : Children) (h a : List ℕ) (rb : List (List ℕ)) (gi : FileInfo)
    → ((x >>= λ m. ok (dir (put_child kids a m) h)) >>= λ n. place n a rb gi)
      ≡ ((x >>= λ n. slot rb gi (some n)) >>= λ n. ok (dir (put_child kids a n) h))
same_entry (err e) kids h a rb gi = refl
same_entry (ok m) kids h a rb gi =
    place-slot (put_child kids a m) h a rb gi
    ∙ ap (λ o. slot rb gi o >>= λ n. ok (dir (put_child (put_child kids a m) a n) h))
        (get_child-put_child kids a m)
    ∙ overwritten (slot rb gi (some m))
  where
    overwritten :
        (y : Result Error Node)
        → (y >>= λ n. ok (dir (put_child (put_child kids a m) a n) h))
          ≡ (y >>= λ n. ok (dir (put_child kids a n) h))
    overwritten (err e) = refl
    overwritten (ok n) = ap (λ k. ok (dir k h)) (put_child_again kids a m n)

-- Two leaves put at the same entry of a directory, by what its entry becomes.
place_same :
    (kids : Children) (h a : List ℕ) (ra rb : List (List ℕ)) (fi gi : FileInfo)
    → (place (dir kids h) a ra fi >>= λ n. place n a rb gi) ≡ (
        (slot ra fi (get_child kids a) >>= λ n. slot rb gi (some n)) >>= λ n.
        ok (dir (put_child kids a n) h))
place_same kids h a ra rb fi gi =
    rw (place-slot kids h a ra fi) (same_entry (slot ra fi (get_child kids a)) kids h a rb gi)

place_both :
    (kids : Children) (h a b : List ℕ) (ra rb : List (List ℕ)) (fi gi : FileInfo)
    → (slot ra fi (get_child kids a) >>= λ n. slot rb gi (some n))
      ≡ (slot rb gi (get_child kids a) >>= λ n. slot ra fi (some n))
    → (place (dir kids h) a ra fi >>= λ m. place m b rb gi)
      ≡ (place (dir kids h) b rb gi >>= λ m. place m a ra fi)
place_both kids h a b ra rb fi gi slots = elim (Ordering-cases (compare_bytes a b)) [
  | inl below ↦ place_apart kids h a b ra rb fi gi below
  | inr (inr above) ↦ sym (place_apart kids h b a rb ra gi fi (compare_bytes_gt a b above))
  | inr (inl equal) ↦
      ap (λ k. place (dir kids h) a ra fi >>= λ m. place m k rb gi)
        (sym (compare_bytes_eq a b equal))
      ∙ place_same kids h a ra rb fi gi
      ∙ ap (λ x. x >>= λ n. ok (dir (put_child kids a n) h)) slots
      ∙ sym (place_same kids h a rb ra gi fi)
      ∙ ap (λ k. place (dir kids h) k rb gi >>= λ m. place m a ra fi) (compare_bytes_eq a b equal)
]

slot_twice :
    (o : Option Node) (fi gi : FileInfo)
    → (slot [] fi o >>= λ n. slot [] gi (some n)) ≡ (slot [] gi o >>= λ n. slot [] fi (some n))
unfolding slot
slot_twice none fi gi = refl
slot_twice (some n) fi gi = refl

slot_below :
    (c d : List ℕ) (ra rb : List (List ℕ)) (fi gi : FileInfo) (o : Option Node)
    → (place (child_or_empty o) c ra fi >>= λ m. place m d rb gi)
      ≡ (place (child_or_empty o) d rb gi >>= λ m. place m c ra fi)
    → (slot (c ∷ ra) fi o >>= λ n. slot (d ∷ rb) gi (some n))
      ≡ (slot (d ∷ rb) gi o >>= λ n. slot (c ∷ ra) fi (some n))
unfolding slot child_or_empty
slot_below c d ra rb fi gi o below = below

-- The order in which two leaves are put into a tree does not matter.
pub place_swap :
    (n : Node) (a b : List ℕ) (ra rb : List (List ℕ)) (fi gi : FileInfo)
    → (place n a ra fi >>= λ m. place m b rb gi) ≡ (place n b rb gi >>= λ m. place m a ra fi)
place_swap (leaf f h) a b ra rb fi gi = unfold place in refl
place_swap (dir kids h) a b [] [] fi gi =
    place_both kids h a b [] [] fi gi (slot_twice (get_child kids a) fi gi)
place_swap (dir kids h) a b [] (d ∷ rb) fi gi = place_both kids h a b [] (d ∷ rb) fi gi (
    slot_conflict d rb fi gi (get_child kids a)
    ∙ sym (slot_conflict_back d rb fi gi (get_child kids a)))
place_swap (dir kids h) a b (c ∷ ra) [] fi gi = place_both kids h a b (c ∷ ra) [] fi gi (
    slot_conflict_back c ra gi fi (get_child kids a)
    ∙ sym (slot_conflict c ra gi fi (get_child kids a)))
place_swap (dir kids h) a b (c ∷ ra) (d ∷ rb) fi gi =
    let below = place_swap (child_or_empty (get_child kids a)) c d ra rb fi gi in
    place_both kids h a b (c ∷ ra) (d ∷ rb) fi gi
      (slot_below c d ra rb fi gi (get_child kids a) below)
