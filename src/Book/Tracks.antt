-- ===== src/Book/Tracks.antt =====
-- The order index and the pool's count follow the resting orders.
use low_latency_hft_matching.Base.{
  ℕ, suc, ◌≤◌, ◌≡◌, refl, ap, ◌∙◌, sym, ℤ, ◌-ℤ◌, is_pos, leb_ℤ, Bool-cases, inl, inr, if◌then◌else◌,
  is_some, List, [], ◌∷◌, ◌++◌, true, Option, none, some, length, arith, ◌==◌,
}
use low_latency_hft_matching.Book.Types.{
  OrderNode, Ref, Index, erase, insert, PoolCount, acquire, release,
}
use low_latency_hft_matching.Book.Greedy.{fill}
use low_latency_hft_matching.Book.Matches.{erase_all, release_all}

-- Side and price of the order with this id.
abbrev pub locate : ℕ → List OrderNode → Option Ref
locate id [] = none
locate id (n ∷ ns) = if n.id == id then some (n.side, n.price) else locate id ns

abbrev pub IsDistinct : List OrderNode → Type 0
IsDistinct [] = Unit {0}
IsDistinct (n ∷ ns) = (locate n.id ns ≡ none) × IsDistinct ns

pub locate_head :
    (n : OrderNode) (xs ys : List OrderNode) → is_some (locate n.id (xs ++ n ∷ ys)) ≡ true
locate_head n [] ys = ground arith
locate_head n (x ∷ xs) ys = ground (arith, locate_head n xs ys)

locate-remove :
    (j : ℕ) (n : OrderNode) (xs ys : List OrderNode)
    → IsDistinct (xs ++ n ∷ ys)
    → locate j (xs ++ ys) ≡ (if n.id == j then none else locate j (xs ++ n ∷ ys))
locate-remove j n [] ys d = ground arith
locate-remove j n (x ∷ xs) ys d = ground (arith, locate-remove j n xs ys d.1, locate_head n xs ys)

locate-insert :
    (j : ℕ) (n : OrderNode) (xs ys : List OrderNode)
    → locate n.id (xs ++ ys) ≡ none
    → locate j (xs ++ n ∷ ys) ≡ (if n.id == j then some (n.side, n.price) else locate j (xs ++ ys))
locate-insert j n [] ys d = refl
locate-insert j n (x ∷ xs) ys d = ground (arith, locate-insert j n xs ys)

IsDistinct-remove :
    (n : OrderNode) (xs ys : List OrderNode) → IsDistinct (xs ++ n ∷ ys) → IsDistinct (xs ++ ys)
IsDistinct-remove n [] ys d = d.1
IsDistinct-remove n (x ∷ xs) ys d =
    ground (arith, IsDistinct-remove n xs ys d.1, locate-remove x.id n xs ys d.1)

IsDistinct-insert :
    (n : OrderNode) (xs ys : List OrderNode)
    → locate n.id (xs ++ ys) ≡ none
    → IsDistinct (xs ++ ys)
    → IsDistinct (xs ++ n ∷ ys)
IsDistinct-insert n [] ys h d = (h, d)
IsDistinct-insert n (x ∷ xs) ys h d =
    ground (arith, IsDistinct-insert n xs ys, locate-insert x.id n xs ys)

-- A new quantity changes neither.
locate-update :
    (j : ℕ) (n : OrderNode) (q : ℤ) (xs ys : List OrderNode)
    → locate j (xs ++ record n { qty = q } ∷ ys) ≡ locate j (xs ++ n ∷ ys)
locate-update j n q [] ys = refl
locate-update j n q (x ∷ xs) ys = ground (arith, locate-update j n q xs ys)

IsDistinct-update :
    (n : OrderNode) (q : ℤ) (xs ys : List OrderNode)
    → IsDistinct (xs ++ n ∷ ys)
    → IsDistinct (xs ++ record n { qty = q } ∷ ys)
IsDistinct-update n q [] ys d = d
IsDistinct-update n q (x ∷ xs) ys d =
    ground (arith, IsDistinct-update n q xs ys d.1, locate-update x.id n q xs ys)

-- The index holds exactly the resting orders, and the pool has a slot taken for each.
pub record Tracks (m : Index) (p : PoolCount) (ns : List OrderNode) : Type 0 where
  pub at : (j : ℕ) → m.at j ≡ locate j ns
  pub count : m.count ≡ length ns
  pub in_use : p.in_use ≡ length ns
  pub bounded : p.in_use ≤ p.capacity
  pub distinct : IsDistinct ns

length-middle :
    (n : OrderNode) (xs ys : List OrderNode) → length (xs ++ n ∷ ys) ≡ suc (length (xs ++ ys))
length-middle n [] ys = refl
length-middle n (x ∷ xs) ys = ap suc (length-middle n xs ys)

module _ {m : Index} {p : PoolCount} (n : OrderNode) (xs ys : List OrderNode) where
  pub Tracks-remove : Tracks m p (xs ++ n ∷ ys) → Tracks (erase n.id m) (release p) (xs ++ ys)
  unfolding erase release
  Tracks-remove t = record {
    at = λ j. rw t.at (sym (locate-remove j n xs ys t.distinct));
    count = rw (t.at, locate_head n xs ys) (omega (arith, length-middle n xs ys, t.count));
    in_use = omega (arith, length-middle n xs ys, t.in_use);
    bounded = omega (arith, t.bounded);
    distinct = IsDistinct-remove n xs ys t.distinct;
  }

  pub Tracks-update :
      (q : ℤ) → Tracks m p (xs ++ n ∷ ys) → Tracks m p (xs ++ record n { qty = q } ∷ ys)
  Tracks-update q t = record {
    at = λ j. rw t.at (sym (locate-update j n q xs ys));
    count =
        omega (arith, length-middle n xs ys, length-middle (record n { qty = q }) xs ys, t.count);
    in_use =
        omega (arith, length-middle n xs ys, length-middle (record n { qty = q }) xs ys, t.in_use);
    bounded = t.bounded;
    distinct = IsDistinct-update n q xs ys t.distinct;
  }

  pub Tracks-insert :
      (p' : PoolCount)
      → acquire p ≡ some p'
      → m.at n.id ≡ none
      → Tracks m p (xs ++ ys)
      → Tracks (insert n.id (n.side, n.price) m) p' (xs ++ n ∷ ys)
  unfolding insert acquire
  Tracks-insert p' got fresh t = record {
    at = λ j. rw t.at (sym (locate-insert j n xs ys (sym (t.at n.id) ∙ fresh)));
    count = rw fresh (omega (arith, length-middle n xs ys, t.count));
    in_use = ground (arith, length-middle n xs ys, t.in_use);
    bounded = ground (arith, t.bounded);
    distinct = IsDistinct-insert n xs ys (sym (t.at n.id) ∙ fresh) t.distinct;
  }

-- A match in the middle of the orders.
pub Tracks-fill :
    (taker : ℕ) (q : ℤ) (m : Index) (p : PoolCount) (pre os post : List OrderNode)
    → Tracks m p (pre ++ (os ++ post))
    → let o = fill taker q os in
      Tracks (erase_all o.done m) (release_all o.done p) (pre ++ (o.queue ++ post))
unfolding fill
Tracks-fill taker q m p pre [] post t = t
Tracks-fill taker q m p pre (o ∷ os) post t = elim (Bool-cases (is_pos q)) [
  | inr stop ↦ rw stop t
  | inl go ↦ elim (Bool-cases (leb_ℤ o.qty q)) [
    | inl full ↦
        rw (go, full)
          (Tracks-fill taker (q -ℤ o.qty) (erase o.id m) (release p) pre os post
            (Tracks-remove o pre (os ++ post) t))
    | inr part ↦ rw (go, part) (Tracks-update o pre (os ++ post) (o.qty -ℤ q) t)
  ]
]
