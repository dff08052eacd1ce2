-- ===== src/Inspect/Transaction/Nullifiers.antt =====
-- Which actions are reported for a repeated nullifier.
use mathlib.Core.List.{Memᴰ, append_assoc}
use mathlib.Core.List.Memᴰ.{append_left, append_right}
use zcash_devtool_sqlx.Base.{
  ℕ, zero, suc, ◌+◌, ◌<◌, ◌≡◌, ◌≢◌, refl, ap, sym, ◌∙◌, Bool, true, false, some, List, [], ◌∷◌,
  ◌++◌, All, All-append, subst, Bool-cases, inl, inr, ltb, ltb→lt, lt→ltb, length, get_elem?,
  get_elem?-append, length-append, same, arith, if◌then◌else◌,
}
use zcash_devtool_sqlx.Inspect.Transaction.{Kinds}
use zcash_devtool_sqlx.Inspect.Transaction.Lines.{Line, duplicated_nullifier}
use zcash_devtool_sqlx.Inspect.Transaction.Shielded.{Shielded}
use zcash_devtool_sqlx.Inspect.Transaction.Orchard.{
  Indexes, push_index, group_from, duplicates, nullifiers, duplicated_nullifiers,
}

same_self : (s : List ℕ) → same s s ≡ true
same_self [] = refl
same_self (c ∷ s) = ground (arith, same_self s)

same_eq : (s t : List ℕ) → same s t ≡ true → s ≡ t
same_eq [] [] h = refl
same_eq [] (d ∷ t) h = ground (arith, h)
same_eq (c ∷ s) [] h = ground (arith, h)
same_eq (c ∷ s) (d ∷ t) h = ground (arith, h, same_eq s t)

All_of_mem {ℓ} : {A : Type ℓ} {P : A → Type 0} (l : List A) → ((a : A) → Memᴰ a l → P a) → All P l
All_of_mem [] f = tt
All_of_mem (x ∷ l) f = (f x (Memᴰ.head refl), All_of_mem l (λ a m. f a (Memᴰ.tail m)))

mem_of_All {ℓ} : {A : Type ℓ} (P : A → Type 0) (l : List A) {a : A} → All P l → Memᴰ a l → P a
mem_of_All P [] h m = elim m [ ]
mem_of_All P (x ∷ l) (p, ps) (Memᴰ.head e) = subst P (sym e) p
mem_of_All P (x ∷ l) (p, ps) (Memᴰ.tail m) = mem_of_All P l ps m

-- The indexes in an entry are of actions with its nullifier.
abbrev IsEntry : List (List ℕ) → List ℕ × List ℕ → Type 0
IsEntry keys (key, l) = All (λ j. get_elem? keys j ≡ some key) l

push_index-IsEntry :
    (keys : List (List ℕ)) (key : List ℕ) (i : ℕ) (m : Indexes)
    → get_elem? keys i ≡ some key
    → All (IsEntry keys) m
    → All (IsEntry keys) (push_index key i m)
unfolding push_index
push_index-IsEntry keys key i [] h a = ((h, tt), tt)
push_index-IsEntry keys key i ((other, l) ∷ m) h (a, b) = elim (Bool-cases (same other key)) [
  | inl e ↦ rw e (
    All-append (λ j. get_elem? keys j ≡ some other) l (i ∷ []) a
        (h ∙ ap some (sym (same_eq other key e)), tt),
    b,
  )
  | inr e ↦ rw e (a, push_index-IsEntry keys key i m h b)
]

group_from-IsEntry :
    (i : ℕ) (done keys : List (List ℕ)) (m : Indexes)
    → i ≡ length done
    → All (IsEntry (done ++ keys)) m
    → All (IsEntry (done ++ keys)) (group_from i keys m)
unfolding group_from
group_from-IsEntry i done [] m h a = a
group_from-IsEntry i done (key ∷ keys) m h a =
    let all = done ++ key ∷ keys in
    let placed : get_elem? all i ≡ some key =
      get_elem?-append done (key ∷ keys) i 0 (omega arith) in
    let next = push_index-IsEntry all key i m placed a in
    let same_list : (done ++ key ∷ []) ++ keys ≡ all = append_assoc done (key ∷ []) keys in
    subst (λ t. All (IsEntry t) (group_from (suc i) keys (push_index key i m))) same_list
      (group_from-IsEntry (suc i) (done ++ key ∷ []) keys (push_index key i m)
        (omega (arith, length-append done (key ∷ [])))
        (subst (λ t. All (IsEntry t) (push_index key i m)) (sym same_list) next))

-- The indexes of the first entry of a nullifier.
unfoldable found : List ℕ → Indexes → List ℕ
found key [] = []
found key ((other, l) ∷ m) = let rest = found key m in if same other key then l else rest

push_index-found : (key : List ℕ) (i : ℕ) (m : Indexes) → Memᴰ i (found key (push_index key i m))
unfolding push_index found
push_index-found key i [] = rw (same_self key) (Memᴰ.head refl)
push_index-found key i ((other, l) ∷ m) = elim (Bool-cases (same other key)) [
  | inl e ↦ rw e (rw e (append_right l (Memᴰ.head refl)))
  | inr e ↦ rw e (rw e (push_index-found key i m))
]

push_index-keeps :
    (key other : List ℕ) (i j : ℕ) (m : Indexes)
    → Memᴰ j (found other m)
    → Memᴰ j (found other (push_index key i m))
unfolding push_index found
push_index-keeps key other i j [] h = elim h [ ]
push_index-keeps key other i j ((first, l) ∷ m) h =
    let kept : (b : Bool) → same first other ≡ b → Memᴰ j (if b then l else found other m) =
      λ b d. subst (λ b'. Memᴰ j (if b' then l else found other m)) d h in
    elim (Bool-cases (same first key)) [
      | inl e ↦ rw e (elim (Bool-cases (same first other)) [
        | inl d ↦ rw d (append_left (i ∷ []) (kept true d))
        | inr d ↦ rw d (kept false d)
      ])
      | inr e ↦ rw e (elim (Bool-cases (same first other)) [
        | inl d ↦ rw d (kept true d)
        | inr d ↦ rw d (push_index-keeps key other i j m (kept false d))
      ])
    ]

group_from-keeps :
    (i : ℕ) (keys : List (List ℕ)) (other : List ℕ) (j : ℕ) (m : Indexes)
    → Memᴰ j (found other m)
    → Memᴰ j (found other (group_from i keys m))
unfolding group_from
group_from-keeps i [] other j m h = h
group_from-keeps i (key ∷ keys) other j m h =
    group_from-keeps (suc i) keys other j (push_index key i m) (push_index-keeps key other i j m h)

group_from-found :
    (n i : ℕ) (keys : List (List ℕ)) (key : List ℕ) (j : ℕ) (m : Indexes)
    → n ≡ i + j
    → get_elem? keys j ≡ some key
    → Memᴰ n (found key (group_from i keys m))
unfolding group_from
group_from-found n i [] key j m p h = absurd (ground (arith, h))
group_from-found n i (first ∷ keys) key zero m p h =
    let e : first ≡ key = ground (arith, h) in
    let q : n ≡ i = omega arith in
    rw q (
      subst (λ t. Memᴰ i (found key (group_from (suc i) keys (push_index t i m)))) (sym e)
        (group_from-keeps (suc i) keys key i (push_index key i m) (push_index-found key i m)))
group_from-found n i (first ∷ keys) key (suc j) m p h =
    group_from-found n (suc i) keys key j (push_index first i m) (omega arith) h

found-entry :
    (key : List ℕ) (m : Indexes) (j : ℕ)
    → Memᴰ j (found key m)
    → (other : List ℕ) × Memᴰ (other, found key m) m
unfolding found
found-entry key [] j h = elim h [ ]
found-entry key ((first, l) ∷ m) j h = elim (Bool-cases (same first key)) [
  | inl e ↦ rw e (first, Memᴰ.head refl)
  | inr e ↦
      let (other, there) =
        found-entry key m j (subst (λ b. Memᴰ j (if b then l else found key m)) e h) in
      rw e (other, Memᴰ.tail there)
]

two_members : (i j : ℕ) (l : List ℕ) → i ≢ j → Memᴰ i l → Memᴰ j l → 1 < length l
two_members i j (x ∷ []) n (Memᴰ.head a) (Memᴰ.head b) = absurd (n (a ∙ sym b))
two_members i j (x ∷ []) n (Memᴰ.tail a) b = elim a [ ]
two_members i j (x ∷ []) n a (Memᴰ.tail b) = elim b [ ]
two_members i j (x ∷ y ∷ l) n a b = omega arith
two_members i j [] n a b = elim a [ ]

module _ (k : Kinds) where
  -- A line of the report that names actions with one nullifier, more than one of them.
  pub IsJustified : List (List ℕ) → Line k → Type 0
  IsJustified keys line =
      (indices : List ℕ) × (line ≡ duplicated_nullifier indices)
      × (1 < length indices)
      × ((key : List ℕ) × All (λ j. get_elem? keys j ≡ some key) indices)

  duplicates-IsJustified :
      (keys : List (List ℕ)) (m : Indexes)
      → All (IsEntry keys) m
      → All (IsJustified keys) (duplicates m)
  unfolding duplicates
  duplicates-IsJustified keys [] a = tt
  duplicates-IsJustified keys ((key, l) ∷ m) (a, b) = elim (Bool-cases (ltb 1 (length l))) [
    | inl e ↦ rw e (
      unfold IsJustified in (l, refl, ltb→lt 1 (length l) e, (key, a)),
      duplicates-IsJustified keys m b,
    )
    | inr e ↦ rw e (duplicates-IsJustified keys m b)
  ]

  mem-duplicates :
      (m : Indexes) (key l : List ℕ)
      → 1 < length l
      → Memᴰ (key, l) m
      → Memᴰ {A = Line k} (duplicated_nullifier l) (duplicates m)
  unfolding duplicates
  mem-duplicates [] key l h t = elim t [ ]
  mem-duplicates ((first, l') ∷ m) key l h (Memᴰ.head e) =
      let same_list : l ≡ l' = ap (λ p. p.1) e in
      let long : ltb 1 (length l') ≡ true =
        lt→ltb 1 (length l') (subst (λ t. 1 < length t) same_list h) in
      rw long (Memᴰ.head (ap duplicated_nullifier same_list))
  mem-duplicates ((first, l') ∷ m) key l h (Memᴰ.tail t) = elim (Bool-cases (ltb 1 (length l'))) [
    | inl e ↦ rw e (Memᴰ.tail (mem-duplicates m key l h t))
    | inr e ↦ rw e (mem-duplicates m key l h t)
  ]

module _ {k : Kinds} (c : Shielded k) where
  -- A hash map is iterated in some order over the entries that it has.
  pub record Iterates : Type 0 where
    pub only : (m : Indexes) (e : List ℕ × List ℕ) → Memᴰ e (c.iterate m) → Memᴰ e m
    pub each : (m : Indexes) (e : List ℕ × List ℕ) → Memᴰ e m → Memᴰ e (c.iterate m)

  -- Every line that is printed about nullifiers names at least two actions, which have one
  -- nullifier; and two actions with one nullifier are named by one of the lines (given that the
  -- iteration over a hash map visits its entries).
  pub duplicated_nullifiers_lem :
      Iterates
      → (actions : List k.Action)
      → All (IsJustified k (nullifiers c actions)) (duplicated_nullifiers c actions)
        × ((i j : ℕ) (key : List ℕ)
            → i ≢ j
            → get_elem? (nullifiers c actions) i ≡ some key
            → get_elem? (nullifiers c actions) j ≡ some key
            → (l : List ℕ) × Memᴰ (duplicated_nullifier l) (duplicated_nullifiers c actions)
              × Memᴰ i l
              × Memᴰ j l)
  unfolding duplicated_nullifiers
  duplicated_nullifiers_lem it actions =
      let keys = nullifiers c actions in
      let m = group_from 0 keys [] in
      let entries : All (IsEntry keys) m = group_from-IsEntry 0 [] keys [] refl tt in
      (
        duplicates-IsJustified k keys (c.iterate m)
            (All_of_mem (c.iterate m) (λ e h. mem_of_All (IsEntry keys) m entries (it.only m e h))),
        λ i j key n hi hj.
            let l = found key m in
            let mi : Memᴰ i l = group_from-found i 0 keys key i [] (omega arith) hi in
            let mj : Memᴰ j l = group_from-found j 0 keys key j [] (omega arith) hj in
            let (other, e) = found-entry key m i mi in
            (
              l,
              mem-duplicates k (c.iterate m) other l (two_members i j l n mi mj)
                  (it.each m (other, l) e),
              mi,
              mj,
            ),
      )
