-- ===== src/Engine/Queues/Sorted.antt =====
-- The queues to consume from, as a sorted set.
use chitchat.Base.{
  Str, is_empty, is_empty_iff, ne_iff, elem, elem_iff, if◌then◌else◌, true, false, List, [], ◌∷◌,
  map, In, Distinct, ◌≡◌, ◌≢◌, ◌↔◌, ◌⊎◌, inl, inr, refl, sym, ◌∙◌, subst, arith, Bool-cases,
  false≢true,
}
use chitchat.Config.Types.{Config}
use chitchat.Engine.Queues.{str_leb, add_queues, insert_sorted, sort, desired_queues}

str_leb_total : (s t : Str) → str_leb s t ≡ false → str_leb t s ≡ true
unfolding str_leb
str_leb_total [] t h = ground arith
str_leb_total (c ∷ s) [] h = refl
str_leb_total (c ∷ s) (d ∷ t) h = ground (arith, str_leb_total s t)

-- Each element is at most the next one.
abbrev pub Ascending : List Str → Type 0
Ascending [] = Unit
Ascending (x ∷ []) = Unit
Ascending (x ∷ y ∷ ys) = (str_leb x y ≡ true) × Ascending (y ∷ ys)

cons_insert :
    (x q : Str) (xs : List Str)
    → str_leb x q ≡ true
    → Ascending (x ∷ xs)
    → Ascending (x ∷ insert_sorted q xs)
unfolding insert_sorted
cons_insert x q [] l h = (l, tt)
cons_insert x q (y ∷ ys) l h = elim (Bool-cases (str_leb q y)) [
  | inl a ↦ rw a (l, (a, h.1))
  | inr a ↦ rw a (h.0, cons_insert y q ys (str_leb_total q y a) h.1)
]

insert-Ascending : (q : Str) (xs : List Str) → Ascending xs → Ascending (insert_sorted q xs)
unfolding insert_sorted
insert-Ascending q [] h = tt
insert-Ascending q (x ∷ xs) h = elim (Bool-cases (str_leb q x)) [
  | inl a ↦ rw a (a, h)
  | inr a ↦ rw a (cons_insert x q xs (str_leb_total q x a) h)
]

sort-Ascending : (xs : List Str) → Ascending (sort xs)
unfolding sort
sort-Ascending [] = tt
sort-Ascending (x ∷ xs) = insert-Ascending x (sort xs) (sort-Ascending xs)

In-insert : (t q : Str) (xs : List Str) → In t (insert_sorted q xs) ↔ ((t ≡ q) ⊎ In t xs)
unfolding insert_sorted
In-insert t q [] = (λ h. h, λ h. h)
In-insert t q (x ∷ xs) =
    let ih = In-insert t q xs in
    elim (Bool-cases (str_leb q x)) [
      | inl a ↦ rw a (λ h. h, λ h. h)
      | inr a ↦ rw a (
        λ h. elim h [
          | inl e ↦ inr (inl e)
          | inr k ↦ elim (ih.0 k) [ inl e ↦ inl e | inr m ↦ inr (inr m) ]
        ],
        λ h. elim h [
          | inl e ↦ inr (ih.1 (inl e))
          | inr k ↦ elim k [ inl e ↦ inl e | inr m ↦ inr (ih.1 (inr m)) ]
        ],
      )
    ]

In-sort : (t : Str) (xs : List Str) → In t (sort xs) ↔ In t xs
unfolding sort
In-sort t [] = (λ h. h, λ h. h)
In-sort t (x ∷ xs) =
    let e = In-insert t x (sort xs) in
    let ih = In-sort t xs in
    (
      λ h. elim (e.0 h) [ inl p ↦ inl p | inr m ↦ inr (ih.0 m) ],
      λ h. elim h [ inl p ↦ e.1 (inl p) | inr m ↦ e.1 (inr (ih.1 m)) ],
    )

insert-Distinct :
    (q : Str) (xs : List Str) → ¬ In q xs → Distinct xs → Distinct (insert_sorted q xs)
unfolding insert_sorted
insert-Distinct q [] n d = (n, tt)
insert-Distinct q (x ∷ xs) n d = elim (Bool-cases (str_leb q x)) [
  | inl a ↦ rw a (n, d)
  | inr a ↦ rw a (
    λ m. elim ((In-insert x q xs).0 m) [ inl e ↦ n (inl (sym e)) | inr k ↦ d.0 k ],
    insert-Distinct q xs (λ m. n (inr m)) d.1,
  )
]

sort-Distinct : (xs : List Str) → Distinct xs → Distinct (sort xs)
unfolding sort
sort-Distinct [] d = tt
sort-Distinct (x ∷ xs) d =
    insert-Distinct x (sort xs) (λ m. d.0 ((In-sort x xs).0 m)) (sort-Distinct xs d.1)

-- The set after one more queue.
abbrev added : List Str → Str → List Str
added set q = if is_empty q then set else if elem q set then set else q ∷ set

added-Distinct : (set : List Str) (q : Str) → Distinct set → Distinct (added set q)
added-Distinct set q d = elim (Bool-cases (is_empty q)) [
  | inl a ↦ rw a d
  | inr a ↦ elim (Bool-cases (elem q set)) [
    | inl b ↦ rw (a, b) d
    | inr b ↦ rw (a, b) ((λ m. false≢true (sym b ∙ (elem_iff q set).1 m)), d)
  ]
]

In-added :
    (t : Str) (set : List Str) (q : Str) → In t (added set q) ↔ (In t set ⊎ ((t ≢ []) × (t ≡ q)))
In-added t set q = elim (Bool-cases (is_empty q)) [
  | inl a ↦
      rw a
        (λ m. inl m, λ w. elim w [ inl m ↦ m | inr p ↦ absurd (p.0 (p.1 ∙ (is_empty_iff q).0 a)) ])
  | inr a ↦ elim (Bool-cases (elem q set)) [
    | inl b ↦
        rw (a, b)
          (
            λ m. inl m,
            λ w. elim w [
              | inl m ↦ m
              | inr p ↦ subst (λ x. In x set) (sym p.1) ((elem_iff q set).0 b)
            ],
          )
    | inr b ↦
        rw (a, b)
          (
            λ m. elim m [ inl e ↦ inr ((λ z. (ne_iff q).0 a (sym e ∙ z)), e) | inr k ↦ inl k ],
            λ w. elim w [ inl m ↦ inr m | inr p ↦ inl p.1 ],
          )
  ]
]

add_queues-Distinct : (set qs : List Str) → Distinct set → Distinct (add_queues set qs)
unfolding add_queues
add_queues-Distinct set [] d = d
add_queues-Distinct set (q ∷ qs) d = add_queues-Distinct (added set q) qs (added-Distinct set q d)

In-add_queues :
    (t : Str) (set qs : List Str) → In t (add_queues set qs) ↔ (In t set ⊎ ((t ≢ []) × In t qs))
unfolding add_queues
In-add_queues t set [] = (λ m. inl m, λ w. elim w [ inl m ↦ m | inr p ↦ absurd p.1 ])
In-add_queues t set (q ∷ qs) =
    let ih = In-add_queues t (added set q) qs in
    let e = In-added t set q in
    (
      λ m. elim (ih.0 m) [
        | inl k ↦ elim (e.0 k) [ inl x ↦ inl x | inr p ↦ inr (p.0, inl p.1) ]
        | inr p ↦ inr (p.0, inr p.1)
      ],
      λ w. elim w [
        | inl x ↦ ih.1 (inl (e.1 (inl x)))
        | inr p ↦ elim p.1 [ inl y ↦ ih.1 (inl (e.1 (inr (p.0, y)))) | inr z ↦ ih.1 (inr (p.0, z)) ]
      ],
    )

-- The queues to consume from are sorted, each stands once, and they are exactly the non-empty names
-- among the trigger queues of the rules and the spied queues.
pub desired_queues_lem :
    (cfg : Config)
    → Ascending (desired_queues cfg)
      × Distinct (desired_queues cfg)
      × ((q : Str)
          → In q (desired_queues cfg)
            ↔ ((q ≢ []) × (In q (map (λ r. r.trigger.queue) cfg.rules) ⊎ In q cfg.spy.queues)))
unfolding desired_queues
desired_queues_lem cfg =
    let triggers = map (λ r. r.trigger.queue) cfg.rules in
    let set = add_queues [] triggers in
    (
      sort-Ascending (add_queues set cfg.spy.queues),
      sort-Distinct _ (add_queues-Distinct set cfg.spy.queues (add_queues-Distinct [] triggers tt)),
      λ q.
          let e = In-sort q (add_queues set cfg.spy.queues) in
          let f = In-add_queues q set cfg.spy.queues in
          let g = In-add_queues q [] triggers in
          (
            λ m. elim (f.0 (e.0 m)) [
              | inl k ↦ elim (g.0 k) [ inl x ↦ absurd x | inr p ↦ (p.0, inl p.1) ]
              | inr p ↦ (p.0, inr p.1)
            ],
            λ w. elim w.1 [
              | inl x ↦ e.1 (f.1 (inl (g.1 (inr (w.0, x)))))
              | inr y ↦ e.1 (f.1 (inr (w.0, y)))
            ],
          ),
    )
