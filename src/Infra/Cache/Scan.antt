-- ===== src/Infra/Cache/Scan.antt =====
-- The scan of an index against the members of its pages.
use gnester_lite.Common.{
  ℕ, zero, suc, ◌+◌, ◌≤◌, ◌<◌, ◌≡◌, refl, ap, sym, ◌∙◌, ◌==◌, ltb, if◌then◌else◌, Bool-cases, inl,
  inr, List, [], ◌∷◌, ◌++◌, take, length, arith, ok,
}
use gnester_lite.Infra.Cache.{Page, push_members, scan, get_index_members}

-- The members of the pages up to the last.
abbrev pub all_members : List Page → List ℕ
all_members [] = []
all_members (p ∷ ps) =
    let rest = all_members ps in if p.is_last then p.page_members else p.page_members ++ rest

++-nil : (xs : List ℕ) → xs ++ [] ≡ xs
++-nil [] = refl
++-nil (x ∷ xs) = ap (λ (ys : List ℕ). x ∷ ys) (++-nil xs)

++-assoc : (xs ys zs : List ℕ) → (xs ++ ys) ++ zs ≡ xs ++ (ys ++ zs)
++-assoc [] ys zs = refl
++-assoc (x ∷ xs) ys zs = ap (λ (ws : List ℕ). x ∷ ws) (++-assoc xs ys zs)

length-++ : (xs ys : List ℕ) → length (xs ++ ys) ≡ length xs + length ys
length-++ [] ys = omega arith
length-++ (x ∷ xs) ys = omega (arith, length-++ xs ys)

length-snoc : (xs : List ℕ) (x : ℕ) → length (xs ++ x ∷ []) ≡ suc (length xs)
length-snoc [] x = refl
length-snoc (y ∷ xs) x = ap suc (length-snoc xs x)

take-prefix : (n : ℕ) (xs ys : List ℕ) → length xs ≡ n → take n (xs ++ ys) ≡ xs
take-prefix zero [] ys h = refl
take-prefix (suc n) [] ys h = absurd (omega (arith, h))
take-prefix zero (x ∷ xs) ys h = absurd (omega (arith, h))
take-prefix (suc n) (x ∷ xs) ys h =
    ap (λ (zs : List ℕ). x ∷ zs) (take-prefix n xs ys (omega (arith, h)))

take-all : (n : ℕ) (xs : List ℕ) → length xs ≤ n → take n xs ≡ xs
take-all zero [] h = refl
take-all (suc n) [] h = refl
take-all zero (x ∷ xs) h = absurd (omega (arith, h))
take-all (suc n) (x ∷ xs) h = ap (λ (zs : List ℕ). x ∷ zs) (take-all n xs (omega (arith, h)))

-- A part that is shorter than asked is the whole, and one that is not does not see what follows.
take-short : (n : ℕ) (xs : List ℕ) → length (take n xs) < n → take n xs ≡ xs
take-short zero xs h = absurd (omega (arith, h))
take-short (suc n) [] h = refl
take-short (suc n) (x ∷ xs) h = ap (λ (zs : List ℕ). x ∷ zs) (take-short n xs (omega (arith, h)))

take-full : (n : ℕ) (xs ys : List ℕ) → n ≤ length (take n xs) → take n (xs ++ ys) ≡ take n xs
take-full zero [] ys h = elim ys [ [] ↦ refl | y ∷ zs ↦ refl ]
take-full zero (x ∷ xs) ys h = refl
take-full (suc n) [] ys h = absurd (omega (arith, h))
take-full (suc n) (x ∷ xs) ys h =
    ap (λ (zs : List ℕ). x ∷ zs) (take-full n xs ys (omega (arith, h)))

length-take : (n : ℕ) (xs : List ℕ) → length (take n xs) ≤ n
length-take zero xs = omega arith
length-take (suc n) [] = omega arith
length-take (suc n) (x ∷ xs) = omega (arith, length-take n xs)

push_members-take :
    (n : ℕ) (found ms : List ℕ) → length found < n → push_members n found ms ≡ take n (found ++ ms)
unfolding push_members
push_members-take n found [] h =
    sym (ap (take n) (++-nil found) ∙ take-all n found (omega (arith, h)))
push_members-take n found (m ∷ ms) h = elim (Bool-cases (length (found ++ m ∷ []) == n)) [
  | inl full ↦ rw full (
      sym (
        ap (take n) (sym (++-assoc found (m ∷ []) ms))
        ∙ take-prefix n (found ++ m ∷ []) ms (ground (arith, full))))
  | inr more ↦ rw more (
      push_members-take n (found ++ m ∷ []) ms (ground (arith, length-snoc found m, more, h))
      ∙ ap (take n) (++-assoc found (m ∷ []) ms))
]

scan-take :
    (n : ℕ) (found : List ℕ) (pages : List Page)
    → length found < n
    → scan n found pages ≡ take n (found ++ all_members pages)
unfolding scan
scan-take n found [] h = sym (ap (take n) (++-nil found) ∙ take-all n found (omega (arith, h)))
scan-take n found (p ∷ ps) h = elim (Bool-cases p.is_last) [
  | inl last ↦ rw last pushed
  | inr more ↦ elim (Bool-cases (ltb (length (push_members n found p.page_members)) n)) [
    | inl room ↦
        rw (more, room)
          (further (scan-take n (push_members n found p.page_members) ps (ground (arith, room)))
            (ground (arith, room)))
    | inr full ↦ rw (more, full) (enough (ground (arith, full)))
  ]
]
  where
    pushed : push_members n found p.page_members ≡ take n (found ++ p.page_members)
    pushed = push_members-take n found p.page_members h

    further :
        scan n (push_members n found p.page_members) ps
          ≡ take n (push_members n found p.page_members ++ all_members ps)
        → length (push_members n found p.page_members) < n
        → scan n (push_members n found p.page_members) ps
          ≡ take n (found ++ (p.page_members ++ all_members ps))
    further rest room =
        rest
        ∙ ap (λ (xs : List ℕ). take n (xs ++ all_members ps))
            (pushed ∙ take-short n (found ++ p.page_members) (rw (sym pushed) room))
        ∙ ap (take n) (++-assoc found p.page_members (all_members ps))

    enough :
        n ≤ length (push_members n found p.page_members)
        → push_members n found p.page_members ≡ take n (found ++ (p.page_members ++ all_members ps))
    enough full =
        pushed
        ∙ sym (take-full n (found ++ p.page_members) (all_members ps) (rw (sym pushed) full))
        ∙ ap (take n) (++-assoc found p.page_members (all_members ps))

-- The members that a scan returns are the first ones of the pages up to the last, as many as its limit
-- allows and no more.
pub get_index_members-take :
    (n : ℕ) (pages : List Page)
    → (get_index_members (suc n) pages ≡ ok (take (suc n) (all_members pages)))
      × (length (take (suc n) (all_members pages)) ≤ suc n)
unfolding get_index_members
get_index_members-take n pages = (
  ap (λ (ms : List ℕ). ok ms) (scan-take (suc n) [] pages (omega arith)),
  length-take (suc n) (all_members pages),
)
