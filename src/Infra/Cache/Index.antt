-- ===== src/Infra/Cache/Index.antt =====
-- The index of the cache: it stays within its bound, and every value that is live is in it.
use gnester_lite.Common.{
  ℕ, ◌+◌, ◌≤◌, ◌≡◌, refl, ap, ◌∙◌, ◌⊎◌, inl, inr, true, false, ◌==◌, ==_iff, ==-refl, if◌then◌else◌,
  Bool-cases, Option, List, [], ◌∷◌, any, delete_where, length, arith,
}
use gnester_lite.Infra.Cache.{
  Item, Redis, holds, exists, has_member, expiry, is_full, set_indexed_value, delete_indexed_value,
  remove_index_member_if_item_missing,
}

-- What happens to an index: calls of the service on a member, with the key of its value, and the time.
pub data Event : Type 0 where
  sets : ℕ → ℕ → ℕ → Event
  deletes cleans : ℕ → Event
  elapses : ℕ → Event

module _ (key_of : ℕ → ℕ) (maximum : ℕ) where
  unfoldable pub exec : Event → Redis → Redis
  exec (sets m v ttl) s = (set_indexed_value maximum ttl m (key_of m) v s).1
  exec (deletes m) s = delete_indexed_value m (key_of m) s
  exec (cleans m) s = remove_index_member_if_item_missing m (key_of m) s
  exec (elapses d) s = record s { now = s.now + d }

  unfoldable pub run : List Event → Redis → Redis
  run [] s = s
  run (e ∷ es) s = run es (exec e s)

  -- The index is within its bound, if it has one, and has the member of every live value.
  pub record Indexed (s : Redis) : Type 0 where
    pub bounded : 1 ≤ maximum → length s.members ≤ maximum
    pub covered : (m : ℕ) → exists (key_of m) s ≡ true → has_member m s.members ≡ true

length-delete : (m : ℕ) (ms : List ℕ) → length (delete_where (λ n. n == m) ms) ≤ length ms
length-delete m [] = omega arith
length-delete m (n ∷ ms) = ground (arith, length-delete m ms)

has-deleted :
    (k m : ℕ) (ms : List ℕ)
    → (k == m) ≡ false
    → has_member k (delete_where (λ n. n == m) ms) ≡ has_member k ms
has-deleted k m [] h = refl
has-deleted k m (n ∷ ms) h = ground (arith, has-deleted k m ms h, h)

live-deleted :
    (now k l : ℕ) (items : List Item)
    → any (holds now l) (delete_where (λ i. i.key == k) items) ≡ true
    → ((l == k) ≡ false) × (any (holds now l) items ≡ true)
live-deleted now k l [] h = absurd (cc h)
live-deleted now k l (i ∷ items) h = elim (Bool-cases (i.key == k)) [
  | inl hit ↦
      let (other, found) = live-deleted now k l items (ground (arith, h, hit)) in
      (other, ground (arith, found))
  | inr kept ↦ elim (Bool-cases (holds now l i)) [
    | inl it ↦ (ground (arith, it, kept), ground (arith, it))
    | inr other ↦
        let (apart, found) = live-deleted now k l items (ground (arith, h, kept, other)) in
        (apart, ground (arith, found))
  ]
]

-- Time only ends lives.
live-later :
    (now d k : ℕ) (items : List Item)
    → any (holds (now + d) k) items ≡ true
    → any (holds now k) items ≡ true
live-later now d k [] h = h
live-later now d k (i ∷ items) h = ground (arith, live-later now d k items, h)

has-head : (m : ℕ) (ms : List ℕ) → has_member m (m ∷ ms) ≡ true
has-head m ms = rw (==-refl m) refl

has-added :
    (k m : ℕ) (ms : List ℕ)
    → has_member k ms ≡ true
    → has_member k (if has_member m ms then ms else m ∷ ms) ≡ true
has-added k m ms h = elim (Bool-cases (has_member m ms)) [
  | inl old ↦ rw old h
  | inr new ↦ rw new (ground (arith, h))
]

has-added_self :
    (m : ℕ) (ms : List ℕ) → has_member m (if has_member m ms then ms else m ∷ ms) ≡ true
has-added_self m ms = elim (Bool-cases (has_member m ms)) [
  | inl old ↦ rw old old
  | inr new ↦ rw new (has-head m ms)
]

-- A live value after a write is the written one or was live before.
live-set :
    (now k l v : ℕ) (e : Option ℕ) (items : List Item)
    → any
        (holds now l)
        (record { key = k; value = v; expires_at = e } ∷ delete_where (λ i. i.key == k) items)
      ≡ true
    → (k ≡ l) ⊎ (any (holds now l) items ≡ true)
live-set now k l v e items h = elim (Bool-cases (k == l)) [
  | inl same ↦ inl ((==_iff k l).0 same)
  | inr other ↦ inr (live-deleted now k l items (ground (arith, h, other))).1
]

module _ (key_of : ℕ → ℕ) (maximum : ℕ) (key_of_inj : (m n : ℕ) → key_of m ≡ key_of n → m ≡ n) where
  added_bounded :
      (m : ℕ) (s : Redis)
      → is_full maximum m s ≡ false
      → (1 ≤ maximum → length s.members ≤ maximum)
      → 1 ≤ maximum
      → length (if has_member m s.members then s.members else m ∷ s.members) ≤ maximum
  added_bounded m s room h one = ground (arith, room, h one, one)

  sets-Indexed :
      (m v ttl : ℕ) (s : Redis)
      → Indexed key_of maximum s
      → Indexed key_of maximum (set_indexed_value maximum ttl m (key_of m) v s).1
  unfolding set_indexed_value
  sets-Indexed m v ttl s h = elim (Bool-cases (is_full maximum m s)) [
    | inl full ↦ rw full h
    | inr room ↦ rw room (record {
      bounded = added_bounded m s room h.bounded;
      covered = λ k e. elim (live-set s.now (key_of m) (key_of k) v (expiry s.now ttl) s.items e) [
        | inl same ↦ rw (key_of_inj m k same) (has-added_self k s.members)
        | inr old ↦ has-added k m s.members (h.covered k old)
      ];
    })
  ]

  deletes-Indexed :
      (m : ℕ) (s : Redis)
      → Indexed key_of maximum s
      → Indexed key_of maximum (delete_indexed_value m (key_of m) s)
  unfolding delete_indexed_value
  deletes-Indexed m s h = record {
    bounded = λ one. omega (arith, h.bounded one, length-delete m s.members);
    covered = λ k e.
        let (apart, found) = live-deleted s.now (key_of m) (key_of k) s.items e in
        has-deleted k m s.members (distinct k apart) ∙ h.covered k found;
  }
    where
      same_key : (k : ℕ) → (k == m) ≡ true → (key_of k == key_of m) ≡ true
      same_key k same = rw ((==_iff k m).0 same) (==-refl (key_of m))

      distinct : (k : ℕ) → (key_of k == key_of m) ≡ false → (k == m) ≡ false
      distinct k apart = elim (Bool-cases (k == m)) [
        | inl same ↦ absurd (cc (apart, same_key k same))
        | inr other ↦ other
      ]

  cleans-Indexed :
      (m : ℕ) (s : Redis)
      → Indexed key_of maximum s
      → Indexed key_of maximum (remove_index_member_if_item_missing m (key_of m) s)
  unfolding remove_index_member_if_item_missing
  cleans-Indexed m s h = elim (Bool-cases (exists (key_of m) s)) [
    | inl there ↦ rw there h
    | inr gone ↦ rw gone (record {
      bounded = λ one. omega (arith, h.bounded one, length-delete m s.members);
      covered = λ k e. elim (Bool-cases (k == m)) [
        | inl same ↦ absurd (cc (gone, e, ap key_of ((==_iff k m).0 same)))
        | inr other ↦ has-deleted k m s.members other ∙ h.covered k e
      ];
    })
  ]

  exec-Indexed :
      (e : Event) (s : Redis)
      → Indexed key_of maximum s
      → Indexed key_of maximum (exec key_of maximum e s)
  unfolding exec
  exec-Indexed (sets m v ttl) s h = sets-Indexed m v ttl s h
  exec-Indexed (deletes m) s h = deletes-Indexed m s h
  exec-Indexed (cleans m) s h = cleans-Indexed m s h
  exec-Indexed (elapses d) s h = record {
    bounded = h.bounded;
    covered = λ k e. h.covered k (live-later s.now d (key_of k) s.items e);
  }

-- In any run of calls on an index, where each member has a key of its own, the index stays within its
-- bound, if it has one, and has the member of every value that is live, if both held at the start.
pub run-Indexed :
    (key_of : ℕ → ℕ) (maximum : ℕ) (es : List Event) (s : Redis)
    → ((m n : ℕ) → key_of m ≡ key_of n → m ≡ n)
    → Indexed key_of maximum s
    → Indexed key_of maximum (run key_of maximum es s)
unfolding run
run-Indexed key_of maximum [] s inj h = h
run-Indexed key_of maximum (e ∷ es) s inj h =
    run-Indexed key_of maximum es (exec key_of maximum e s) inj
      (exec-Indexed key_of maximum inj e s h)
