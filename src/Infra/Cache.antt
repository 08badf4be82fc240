-- ===== src/Infra/Cache.antt =====
-- infra/cache/cache.service.ts: values with an index of bounded size.
-- Redis is outside: a key holds a value up to an instant, and the index is a set. The commands of
-- the scripts have their documented effect on them. Keys, members and values are numbers.
pub mod Index
pub mod Scan
use gnester_lite.Common.{
  ℕ, zero, suc, ◌+◌, ◌-◌, min, ◌≡◌, Bool, true, false, not, ◌&&◌, ◌||◌, ◌==◌, ltb, leb,
  if◌then◌else◌, Option, none, some, List, [], ◌∷◌, ◌++◌, any, find, length, delete_where, Result,
  ok, err, Failure, service_unavailable, range_error, Program, ◌>>=◌, ◌>>◌, return, read, write,
}

pub record Item : Type 0 where
  pub key : ℕ
  pub value : ℕ
  pub expires_at : Option ℕ

pub record Redis : Type 0 where
  pub now : ℕ
  pub items : List Item
  pub members : List ℕ

abbrev pub is_live : ℕ → Option ℕ → Bool
is_live now none = true
is_live now (some t) = ltb now t

abbrev pub holds : ℕ → ℕ → Item → Bool
holds now k i = i.key == k && is_live now i.expires_at

-- EXISTS, SISMEMBER and SCARD
abbrev pub exists : ℕ → Redis → Bool
exists k s = any (holds s.now k) s.items

abbrev pub has_member : ℕ → List ℕ → Bool
has_member m ms = any (λ n. n == m) ms

-- SET, with PEXPIRE where the time to live is not 0
abbrev pub expiry : ℕ → ℕ → Option ℕ
expiry now ttl = if ltb 0 ttl then some (now + ttl) else none

abbrev pub set_item : ℕ → ℕ → ℕ → Redis → Redis
set_item k v ttl s = record s {
  items =
      record { key = k; value = v; expires_at = expiry s.now ttl }
      ∷ delete_where (λ i. i.key == k) s.items;
}

abbrev pub delete_item : ℕ → Redis → Redis
delete_item k s = record s { items = delete_where (λ i. i.key == k) s.items }

-- SADD and SREM
abbrev pub add_member : ℕ → Redis → Redis
add_member m s = record s { members = if has_member m s.members then s.members else m ∷ s.members }

abbrev pub remove_member : ℕ → Redis → Redis
remove_member m s = record s { members = delete_where (λ n. n == m) s.members }

-- SET_INDEXED_VALUE_SCRIPT, without a capacity where the maximum is 0
abbrev pub is_full : ℕ → ℕ → Redis → Bool
is_full maximum m s =
    ltb 0 maximum && not (has_member m s.members) && leb maximum (length s.members)

unfoldable pub set_indexed_value : ℕ → ℕ → ℕ → ℕ → ℕ → Redis → Bool × Redis
set_indexed_value maximum ttl m k v s =
    if is_full maximum m s then (false, s) else (true, add_member m (set_item k v ttl s))

-- DELETE_INDEXED_VALUE_SCRIPT
unfoldable pub delete_indexed_value : ℕ → ℕ → Redis → Redis
delete_indexed_value m k s = remove_member m (delete_item k s)

-- REMOVE_MISSING_INDEX_MEMBER_SCRIPT
unfoldable pub remove_index_member_if_item_missing : ℕ → ℕ → Redis → Redis
remove_index_member_if_item_missing m k s = if exists k s then s else remove_member m s

-- A page of SSCAN: its members, and whether its cursor is 0.
pub record Page : Type 0 where
  pub page_members : List ℕ
  pub is_last : Bool

-- The loop over the members of a page, which stops at the limit.
unfoldable pub push_members : ℕ → List ℕ → List ℕ → List ℕ
push_members maximum found [] = found
push_members maximum found (m ∷ ms) =
    let rest = push_members maximum (found ++ m ∷ []) ms in
    if length (found ++ m ∷ []) == maximum then found ++ m ∷ [] else rest

-- The loop over the pages, as far as Redis answers: the last page has the cursor 0.
unfoldable pub scan : ℕ → List ℕ → List Page → List ℕ
scan maximum found [] = found
scan maximum found (p ∷ ps) =
    let pushed = push_members maximum found p.page_members in
    let rest = scan maximum pushed ps in
    if not p.is_last && ltb (length pushed) maximum then rest else pushed

unfoldable pub get_index_members : ℕ → List Page → Result (List ℕ)
get_index_members zero pages = err (range_error "Cache index scan limit must be a positive integer")
get_index_members (suc n) pages = ok (scan (suc n) [] pages)

-- How a call of the backend ends within its budget.
pub data Ending (A : Type 0) : Type 0 where
  returned : A → Ending A
  thrown : Failure → Ending A
  expired : Ending A

abbrev pub rethrown : {A : Type 0} → Failure → Result A
rethrown (service_unavailable m) = err (service_unavailable m)
rethrown (range_error m) = err (range_error m)
rethrown e = err (service_unavailable "Cache backend is unavailable")

unfoldable pub complete_within_budget : {A : Type 0} → ℕ → Ending A → Result A
complete_within_budget zero ending =
    err (range_error "Cache availability budget must be a positive integer")
complete_within_budget (suc n) (returned a) = ok a
complete_within_budget (suc n) (thrown e) = rethrown e
complete_within_budget (suc n) expired =
    err (service_unavailable "Cache backend did not respond within the availability budget")
