-- ===== src/Users/View.antt =====
-- The table as a map from user names to passwords, and what each operation does to that map.
use tpe_protos.Common.{
  ℕ, ◌<◌, ◌≡◌, refl, ◌∙◌, List, [], ◌∷◌, Option, none, some, Bool, true, false, ◌&&◌, not, ◌==◌,
  if◌then◌else◌, length, length-set, length-replicate, replicate, get_or, get_or-set, set, take-all,
  str_eq, str_eq_iff, All, All-get_or, All-set, arith, Bool-cases, inl, inr, zero, suc, ◌↔◌,
}
use tpe_protos.Users.{
  Chain, Table, hashmap_size, max_len, hash, auth_init, auth_add_user, auth_remove_user,
  auth_check_credentials, has_user, unlink, has_credentials, new_user,
}

-- The password of the first entry of that name.
pub find : List ℕ → Chain → Option (List ℕ)
find k [] = none
find k (e ∷ chain) = if str_eq e.username k then some e.password else find k chain

abbrev pub is_some {ℓ} : {A : Type ℓ} → Option A → Bool
is_some none = false
is_some (some a) = true

-- No name stands twice in the chain.
abbrev IsDistinct : Chain → Type 0
IsDistinct [] = Unit {0}
IsDistinct (e ∷ chain) = (find e.username chain ≡ none) × IsDistinct chain

-- All the chains are there, and no name stands twice in one.
pub record IsValid (t : Table) : Type 0 where
  pub sized : length t ≡ hashmap_size
  pub distinct : All IsDistinct t

pub view : Table → List ℕ → Option (List ℕ)
unfolding find
view t k = find k (get_or t (hash k) [])

hash-lt : (k : List ℕ) → hash k < hashmap_size
unfolding hash
hash-lt k = omega arith

has_user-find : (k : List ℕ) (c : Chain) → has_user k c ≡ is_some (find k c)
unfolding has_user find
has_user-find k [] = refl
has_user-find k (e ∷ c) = ground (arith, has_user-find k c)

unlink_found : (k : List ℕ) (c : Chain) → (unlink k c).1 ≡ is_some (find k c)
unfolding unlink find
unlink_found k [] = refl
unlink_found k (e ∷ c) = ground (arith, unlink_found k c)

find-unlink :
    (j k : List ℕ) (c : Chain)
    → IsDistinct c
    → find j (unlink k c).0 ≡ (if str_eq k j then none else find j c)
unfolding unlink find
find-unlink j k [] h = ground arith
find-unlink j k (e ∷ c) h =
    ground
      (arith, find-unlink j k c, str_eq_iff e.username k, str_eq_iff e.username j, str_eq_iff k j)

unlink-IsDistinct : (k : List ℕ) (c : Chain) → IsDistinct c → IsDistinct (unlink k c).0
unfolding unlink
unlink-IsDistinct k [] h = tt
unlink-IsDistinct k (e ∷ c) h = ground (arith, unlink-IsDistinct k c, find-unlink e.username k c)

has_credentials-find :
    (k p : List ℕ) (c : Chain) → IsDistinct c → (has_credentials k p c ≡ true) ↔ (find k c ≡ some p)
unfolding has_credentials find
has_credentials-find k p [] h = ground arith
has_credentials-find k p (e ∷ c) h =
    ground (arith, has_credentials-find k p c h.1, str_eq_iff e.username k, str_eq_iff e.password p)

-- A chain written back in the bucket of `k` is seen by the names of that bucket alone.
view-set :
    (t : Table) (k j : List ℕ) (c : Chain)
    → IsValid t
    → view (set t (hash k) c) j ≡ (if hash k == hash j then find j c else view t j)
unfolding view
view-set t k j c v =
    rw (get_or-set t (hash k) (hash j) c [] (omega (arith, v.sized, hash-lt k))) (ground arith)

set-IsValid : (t : Table) (i : ℕ) (c : Chain) → IsValid t → IsDistinct c → IsValid (set t i c)
set-IsValid t i c v d = record {
  sized = length-set t i c ∙ v.sized;
  distinct = All-set IsDistinct t i c v.distinct d;
}

abbrev chain_of : Table → List ℕ → Chain
chain_of t k = get_or t (hash k) []

chain_of-IsDistinct : {t : Table} (k : List ℕ) → IsValid t → IsDistinct (chain_of t k)
chain_of-IsDistinct {t} k v = All-get_or IsDistinct t (hash k) [] v.distinct tt

replicate-IsDistinct : (n : ℕ) → All IsDistinct (replicate n [])
replicate-IsDistinct zero = tt
replicate-IsDistinct (suc n) = (tt, replicate-IsDistinct n)

get_or-replicate {ℓ} : {A : Type ℓ} (n i : ℕ) (a : A) → get_or (replicate n a) i a ≡ a
get_or-replicate zero i a = refl
get_or-replicate (suc n) zero a = refl
get_or-replicate (suc n) (suc i) a = get_or-replicate n i a

-- The table behind `auth_init` is valid, and the map that it stands for is empty.
pub auth_init_lem : IsValid auth_init × ((k : List ℕ) → view auth_init k ≡ none)
unfolding auth_init view find
auth_init_lem = (
  record {
    sized = length-replicate {A = Chain} hashmap_size [];
    distinct = replicate-IsDistinct hashmap_size;
  },
  λ k. rw (get_or-replicate {A = Chain} hashmap_size (hash k) []),
)

-- Names and passwords that the table keeps whole.
abbrev pub Fits : List ℕ → Type 0
Fits k = length k < max_len

has_user-false :
    (k : List ℕ) {t : Table} → IsValid t → has_user k (chain_of t k) ≡ false → view t k ≡ none
unfolding view
has_user-false k {t} v e = ground (arith, has_user-find k (chain_of t k))

-- The chain of `k` with an entry for `k` in front, seen from any name.
view-cons :
    (k p j : List ℕ) {t : Table}
    → IsValid t
    → Fits k
    → Fits p
    → view (set t (hash k) (new_user k p ∷ chain_of t k)) j
      ≡ (if str_eq k j then some p else view t j)
view-cons k p j {t} v fk fp =
    rw (take-all 255 k (omega arith), take-all 255 p (omega arith), view-set t k j _ v)
      (unfold view find in ground (arith, str_eq_iff k j))

-- An attempt to add `k` with the password `p` gave `r`: the name is added if it is new and there is
-- memory, and no other name is touched.
abbrev pub Adds : List ℕ → List ℕ → Bool → Table → Table × Bool → Type 0
Adds k p allocated t r =
    IsValid r.0
    × (r.1 ≡ (allocated && not (is_some (view t k))))
    × ((j : List ℕ) → view r.0 j ≡ (if r.1 && str_eq k j then some p else view t j))

-- What the code does to a table without the name `k`.
add_new :
    (allocated : Bool) (k p : List ℕ) {t : Table}
    → IsValid t
    → Fits k
    → Fits p
    → view t k ≡ none
    → Adds k p allocated t
        (if allocated then (set t (hash k) (new_user k p ∷ chain_of t k), true) else (t, false))
add_new true k p {t} v fk fp e = (
  set-IsValid t (hash k) (new_user k p ∷ chain_of t k) v
      (rw (take-all 255 k (omega arith)) (unfold view in e, chain_of-IsDistinct k v)),
  rw e,
  λ j. view-cons k p j v fk fp,
)
add_new false k p v fk fp e = (v, refl, λ j. refl)

-- An attempt to add a name and a password of fewer than 256 bytes to a valid table leaves a valid
-- table. It succeeds exactly where there is memory and the name is new; then the map holds the
-- password under the name, and no other name is touched.
pub auth_add_user_lem :
    (allocated : Bool) (k p : List ℕ) {t : Table}
    → IsValid t
    → Fits k
    → Fits p
    → Adds k p allocated t (auth_add_user allocated k p t)
unfolding auth_add_user
auth_add_user_lem allocated k p {t} v fk fp = elim (Bool-cases (has_user k (chain_of t k))) [
  | inl e ↦ rw e (v, unfold view in ground (arith, has_user-find k (chain_of t k)), λ j. refl)
  | inr e ↦ rw e (add_new allocated k p v fk fp (has_user-false k v e))
]

-- The chain of `k` without `k`, seen from any name.
view-unlink :
    (k j : List ℕ) {t : Table}
    → IsValid t
    → (if hash k == hash j then find j (unlink k (chain_of t k)).0 else view t j)
      ≡ (if str_eq k j then none else view t j)
unfolding view
view-unlink k j {t} v =
    ground (arith, find-unlink j k (chain_of t k) (chain_of-IsDistinct k v), str_eq_iff k j)

-- Removing a name from a valid table leaves a valid table, reports whether the name was in the
-- map, and takes that name and no other out of the map.
pub auth_remove_user_lem :
    (k : List ℕ) {t : Table}
    → IsValid t
    → let (t', removed) = auth_remove_user k t in
      IsValid t'
      × (removed ≡ is_some (view t k))
      × ((j : List ℕ) → view t' j ≡ (if str_eq k j then none else view t j))
unfolding auth_remove_user
auth_remove_user_lem k {t} v = (
  set-IsValid t (hash k) (unlink k (chain_of t k)).0 v
      (unlink-IsDistinct k (chain_of t k) (chain_of-IsDistinct k v)),
  unfold view in unlink_found k (chain_of t k),
  λ j. rw (view-set t k j (unlink k (chain_of t k)).0 v) (view-unlink k j v),
)

-- In a valid table the credentials are accepted exactly where the map holds that password under
-- that name.
pub auth_check_credentials_lem :
    (k p : List ℕ) {t : Table}
    → IsValid t
    → (auth_check_credentials k p t ≡ true) ↔ (view t k ≡ some p)
unfolding auth_check_credentials view
auth_check_credentials_lem k p {t} v =
    has_credentials-find k p (chain_of t k) (chain_of-IsDistinct k v)
