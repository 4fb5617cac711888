-- ===== src/Query/Storage.antt =====
-- The store of prepared statements of src/queries.h, and the validity of a query.
use qbm_pgsql.Prelude.{
  ℕ, ◌≡◌, ◌≢◌, refl, true, false, some, List, bytes_eq_refl, bytes_eq_ne, ok, throws, out_of_range,
  arith, Option-cases, inl, inr,
}
use qbm_pgsql.Wire.{Host}
use qbm_pgsql.Message.{Message}
use qbm_pgsql.Query.{
  PreparedQuery, PreparedStorage, find, has, push, get, is_valid, SqlQuery, begin, commit, rollback,
  savepoint, release_savepoint, rollback_savepoint, simple, parse, execute, message_of,
  bind_message,
}

find-push_self :
    (s : PreparedStorage) (q : PreparedQuery) → find q.name (push s q).0 ≡ some (push s q).1
unfolding push
find-push_self s q = ground (arith, bytes_eq_refl q.name)

find-push_ne :
    (s : PreparedStorage) (q : PreparedQuery) (name : List ℕ)
    → name ≢ q.name
    → find name (push s q).0 ≡ find name s
unfolding push
find-push_ne s q name h = ground (arith, bytes_eq_ne q.name name h)

push_taken :
    (s : PreparedStorage) (q old : PreparedQuery) → get s q.name ≡ ok old → push s q ≡ (s, old)
unfolding push get
push_taken s q old e = elim (Option-cases (find q.name s)) [
  | inl n ↦ absurd (ground (arith, n, e))
  | inr (o, f) ↦ ground (arith, f, e)
]

push_new : (s : PreparedStorage) (q : PreparedQuery) → has s q.name ≡ false → (push s q).1 ≡ q
unfolding push has
push_new s q e = ground arith

-- After a push the name gives what the push returned, no other name changes, and where the name
-- was taken the store and the statement under it stay as they were; else it is the new one.
pub storage_push :
    (s : PreparedStorage) (q : PreparedQuery)
    → (get (push s q).0 q.name ≡ ok (push s q).1)
      × ((name : List ℕ) → name ≢ q.name → get (push s q).0 name ≡ get s name)
      × ((old : PreparedQuery) → get s q.name ≡ ok old → push s q ≡ (s, old))
      × (has s q.name ≡ false → (push s q).1 ≡ q)
unfolding get
storage_push s q = (
  rw (find-push_self s q, get),
  λ name h. rw (find-push_ne s q name h, get),
  push_taken s q,
  push_new s q,
)

get-has-true :
    (s : PreparedStorage) (name : List ℕ)
    → has s name ≡ true
    → (q : PreparedQuery) × (get s name ≡ ok q)
unfolding get has
get-has-true s name e = elim (Option-cases (find name s)) [
  | inl n ↦ absurd (ground (arith, n, e))
  | inr (q, f) ↦ (q, rw (f, get))
]

get-has-false :
    (s : PreparedStorage) (name : List ℕ) → has s name ≡ false → get s name ≡ throws out_of_range
unfolding get has
get-has-false s name e = ground arith

module _ ⦃h : Host⦄ where
  -- A query that is valid has a message, and the lookup throws at one that is not.
  pub message_of_valid :
      (s : PreparedStorage) (q : SqlQuery)
      → (is_valid s q ≡ true → (m : Message) × (message_of s q ≡ ok m))
        × (is_valid s q ≡ false → message_of s q ≡ throws out_of_range)
  unfolding message_of is_valid
  message_of_valid s (execute name p) = (
    λ v. let (q, e) = get-has-true s name v in (bind_message q p, rw e),
    λ v. rw (get-has-false s name v),
  )
  message_of_valid s (begin mode) = (λ v. (_, refl), λ v. cc)
  message_of_valid s commit = (λ v. (_, refl), λ v. cc)
  message_of_valid s rollback = (λ v. (_, refl), λ v. cc)
  message_of_valid s (savepoint name) = (λ v. (_, refl), λ v. cc)
  message_of_valid s (release_savepoint name) = (λ v. (_, refl), λ v. cc)
  message_of_valid s (rollback_savepoint name) = (λ v. (_, refl), λ v. cc)
  message_of_valid s (simple expression) = (λ v. (_, refl), λ v. cc)
  message_of_valid s (parse query) = (λ v. (_, refl), λ v. cc)
