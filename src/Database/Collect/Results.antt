-- ===== src/Database/Collect/Results.antt =====
-- A query's messages of pgsql.h, from their bytes to the typed access of src/resultset.inl.
use qbm_pgsql.Prelude.{
  ℕ, zero, suc, ◌+◌, ◌<◌, ◌≤◌, ◌≡◌, refl, ap, ◌∙◌, subst, true, false, Option, some, List, [], ◌∷◌,
  ◌++◌, length, get_elem?, map, ok, ◌>>=◌, arith, All, length-map, append_assoc, append-nil,
  length-append, drop-append,
}
use qbm_pgsql.Wire.{Host, big_endian}
use qbm_pgsql.Wire.Laws.{length-big_endian}
use qbm_pgsql.Message.{Message, FieldDescription, tag, message_length, reset_read}
use qbm_pgsql.Message.Tag
use qbm_pgsql.Message.Reads.{IsField}
use qbm_pgsql.Framing.{on_message, fresh}
use qbm_pgsql.Framing.Step.{header, after, length-header, message_length-header}
use qbm_pgsql.Row.Columns.{Column, columns_bytes, values}
use qbm_pgsql.Row.RoundTrip.{received, length-columns_bytes, read_row-columns_bytes}
use qbm_pgsql.Query.{PreparedStorage, PreparedQuery, get}
use qbm_pgsql.Convert.{ValueType, Value}
use qbm_pgsql.Resultset.{ResultImpl, size}
use qbm_pgsql.Resultset.Access.{results}
use qbm_pgsql.Field.{row_to}
use qbm_pgsql.Field.Sent.{get_elem?-map, sent, sent_row, IsCell}
use qbm_pgsql.Field.Rows.{up_to_null, type_or, row_to-sent}
use qbm_pgsql.Database.Described.{as_read, all_fields_bytes, read_description-all_fields_bytes}
use qbm_pgsql.Database.Collect.{
  Collector, result_query, query_prepared, no_results, on_new_row_description, on_new_data_row,
  results_of, collect, collect_all,
}

-- A message as the framing hands it over.
abbrev pub handed : ℕ → List ℕ → Message
handed t body = record { payload = header t (length body) ++ body; unread = body; packed = false }

-- A message that has come whole is handed over so, and the next one starts afresh.
on_message-handed :
    (t : ℕ) (body : List ℕ)
    → on_message true (after (header t (length body)) body) ≡ ok (some (handed t body), fresh)
unfolding on_message reset_read
on_message-handed t [] = ground (
  arith,
  length-header t 0,
  append-nil (header t 0),
  length-append (header t 0) [],
  drop-append 5 (header t 0) [] (length-header t 0),
)
on_message-handed t (b ∷ body) =
    let whole = header t (length (b ∷ body)) in
    ground (
      arith,
      length-header t (length (b ∷ body)),
      length-append whole (b ∷ body),
      drop-append 5 whole (b ∷ body) (length-header t (length (b ∷ body))),
    )

abbrev pub description : List FieldDescription → Message
description fs = handed Tag.row_description (big_endian 2 (length fs) ++ all_fields_bytes fs [])

abbrev pub row : List Column → Message
row cs = handed Tag.data_row (big_endian 2 (length cs) ++ columns_bytes cs [])

abbrev pub Fits : List Column → Type 0
Fits cs = (length cs < 32768) × (length (values cs) < 2147483648)

module _ ⦃h : Host⦄ where
  collect-description :
      (r : ResultImpl) (fs : List FieldDescription)
      → All IsField fs
      → length fs < 32768
      → collect result_query r (description fs) ≡ ok (record r { row_description = map as_read fs })
  unfolding collect on_new_row_description tag header
  collect-description r fs a p = rw (read_description-all_fields_bytes fs [] a p) refl

  message_length-handed :
      (t : ℕ) (body : List ℕ)
      → 4 + length body < 4294967296
      → message_length (handed t body) ≡ 4 + length body
  unfolding message_length
  message_length-handed t body p = message_length-header t (length body) body p

  length-row_body :
      (cs : List Column)
      → Fits cs
      → 4 + length (big_endian 2 (length cs) ++ columns_bytes cs []) < 4294967296
  length-row_body cs (n, p) = omega (
    arith,
    length-append (big_endian 2 (length cs)) (columns_bytes cs []),
    length-big_endian 2 (length cs),
    length-columns_bytes cs [],
  )

  collect-row :
      (k : Collector) (r : ResultImpl) (cs : List Column)
      → Fits cs
      → collect k r (row cs) ≡ ok (record r { rows = r.rows ++ received cs ∷ [] })
  unfolding collect on_new_data_row tag header
  collect-row k r cs (n, p) =
      let body = big_endian 2 (length cs) ++ columns_bytes cs [] in
      rw
        (
          message_length-handed Tag.data_row body (length-row_body cs (n, p)),
          read_row-columns_bytes cs n p,
        )
        refl

  collect_all-rows :
      (k : Collector) (r : ResultImpl) (css : List (List Column))
      → All Fits css
      → collect_all k r (map row css) ≡ ok (record r { rows = r.rows ++ map received css })
  unfolding collect_all
  collect_all-rows k r [] a = rw (append-nil r.rows) refl
  collect_all-rows k r (cs ∷ css) (a, rest) = rw (collect-row k r cs a) (
      collect_all-rows k (record r { rows = r.rows ++ received cs ∷ [] }) css rest
      ∙ ap (λ l. ok (record r { rows = l }))
          (append_assoc r.rows (received cs ∷ []) (map received css)))

  collect_all-query :
      (fs : List FieldDescription) (css : List (List Column))
      → All IsField fs
      → length fs < 32768
      → All Fits css
      → collect_all result_query no_results (description fs ∷ map row css)
        ≡ ok (results (map as_read fs) css)
  unfolding collect_all
  collect_all-query fs css a p b =
      rw (collect-description no_results fs a p) (collect_all-rows result_query _ css b)

-- The list of rows at one of them.
All-at {ℓ κ} :
    {A : Type ℓ} (P : A → Type κ) (xs : List A) (i : ℕ) (x : A)
    → All P xs
    → get_elem? xs i ≡ some x
    → P x
All-at P [] i x a e = let absurdity : ⊥ = cc in absurd absurdity
All-at P (y ∷ ys) zero x a e = let same : y ≡ x = cc in subst P same a.0
All-at P (y ∷ ys) (suc i) x a e = All-at P ys i x a.1 e

-- The columns of the rows of a table, in the formats of the fields.
abbrev pub columns : List FieldDescription → List (List (Option Value)) → List (List Column)
columns fs table = map (sent_row (map as_read fs)) table

module _ ⦃h : Host⦄ where
  -- What the program reads of the result of a table.
  read_back :
      (fs : List FieldDescription) (table : List (List (Option Value)))
      → All Fits (columns fs table)
      → All (λ vs. (length vs ≤ length fs) × All IsCell vs) table
      → (size (sent (map as_read fs) table) ≡ length table)
        × ((i : ℕ) (vs : List (Option Value)) (t : ValueType)
            → get_elem? table i ≡ some vs
            → row_to (sent (map as_read fs) table) i 0 (map (type_or t) vs) ≡ up_to_null vs)
  unfolding size
  read_back fs table b c = (
    length-map received (columns fs table) ∙ length-map (sent_row (map as_read fs)) table,
    λ i vs t e.
        (let (described, cells) =
            All-at (λ vs. (length vs ≤ length fs) × All IsCell vs) table i vs c e in
          let (many, small) =
            All-at Fits (columns fs table) i (sent_row (map as_read fs) vs) b
              (get_elem?-map (sent_row (map as_read fs)) table i vs e) in
          row_to-sent (map as_read fs) table i vs t e
            (omega (arith, described, length-map as_read fs)) small cells),
  )

  -- A query without parameters, answered by the description of its fields and a data row for each
  -- row of a table of typed values, each in the format of its field, with fewer than 2 ^ 15 fields
  -- and 2 ^ 31 bytes of values in a row: the messages are taken without a fault, the program gets as
  -- many rows as there are, and each of them, read by the types of its values, gives these values up
  -- to the first null.
  pub row_to-collect_all :
      (fs : List FieldDescription) (table : List (List (Option Value))) (storage : PreparedStorage)
      → All IsField fs
      → length fs < 32768
      → All Fits (columns fs table)
      → All (λ vs. (length vs ≤ length fs) × All IsCell vs) table
      → (r : ResultImpl) × ((collect_all result_query no_results
              (description fs ∷ map row (columns fs table))
            >>= results_of storage result_query)
          ≡ ok r)
        × (size r ≡ length table)
        × ((i : ℕ) (vs : List (Option Value)) (t : ValueType)
            → get_elem? table i ≡ some vs
            → row_to r i 0 (map (type_or t) vs) ≡ up_to_null vs)
  unfolding results_of
  row_to-collect_all fs table storage a p b c = (
    sent (map as_read fs) table,
    rw (collect_all-query fs (columns fs table) a p b) refl,
    (read_back fs table b c).0,
    (read_back fs table b c).1,
  )

  -- A statement that is in the store with the descriptions of `fs`, executed and answered by a data
  -- row for each row of such a table: the descriptions come from the store and the rows from the
  -- messages, the messages are taken without a fault, the program gets as many rows as there are, and
  -- each of them, read by the types of its values, gives these values up to the first null.
  pub row_to-query_prepared :
      (fs : List FieldDescription) (table : List (List (Option Value))) (storage : PreparedStorage)
      (name : List ℕ) (q : PreparedQuery)
      → get storage name ≡ ok q
      → q.row_description ≡ map as_read fs
      → All Fits (columns fs table)
      → All (λ vs. (length vs ≤ length fs) × All IsCell vs) table
      → (r : ResultImpl) × ((collect_all
              (query_prepared name)
              no_results
              (map row (columns fs table))
            >>= results_of storage (query_prepared name))
          ≡ ok r)
        × (size r ≡ length table)
        × ((i : ℕ) (vs : List (Option Value)) (t : ValueType)
            → get_elem? table i ≡ some vs
            → row_to r i 0 (map (type_or t) vs) ≡ up_to_null vs)
  unfolding results_of
  row_to-query_prepared fs table storage name q s d b c = (
    sent (map as_read fs) table,
    rw (collect_all-rows (query_prepared name) no_results (columns fs table) b, s, d) refl,
    (read_back fs table b c).0,
    (read_back fs table b c).1,
  )
