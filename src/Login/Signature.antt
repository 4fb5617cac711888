-- ===== src/Login/Signature.antt =====
-- The check of the server's signature in `on_authentication` of pgsql.h, and the message that
-- follows it.
use qbm_pgsql.Prelude.{
  ℕ, ◌≡◌, refl, ap, ◌∙◌, Bool, true, false, ◌&&◌, Option, none, some, List, [], ◌∷◌, ◌++◌, ◌==◌,
  if◌then◌else◌, bytes_eq, bytes_eq_refl, bytes_eq_ne, ◌≢◌, codes, Result, ok, throws, undefined,
  runtime_error, ◌>>=◌,
}
use qbm_pgsql.Message.{read_string}
use qbm_pgsql.Notice.Laws.{read_string_total}

-- What the check uses of qb::crypto: HMAC-SHA-256 of a key and a text, and base64.
pub record Crypto : Type 0 where
  pub hmac_sha256 : List ℕ → List ℕ → List ℕ
  pub base64_encode : List ℕ → List ℕ

-- The part of `Database` that authentication keeps.
pub record Session : Type 0 where
  pub is_connected : Bool
  pub password_salt : List ℕ
  pub auth_message : List ℕ

-- `serverFinalMessage.find("v=")` and what follows it.
unfoldable pub after_prefix : List ℕ → Option (List ℕ)
after_prefix [] = none
after_prefix (a ∷ []) = none
after_prefix (a ∷ b ∷ s) = if a == b'v' && b == b'=' then some s else after_prefix (b ∷ s)

abbrev pub text_or_empty : Option (List ℕ) → List ℕ
text_or_empty none = []
text_or_empty (some s) = s

unfoldable pub signature : Crypto → Session → List ℕ
signature c s =
    c.base64_encode
      (c.hmac_sha256 (c.hmac_sha256 s.password_salt (codes "Server Key")) s.auth_message)

-- The body of the `try` block.
unfoldable pub verify : Crypto → Session → List ℕ → Result (Unit {0})
unfolding after_prefix signature
verify c s final = elim (after_prefix final) [
  | none ↦ throws runtime_error
  | some received ↦ elim (bytes_eq (signature c s) received) [
    | true ↦ ok tt
    | false ↦ throws runtime_error
  ]
]

-- The `catch` block logs the exception, and the session goes on.
abbrev pub caught : Result (Unit {0}) → Session → Result Session
caught (ok u) s = ok s
caught (throws e) s = ok s
caught undefined s = undefined

unfoldable pub server_check : Crypto → Session → List ℕ → Result Session
unfolding read_string verify
server_check c s unread =
    read_string unread >>= λ (final, rest). caught (verify c s (text_or_empty final)) s

-- `OK`.
unfoldable pub authenticated : Session → Session
authenticated s = record s { is_connected = true }

caught-verify : (c : Crypto) (s : Session) (final : List ℕ) → caught (verify c s final) s ≡ ok s
unfolding verify
caught-verify c s final = by_prefix (after_prefix final)
  where
    by_match : (b : Bool) → caught (elim b [ true ↦ ok tt | false ↦ throws runtime_error ]) s ≡ ok s
    by_match true = refl
    by_match false = refl

    by_prefix :
        (o : Option (List ℕ))
        → caught
            (elim o [
              | none ↦ throws runtime_error
              | some received ↦ elim (bytes_eq (signature c s) received) [
                | true ↦ ok tt
                | false ↦ throws runtime_error
              ]
            ])
            s
          ≡ ok s
    by_prefix none = refl
    by_prefix (some received) = by_match (bytes_eq (signature c s) received)

-- The check itself accepts the signature that was computed, behind `v=`, and throws at any other.
pub verify_decides :
    (c : Crypto) (s : Session)
    → (verify c s (codes "v=" ++ signature c s) ≡ ok tt)
      × ((x : List ℕ) → x ≢ signature c s → verify c s (codes "v=" ++ x) ≡ throws runtime_error)
unfolding verify
verify_decides c s = (
  ap (λ b. elim b [ true ↦ ok tt | false ↦ throws runtime_error ]) (bytes_eq_refl (signature c s)),
  λ x h.
      ap (λ b. elim b [ true ↦ ok tt | false ↦ throws runtime_error ])
        (bytes_eq_ne (signature c s) x h),
)

-- Whatever the server sends for its signature, right, wrong or none, the check changes nothing and
-- fails nothing; an `OK` that follows makes the client connected all the same.
pub server_check_accepts :
    (c : Crypto) (s : Session) (unread : List ℕ)
    → (server_check c s unread ≡ ok s)
      × ((server_check c s unread >>= λ t. ok (authenticated t).is_connected) ≡ ok true)
unfolding server_check authenticated
server_check_accepts c s unread =
    let (v, r, e, le) = read_string_total unread in
    let accepted : server_check c s unread ≡ ok s =
      ap (λ x. x >>= λ (final, rest). caught (verify c s (text_or_empty final)) s) e
      ∙ caught-verify c s (text_or_empty v) in
    (accepted, ap (λ x. x >>= λ t. ok (authenticated t).is_connected) accepted)
