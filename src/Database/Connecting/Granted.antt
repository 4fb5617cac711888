-- ===== src/Database/Connecting/Granted.antt =====
-- When `connect` of pgsql.h succeeds, and why it fails.
use qbm_pgsql.Prelude.{
  ◌≡◌, ◌⊎◌, Bool, true, false, ◌&&◌, ◌||◌, Option, none, some, List, [], ◌∷◌, ◌==◌,
}
use qbm_pgsql.Message.{Message}
use qbm_pgsql.Errors.{has_error}
use qbm_pgsql.Database.{Database}
use qbm_pgsql.Database.Connected.{any_grant}
use qbm_pgsql.Database.Connecting.{Network, negotiates, Occurrence, message, disconnected}

abbrev pub messages_in : List Occurrence → List Message
messages_in [] = []
messages_in (message m ∷ rest) = m ∷ messages_in rest
messages_in (disconnected ∷ rest) = messages_in rest

abbrev pub any_granted : List (List Occurrence) → Bool
any_granted [] = false
any_granted (round ∷ rounds) = any_grant (messages_in round) || any_granted rounds

-- The answer of `connect`, if there is one.
abbrev pub reaches : Network → Bool
reaches n = n.tcp_connect == 0 && negotiates n

abbrev pub Answered : Network → List (List Occurrence) → Option Bool × Database → Type 0
Answered n rounds (none, e) = Unit {0}
Answered n rounds (some b, e) =
    ((b ≡ true) × (reaches n ≡ true) × (any_granted rounds ≡ true))
    ⊎ ((b ≡ false) × ((reaches n ≡ false) ⊎ (has_error e.error ≡ true)))
