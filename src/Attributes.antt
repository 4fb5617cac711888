-- ===== src/Attributes.antt =====
-- `parse_header_attributes` of pgsql.h: the attributes that a server sends for SCRAM.
pub mod Entries
pub mod RoundTrip
use qbm_pgsql.Prelude.{
  ℕ, Bool, true, false, not, ◌||◌, ◌&&◌, List, [], ◌∷◌, ◌++◌, leb, ◌==◌, if◌then◌else◌, null,
  length, Result, ok, throws, undefined, runtime_error, ◌>>=◌,
}

pub data Mode : Type 0 where
  name value ignore : Mode

-- The dictionary is the case-insensitive map of the qb framework, as the list of its entries.
abbrev pub Dict : Type 0
Dict = List (List ℕ × List ℕ)

pub record Scan : Type 0 where
  pub mode : Mode
  pub attribute_name : List ℕ
  pub attribute_value : List ℕ
  pub quote : ℕ
  pub dict : Dict

abbrev pub is_control : ℕ → Bool
is_control c = leb c 31 || c == 127

abbrev pub is_end : ℕ → Bool
is_end c = c == b';' || c == b','

abbrev pub name_max : ℕ
name_max = 1024

abbrev pub value_max : ℕ
value_max = 1048576

-- The parameter says which names are the same key of that map.
module _ (same : List ℕ → List ℕ → Bool) where
  abbrev pub contains : Dict → List ℕ → Bool
  contains [] n = false
  contains ((k, v) ∷ rest) n = same k n || contains rest n

  -- An entry that is there stays.
  unfoldable pub emplace : Dict → List ℕ → List ℕ → Dict
  emplace d n v = if contains d n then d else d ++ (n, v) ∷ []

  unfoldable pub on_name : Scan → ℕ → Result Scan
  unfolding emplace
  on_name p c =
      if c == b'='
      then ok (record p { quote = 0; mode = value })
      else if is_end c
      then ok (
          if not (null p.attribute_name)
          then record p {
            dict = emplace p.dict p.attribute_name p.attribute_value;
            attribute_name = [];
          }
          else p)
      else if c == b' '
      then ok p
      else if is_control c || leb name_max (length p.attribute_name)
      then throws runtime_error
      else ok (record p { attribute_name = p.attribute_name ++ c ∷ [] })

  -- An entry is complete.
  abbrev pub complete : Scan → Mode → Scan
  complete p m = record p {
    mode = m;
    attribute_name = [];
    attribute_value = [];
    dict = emplace p.dict p.attribute_name p.attribute_value;
  }

  abbrev pub push_value : Scan → ℕ → Scan
  push_value p c = record p { attribute_value = p.attribute_value ++ c ∷ [] }

  unfoldable pub on_unquoted : Scan → ℕ → Result Scan
  unfolding emplace
  on_unquoted p c =
      if is_end c
      then ok (complete p name)
      else if c == 39 || c == b'"'
      then (if null p.attribute_value
          then ok (record p { quote = c })
          else if leb value_max (length p.attribute_value)
          then throws runtime_error
          else ok (push_value p c))
      else if not (c == b' ') || not (null p.attribute_value)
      then (if is_control c || leb value_max (length p.attribute_value)
          then throws runtime_error
          else ok (push_value p c))
      else ok p

  unfoldable pub on_quoted : Scan → ℕ → Result Scan
  unfolding emplace
  on_quoted p c =
      if c == p.quote
      then ok (complete p ignore)
      else if leb value_max (length p.attribute_value)
      then throws runtime_error
      else ok (push_value p c)

  unfoldable pub step : Mode → Scan → ℕ → Result Scan
  unfolding on_name on_unquoted on_quoted
  step name p c = on_name p c
  step value p c = if p.quote == 0 then on_unquoted p c else on_quoted p c
  step ignore p c = ok (if is_end c then record p { mode = name } else p)

  unfoldable pub scan : List ℕ → Scan → Result Scan
  unfolding step
  scan [] p = ok p
  scan (c ∷ s) p = step p.mode p c >>= scan s

  -- The last attribute is entered whatever it is.
  unfoldable pub parse : List ℕ → Result Dict
  unfolding scan emplace
  parse s =
      scan s
        (record { mode = name; attribute_name = []; attribute_value = []; quote = 0; dict = [] })
      >>= λ p. ok (emplace p.dict p.attribute_name p.attribute_value)
