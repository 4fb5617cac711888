-- ===== src/Notice/Laws.antt =====
-- What `message::read(notice_message &)` of src/protocol.cpp makes of any bytes, and of a notice.
use qbm_pgsql.Prelude.{
  ℕ, zero, suc, ◌≤◌, ◌<◌, ◌≡◌, ◌≢◌, refl, ap, ◌∙◌, Option, none, some, List, [], ◌∷◌, ◌++◌, ◌==◌,
  if◌then◌else◌, length, ok, arith, length-append, drop, length-drop, Bool-cases, inl, inr,
}
use qbm_pgsql.Traits.{protocol_read, text_reader_string, before_nul, from_nul}
use qbm_pgsql.Message.{read_string, settle}
use qbm_pgsql.Message.Reads.{NoNul, read_string-nul}
use qbm_pgsql.Notice.{NoticeMessage, Member, get, store, read_fields, read_notice}

length-from_nul : (s : List ℕ) → length (from_nul s) ≤ length s
length-from_nul [] = omega arith
length-from_nul (c ∷ s) = ground (arith, length-from_nul s)

settle_total :
    {A : Type 0} (v : Option A) (c s : List ℕ)
    → length c ≤ length s
    → (w : Option A) × (r : List ℕ) × (settle v c s ≡ ok (w, r)) × (length r ≤ length s)
settle_total v c s h = elim (Bool-cases (length c == length s)) [
  | inl e ↦ (none, s, rw e, omega arith)
  | inr e ↦ (v, c, rw e, h)
]

-- Any read of a text returns, and moves the cursor forwards if at all.
pub read_string_total :
    (s : List ℕ)
    → (v : Option (List ℕ)) × (r : List ℕ) × (read_string s ≡ ok (v, r)) × (length r ≤ length s)
unfolding read_string protocol_read text_reader_string
read_string_total [] = (none, [], refl, omega arith)
read_string_total (c ∷ s) =
    let rest = from_nul (c ∷ s) in
    settle_total (some (before_nul (c ∷ s))) (drop 1 rest) (c ∷ s)
      (omega (arith, length-drop 1 rest, length-from_nul (c ∷ s)))

read_fields_total :
    (fuel : ℕ) (m : NoticeMessage) (s : List ℕ)
    → length s < fuel
    → (n : NoticeMessage) × (r : List ℕ) × (read_fields fuel m s ≡ ok (some n, r))
unfolding read_fields
read_fields_total zero m s h = elim h [ ]
read_fields_total (suc fuel) m [] h = (m, [], refl)
read_fields_total (suc fuel) m (zero ∷ s) h = (m, s, refl)
read_fields_total (suc fuel) m (suc c ∷ s) h =
    let (v, r, e, le) = read_string_total s in
    rw (e, read_fields) (read_fields_total fuel (store m (suc c) v) r (omega arith))

-- The code that the protocol gives to a member.
abbrev pub code_of : Member → ℕ
code_of Member.severity = b'S'
code_of Member.sqlstate = b'C'
code_of Member.message = b'M'
code_of Member.detail = b'D'
code_of Member.hint = b'H'
code_of Member.position = b'P'
code_of Member.internal_position = b'p'
code_of Member.internal_query = b'q'
code_of Member.context = b'W'
code_of Member.schema_name = b's'
code_of Member.table_name = b't'
code_of Member.column_name = b'c'
code_of Member.data_type_name = b'd'
code_of Member.constraint_name = b'n'
code_of Member.file_name = b'F'
code_of Member.line = b'L'
code_of Member.routine = b'R'

get-store :
    (m : NoticeMessage) (c : ℕ) (v : List ℕ) (p : Member)
    → get (store m c (some v)) p ≡ (if c == code_of p then v else get m p)
unfolding store
get-store m c v Member.severity = ground arith
get-store m c v _ = ground arith

-- Fields as the protocol lays them out, ended by a zero byte, with what follows.
abbrev pub fields_bytes : List (ℕ × List ℕ) → List ℕ → List ℕ
fields_bytes [] s = 0 ∷ s
fields_bytes ((c, v) ∷ fs) s = c ∷ (v ++ 0 ∷ fields_bytes fs s)

abbrev pub AreFields : List (ℕ × List ℕ) → Type 0
AreFields [] = Unit {0}
AreFields ((c, v) ∷ fs) = (c ≢ 0) × NoNul v × AreFields fs

-- The last value given under a code, or else `d`.
abbrev pub last_value : List (ℕ × List ℕ) → ℕ → List ℕ → List ℕ
last_value [] code d = d
last_value ((c, v) ∷ fs) code d = last_value fs code (if c == code then v else d)

abbrev stored : NoticeMessage → List (ℕ × List ℕ) → NoticeMessage
stored m [] = m
stored m ((c, v) ∷ fs) = stored (store m c (some v)) fs

get-stored :
    (fs : List (ℕ × List ℕ)) (m : NoticeMessage) (p : Member)
    → get (stored m fs) p ≡ last_value fs (code_of p) (get m p)
get-stored [] m p = refl
get-stored ((c, v) ∷ fs) m p =
    get-stored fs (store m c (some v)) p ∙ ap (last_value fs (code_of p)) (get-store m c v p)

length-fields_bytes : (fs : List (ℕ × List ℕ)) (s : List ℕ) → length fs < length (fields_bytes fs s)
length-fields_bytes [] s = omega arith
length-fields_bytes ((c, v) ∷ fs) s =
    omega (arith, length-append v (0 ∷ fields_bytes fs s), length-fields_bytes fs s)

read_fields-fields_bytes :
    (fs : List (ℕ × List ℕ)) (fuel : ℕ) (m : NoticeMessage) (s : List ℕ)
    → length fs < fuel
    → AreFields fs
    → read_fields fuel m (fields_bytes fs s) ≡ ok (some (stored m fs), s)
unfolding read_fields
read_fields-fields_bytes fs zero m s h a = elim h [ ]
read_fields-fields_bytes [] (suc fuel) m s h a = refl
read_fields-fields_bytes ((zero, v) ∷ fs) (suc fuel) m s h a = absurd (a.0 refl)
read_fields-fields_bytes ((suc c, v) ∷ fs) (suc fuel) m s h a =
    rw (read_string-nul v (fields_bytes fs s) a.1, read_fields)
      (read_fields-fields_bytes fs fuel (store m (suc c) (some v)) s (omega arith) a.2)

-- Whatever the bytes, the read of a notice ends with a notice.
pub read_notice_total :
    (m : NoticeMessage) (s : List ℕ)
    → (n : NoticeMessage) × (r : List ℕ) × (read_notice m s ≡ ok (some n, r))
unfolding read_notice
read_notice_total m s = read_fields_total (suc (length s)) m s (omega arith)

-- A notice whose fields have codes other than 0 and texts without zero bytes is read up to its
-- end, and each member then has the last value given under its code, or what it had before.
pub read_notice-fields_bytes :
    (fs : List (ℕ × List ℕ)) (m : NoticeMessage) (s : List ℕ)
    → AreFields fs
    → (n : NoticeMessage) × (read_notice m (fields_bytes fs s) ≡ ok (some n, s))
      × ((p : Member) → get n p ≡ last_value fs (code_of p) (get m p))
unfolding read_notice
read_notice-fields_bytes fs m s a = (
  stored m fs,
  read_fields-fields_bytes fs (suc (length (fields_bytes fs s))) m s
      (omega (arith, length-fields_bytes fs s)) a,
  get-stored fs m,
)
