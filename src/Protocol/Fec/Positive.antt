-- ===== src/Protocol/Fec/Positive.antt =====
-- What a packet filter configuration that is accepted holds.
use bilbycast_libsrt_rs.Shared.{
  ℕ, ℤ, ◌≤◌, ◌≡◌, subst, Bool, true, false, List, [], ◌∷◌, Option, none, some, ◌==◌, Text, codes,
  is_empty, arith, parse_usize, parse_i64, Bool-cases, inl, inr, if◌then◌else◌,
}
use bilbycast_libsrt_rs.Protocol.StreamId.{comma, split, split_once}
use bilbycast_libsrt_rs.Protocol.Fec.{
  FecConfig, Parsed, default_fec, ok, err, colon, same_text, set_cols, set_rows, set_param,
  read_param, read_trimmed, read_params, read_rest, read_head, head_and_rest, parse_trimmed,
  parse_fec, unsigned_abs,
}

abbrev Positive : FecConfig → Type 0
Positive c = (1 ≤ c.cols) × (1 ≤ c.rows)

abbrev PositiveParsed : Parsed → Type 0
PositiveParsed (ok c) = Positive c
PositiveParsed (err e) = Unit

if-Positive :
    (b : Bool) (p q : Parsed)
    → PositiveParsed p
    → PositiveParsed q
    → PositiveParsed (if b then p else q)
if-Positive true p q hp hq = hp
if-Positive false p q hp hq = hq

set_cols-Positive :
    (value : Text) (c : FecConfig) (n : Option ℕ) → Positive c → PositiveParsed (set_cols value c n)
unfolding set_cols
set_cols-Positive value c none (cols, rows) = tt
set_cols-Positive value c (some n) (cols, rows) = elim (Bool-cases (n == 0)) [
  | inl no_cols ↦ rw no_cols tt
  | inr cols_there ↦ rw cols_there (ground arith, rows)
]

set_rows-Positive :
    (value : Text) (c : FecConfig) (n : Option ℤ) → Positive c → PositiveParsed (set_rows value c n)
unfolding set_rows
set_rows-Positive value c none (cols, rows) = tt
set_rows-Positive value c (some raw) (cols, rows) = elim (Bool-cases (unsigned_abs raw == 0)) [
  | inl no_rows ↦ rw no_rows tt
  | inr rows_there ↦ rw rows_there (cols, ground arith)
]

set_param-Positive :
    (key value : Text) (c : FecConfig) → Positive c → PositiveParsed (set_param key value c)
unfolding set_param
set_param-Positive key value c p =
    if-Positive (same_text key (codes "cols")) _ _ (set_cols-Positive value c (parse_usize value) p)
      (if-Positive (same_text key (codes "rows")) _ _
        (set_rows-Positive value c (parse_i64 value) p)
        (if-Positive (same_text key (codes "layout")) _ _
          (if-Positive (same_text value (codes "even")) _ _ p
            (if-Positive (same_text value (codes "staircase")) _ _ p tt))
          (if-Positive (same_text key (codes "arq")) _ _
            (if-Positive (same_text value (codes "always")) _ _ p (
              if-Positive (same_text value (codes "onreq")) _ _ p
                (if-Positive (same_text value (codes "never")) _ _ p tt)))
            p)))

module _ (trim : Text → Text) where
  read_param-Positive :
      (param : Text) (o : Option (Text × Text)) (c : FecConfig)
      → Positive c
      → PositiveParsed (read_param trim param o c)
  unfolding read_param
  read_param-Positive param none c p = tt
  read_param-Positive param (some (key, value)) c p = set_param-Positive (trim key) (trim value) c p

  read_trimmed-Positive :
      (param : Text) (c : FecConfig) → Positive c → PositiveParsed (read_trimmed trim param c)
  unfolding read_trimmed
  read_trimmed-Positive param c p =
      if-Positive (is_empty param) _ _ p (read_param-Positive param (split_once colon param) c p)

  -- The rest of the loop, after one parameter.
  go_on :
      (r : Parsed) (params : List Text)
      → ((c : FecConfig) → Positive c → PositiveParsed (read_params trim params c))
      → PositiveParsed r
      → PositiveParsed (elim r [ ok c ↦ read_params trim params c | err e ↦ err e ])
  go_on (ok c) params rest p = rest c p
  go_on (err e) params rest p = tt

  read_params-Positive :
      (params : List Text) (c : FecConfig) → Positive c → PositiveParsed (read_params trim params c)
  unfolding read_params
  read_params-Positive [] c p = p
  read_params-Positive (param ∷ params) c p =
      go_on (read_trimmed trim (trim param) c) params (read_params-Positive params)
        (read_trimmed-Positive (trim param) c p)

  read_rest-Positive : (rest : Option Text) → PositiveParsed (read_rest trim rest)
  unfolding read_rest default_fec
  read_rest-Positive none = omega arith
  read_rest-Positive (some rest) = read_params-Positive (split comma rest) default_fec (omega arith)

  parse_fec-PositiveParsed : (text : Text) → PositiveParsed (parse_fec trim text)
  unfolding parse_fec parse_trimmed read_head
  parse_fec-PositiveParsed text =
      let (head, rest) = head_and_rest (trim text) (split_once comma (trim text)) in
      if-Positive (is_empty (trim text)) _ _ tt
        (if-Positive (same_text (trim head) (codes "fec")) _ _ (read_rest-Positive rest) tt)

  -- A packet filter configuration that is accepted has at least one column and one row, whatever its
  -- text.
  pub parse_fec-positive :
      (text : Text) (c : FecConfig) → parse_fec trim text ≡ ok c → (1 ≤ c.cols) × (1 ≤ c.rows)
  parse_fec-positive text c read = subst PositiveParsed read (parse_fec-PositiveParsed text)
